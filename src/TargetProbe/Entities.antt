-- ===== src/TargetProbe/Entities.antt =====
-- The reads and writes of game objects in native/dwrt-host/dwrt_target_probe.cpp. Where the source
-- guards an access by `__try`, the parameter says at which addresses it does not fault.
use dwrt.Prelude.{
  ℕ, zero, suc, ◌+◌, ◌*◌, ◌/◌, ◌%◌, Bool, true, false, not, ◌&&◌, ◌||◌, Option, none, some, List,
  [], ◌∷◌, ◌==◌, if◌then◌else◌, codes, text_among, u32, Memory, load_le, load_ptr, store_byte,
}
use dwrt.TargetProbe.Counters.{invalid_team, invalid_unit_type, invalid_handle}

-- The process: where its memory can be read and written, two functions of the game, which read only and
-- may fault (the virtual function that tells the type of a unit, and the classifier that tells the bit of
-- a target), and the handle of server.dll.
pub record Process : Type 0 where
  pub can_read : ℕ → Bool
  pub can_write : ℕ → Bool
  pub call_unit_type : Memory → (function entity : ℕ) → Option ℕ
  pub call_classifier : Memory → (function target : ℕ) → Option ℕ
  pub server_module : ℕ

abbrev pub team_num_offset : ℕ
team_num_offset = 0x33c

abbrev pub entity_system_chunk_table_rva : ℕ
entity_system_chunk_table_rva = 0x032b3280

abbrev pub and_then {ℓ κ} : {A : Type ℓ} {B : Type κ} → Option A → (A → Option B) → Option B
and_then none f = none
and_then (some a) f = f a

unfoldable pub team_field : ℕ → ℕ
team_field entity = entity + team_num_offset

-- Loads under `__try`.
abbrev pub read_ptr : Process → Memory → ℕ → Option ℕ
read_ptr p m a = if p.can_read a then some (load_ptr m a) else none

abbrev pub read_u32 : Process → Memory → ℕ → Option ℕ
read_u32 p m a = if p.can_read a then some (load_le m a 4) else none

-- A pointer that is not null.
abbrev pub nonnull : ℕ → Option ℕ
nonnull a = if a == 0 then none else some a

unfoldable pub safe_read_team : Process → Memory → ℕ → Option ℕ
safe_read_team p m entity =
    if entity == 0
    then none
    else if p.can_read (team_field entity)
    then some (m (team_field entity))
    else none

-- `out` after the call.
abbrev pub team_or_invalid : Option ℕ → ℕ
team_or_invalid none = invalid_team
team_or_invalid (some team) = team

unfoldable pub safe_write_team : Process → Memory → ℕ → ℕ → Option Memory
safe_write_team p m entity team =
    if entity == 0
    then none
    else if p.can_write (team_field entity)
    then some (store_byte m (team_field entity) team)
    else none

-- `out` after the call, whose result nothing reads.
unfoldable pub safe_read_damage_handle : Process → Memory → ℕ → ℕ → ℕ
safe_read_damage_handle p m info offset =
    if info == 0
    then invalid_handle
    else if p.can_read (info + offset)
    then load_le m (info + offset) 4
    else invalid_handle

-- From the entry of the handle on.
unfoldable pub entity_of_entry : Process → Memory → ℕ → ℕ → Option ℕ
entity_of_entry p m entry handle =
    and_then (read_u32 p m (entry + 0x10))
      (λ found. if found == handle then and_then (read_ptr p m entry) nonnull else none)

-- `handle & 0x7fff` has the chunk in its upper bits and the place in the chunk in its lower nine.
unfoldable pub resolve_entity_handle : Process → Memory → ℕ → Option ℕ
resolve_entity_handle p m handle =
    let entry_index = handle % 0x8000 in
    if handle == invalid_handle || (handle == 0xfffffffe || p.server_module == 0)
    then none
    else and_then (read_ptr p m (p.server_module + entity_system_chunk_table_rva)) (λ table.
      if table == 0
      then none
      else and_then (read_ptr p m (table + entry_index / 0x200 * 8)) (λ chunk.
        if chunk == 0
        then none
        else entity_of_entry p m (chunk + entry_index % 0x200 * 0x70) handle))

unfoldable pub safe_read_identity : Process → Memory → ℕ → Option ℕ
safe_read_identity p m entity =
    if entity == 0 then none else and_then (read_ptr p m (entity + 0x10)) nonnull

abbrev unit_type_of : Option ℕ → ℕ
unit_type_of none = invalid_unit_type
unit_type_of (some type) = u32 type

unfoldable pub safe_unit_type : Process → Memory → ℕ → ℕ
safe_unit_type p m entity =
    if entity == 0
    then invalid_unit_type
    else unit_type_of (
        and_then (read_ptr p m entity) (λ vtable.
          and_then (read_ptr p m (vtable + 0x200))
            (λ function. p.call_unit_type m function entity)))

abbrev pub objective_names : List (List ℕ)
objective_names =
    codes "npc_boss_tier1"
    ∷ codes "alt_npc_boss_tier1"
    ∷ codes "CNPC_Boss_Tier1"
    ∷ codes "npc_boss_tier2"
    ∷ codes "alt_npc_boss_tier2"
    ∷ codes "CNPC_Boss_Tier2"
    ∷ codes "npc_boss_tier3"
    ∷ codes "alt_npc_boss_tier3"
    ∷ codes "CNPC_Boss_Tier3"
    ∷ codes "npc_trooper_boss"
    ∷ codes "alt_npc_trooper_boss"
    ∷ codes "CNPC_TrooperBoss"
    ∷ codes "CNPC_BarrackBoss"
    ∷ []

unfoldable pub is_objective_name : List ℕ → Bool
is_objective_name name = text_among name objective_names

unfoldable pub has_prefix : (text start : List ℕ) → Bool
has_prefix text [] = true
has_prefix [] (p ∷ ps) = false
has_prefix (c ∷ cs) (p ∷ ps) = c == p && has_prefix cs ps

unfoldable pub is_neutral_name : List ℕ → Bool
is_neutral_name name =
    has_prefix name (codes "npc_neutral")
    || (has_prefix name (codes "CNPC_Neutral")
        || text_among name (codes "npc_trooper_neutral" ∷ codes "CNPC_TrooperNeutral" ∷ []))

unfoldable pub is_midboss_name : List ℕ → Bool
is_midboss_name name =
    text_among name (codes "npc_midboss" ∷ codes "CNPC_MidBoss" ∷ codes "midboss" ∷ [])

-- At most `n` bytes, up to the first zero; `none` where one of them faults.
unfoldable pub read_guarded : Process → Memory → ℕ → ℕ → Option (List ℕ)
read_guarded p m a zero = some []
read_guarded p m a (suc n) =
    let rest = read_guarded p m (a + 1) n in
    if not (p.can_read a)
    then none
    else if m a == 0
    then some []
    else and_then rest (λ cs. some (m a ∷ cs))

abbrev text_or_empty : Option (List ℕ) → List ℕ
text_or_empty none = []
text_or_empty (some text) = text

-- The pointer `designer_name` of the identity is read without a guard.
unfoldable pub designer_name_for : Process → Memory → ℕ → List ℕ
designer_name_for p m entity = text_or_empty (
    and_then (safe_read_identity p m entity) (λ identity.
      and_then (nonnull (load_ptr m (identity + 32))) (λ name. read_guarded p m name 128)))
