-- ===== src/FriendlyFire.antt =====
-- native/dwrt-host/dwrt_friendly_fire.cpp: around each damage call on an objective its team byte is
-- changed to the opposing team, and set back afterwards. The global state is passed explicitly;
-- each counter is one 64-bit atomic, and the operations run one after the other.
use dwrt.Prelude.{
  ℕ, ◌+◌, Bool, true, false, not, ◌&&◌, ◌||◌, List, [], ◌∷◌, ltb, ◌==◌, if◌then◌else◌, codes, u8,
  inc, Memory, store_byte, load_ptr, c_string_among,
}
use dwrt.Environment.{GetVariable, env_flag_enabled, read_variable, bounded_value}
pub mod Restore
pub mod Counters
pub mod Open
pub mod Tests

abbrev pub mode_none : ℕ
mode_none = 0

abbrev pub mode_victim_team_spoof : ℕ
mode_victim_team_spoof = 1

abbrev pub scope_objectives : ℕ
scope_objectives = 1

abbrev pub team_num_offset : ℕ
team_num_offset = 0x33c

-- `FriendlyFireState`, and `DwrtFriendlyFireSnapshot`, which has the same fields.
pub record FriendlyFireState : Type 0 where
  pub enabled : ℕ
  pub mode : ℕ
  pub scope : ℕ
  pub local_team : ℕ
  pub damage_callbacks : ℕ
  pub skipped_recursive : ℕ
  pub missing_identity : ℕ
  pub missing_designer_name : ℕ
  pub non_objective_victims : ℕ
  pub objective_candidates : ℕ
  pub invalid_team : ℕ
  pub team_spoof_attempts : ℕ
  pub team_spoof_applied : ℕ
  pub team_spoof_restored : ℕ

-- `FriendlyFireDamageScope`
pub record FriendlyFireDamageScope : Type 0 where
  pub entity : ℕ
  pub original_team : ℕ
  pub applied : ℕ

abbrev pub empty_scope : FriendlyFireDamageScope
empty_scope = record { entity = 0; original_team = 0; applied = 0 }

unfoldable pub env_u32_or : GetVariable → List ℕ → ℕ → ℕ
env_u32_or get name fallback = bounded_value 255 fallback (read_variable get name 32)

-- The identity pointer stands at 0x10 of an entity.
unfoldable pub entity_identity : Memory → ℕ → ℕ
entity_identity m entity = if entity == 0 then 0 else load_ptr m (entity + 0x10)

-- `identity->designer_name`, behind two pointers, two 32-bit fields and a pointer.
unfoldable pub designer_name_of : Memory → ℕ → ℕ
designer_name_of m identity = load_ptr m (identity + 32)

abbrev pub objective_names : List (List ℕ)
objective_names =
    codes "npc_boss_tier1"
    ∷ codes "alt_npc_boss_tier1"
    ∷ codes "CNPC_Boss_Tier1"
    ∷ codes "npc_boss_tier2"
    ∷ codes "alt_npc_boss_tier2"
    ∷ codes "CNPC_Boss_Tier2"
    ∷ codes "npc_boss_tier3"
    ∷ codes "alt_npc_boss_tier3"
    ∷ codes "CNPC_Boss_Tier3"
    ∷ codes "npc_trooper_boss"
    ∷ codes "alt_npc_trooper_boss"
    ∷ codes "CNPC_TrooperBoss"
    ∷ codes "CNPC_BarrackBoss"
    ∷ []

-- `designer_name == nullptr || designer_name[0] == '\0'`
unfoldable pub is_missing_name : Memory → ℕ → Bool
is_missing_name m name = name == 0 || m name == 0

unfoldable pub is_objective_designer_name : Memory → ℕ → Bool
is_objective_designer_name m name =
    if is_missing_name m name then false else c_string_among m name objective_names

unfoldable pub opposing_team : ℕ → ℕ
opposing_team team = if team == 2 then 3 else if team == 3 then 2 else 0

unfoldable pub team_field : ℕ → ℕ
team_field entity = entity + team_num_offset

unfoldable pub configure_friendly_fire_from_environment :
    GetVariable → FriendlyFireState → FriendlyFireState
configure_friendly_fire_from_environment get s =
    let enabled =
      env_flag_enabled get (codes "DWRT_FRIENDLY_FIRE_EXPERIMENT")
      || env_flag_enabled get (codes "DWRT_FRIENDLY_FIRE_OBJECTIVE_TEAM_SPOOF") in
    record s {
      enabled = if enabled then 1 else 0;
      mode = if enabled then mode_victim_team_spoof else mode_none;
      scope = scope_objectives;
      local_team = env_u32_or get (codes "DWRT_FRIENDLY_FIRE_LOCAL_TEAM") 2;
    }

unfoldable pub reset_friendly_fire_counters : FriendlyFireState → FriendlyFireState
reset_friendly_fire_counters s = record s {
  damage_callbacks = 0;
  skipped_recursive = 0;
  missing_identity = 0;
  missing_designer_name = 0;
  non_objective_victims = 0;
  objective_candidates = 0;
  invalid_team = 0;
  team_spoof_attempts = 0;
  team_spoof_applied = 0;
  team_spoof_restored = 0;
}

-- The state and the memory after a call, with the scope that it returns.
pub record Begun : Type 0 where
  pub state : FriendlyFireState
  pub memory : Memory
  pub damage_scope : FriendlyFireDamageScope

-- An early return.
abbrev pub leave : FriendlyFireState → Memory → Begun
leave s m = record { state = s; memory = m; damage_scope = empty_scope }

-- The writes, once the spoofed team is known.
unfoldable pub apply_spoof : FriendlyFireState → Memory → (entity original spoofed : ℕ) → Begun
apply_spoof s m entity original spoofed = record {
  state = record s {
    team_spoof_attempts = inc s.team_spoof_attempts;
    team_spoof_applied = inc s.team_spoof_applied;
  };
  memory = store_byte m (team_field entity) spoofed;
  damage_scope = record { entity = entity; original_team = original; applied = 1 };
}

-- From the read of the team on.
unfoldable pub spoof_objective : FriendlyFireState → Memory → ℕ → Begun
spoof_objective s m entity =
    let original = m (team_field entity) in
    if not (s.local_team == 0) && not (original == u8 s.local_team)
    then leave s m
    else if opposing_team original == 0
    then leave (record s { invalid_team = inc s.invalid_team }) m
    else apply_spoof s m entity original (opposing_team original)

-- From the identity of the victim on.
unfoldable pub inspect_victim : FriendlyFireState → Memory → ℕ → Begun
inspect_victim s m entity =
    let identity = entity_identity m entity in
    let name = designer_name_of m identity in
    if identity == 0
    then leave (record s { missing_identity = inc s.missing_identity }) m
    else if is_missing_name m name
    then leave (record s { missing_designer_name = inc s.missing_designer_name }) m
    else if not (is_objective_designer_name m name)
    then leave (record s { non_objective_victims = inc s.non_objective_victims }) m
    else spoof_objective (record s { objective_candidates = inc s.objective_candidates }) m entity

-- `enabled == 0 || mode != kModeVictimTeamSpoof`
unfoldable pub is_off : FriendlyFireState → Bool
is_off s = s.enabled == 0 || not (s.mode == mode_victim_team_spoof)

unfoldable pub begin_friendly_fire_damage : FriendlyFireState → Memory → ℕ → Bool → Begun
begin_friendly_fire_damage s m entity recursive =
    let counted = record s { damage_callbacks = inc s.damage_callbacks } in
    if is_off s
    then leave s m
    else if recursive
    then leave (record counted { skipped_recursive = inc s.skipped_recursive }) m
    else inspect_victim counted m entity

unfoldable pub end_friendly_fire_damage :
    FriendlyFireState → Memory → FriendlyFireDamageScope → FriendlyFireState × Memory
end_friendly_fire_damage s m d = if d.applied == 0 || d.entity == 0 then (s, m) else (
  record s { team_spoof_restored = inc s.team_spoof_restored },
  store_byte m (team_field d.entity) d.original_team,
)
