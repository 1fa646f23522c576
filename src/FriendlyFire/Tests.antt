-- ===== src/FriendlyFire/Tests.antt =====
-- An objective of team 2 in memory, for native/dwrt-host/dwrt_friendly_fire.cpp.
use dwrt.Prelude.{
  ℕ, ◌≡◌, ◌↔◌, refl, inl, inr, true, false, List, [], ◌∷◌, arith, codes, Memory, memory_of,
  memory_of-lt, load_le, c_string_is, c_string_among, store_byte,
}
use dwrt.FriendlyFire.{
  FriendlyFireState, entity_identity, designer_name_of, is_missing_name, is_objective_designer_name,
  opposing_team, team_field, apply_spoof, spoof_objective, inspect_victim, is_off,
  begin_friendly_fire_damage, end_friendly_fire_damage,
}
use dwrt.FriendlyFire.Restore.{
  IsSpoofed, IsBytes, team_of, begin_friendly_fire_damage_exact, end-begin_team, end-begin,
}
use dwrt.FriendlyFire.Counters.{IsAccounted, begins, run, run-IsAccounted}

-- An entity at 1000 with its identity at 2000, its name at 3000 and its team at 1000 + 0x33c.
abbrev pub walker_segments : List (ℕ × List ℕ)
walker_segments =
    (1016, 0xd0 ∷ 7 ∷ [])
    ∷ (2032, 0xb8 ∷ 11 ∷ [])
    ∷ (3000, codes "npc_boss_tier2")
    ∷ (1828, 2 ∷ [])
    ∷ []

abbrev pub walker : Memory
walker = memory_of walker_segments

abbrev pub switched_on_state : FriendlyFireState
switched_on_state = record {
  enabled = 1;
  mode = 1;
  scope = 1;
  local_team = 2;
  damage_callbacks = 0;
  skipped_recursive = 0;
  missing_identity = 0;
  missing_designer_name = 0;
  non_objective_victims = 0;
  objective_candidates = 0;
  invalid_team = 0;
  team_spoof_attempts = 0;
  team_spoof_applied = 0;
  team_spoof_restored = 0;
}

walker_spoofed : (begin_friendly_fire_damage switched_on_state walker 1000 false).memory 1828 ≡ 3
unfolding begin_friendly_fire_damage inspect_victim spoof_objective apply_spoof is_off
    entity_identity designer_name_of is_missing_name is_objective_designer_name opposing_team
    team_field load_le c_string_is c_string_among
walker_spoofed = refl

walker-IsSpoofed : IsSpoofed switched_on_state walker 1000 false
unfolding is_off entity_identity designer_name_of is_missing_name is_objective_designer_name
    team_field load_le c_string_is c_string_among
walker-IsSpoofed = record {
  switched_on = refl;
  outermost = refl;
  identified = λ e. absurd (omega (arith, e));
  objective = refl;
  has_opponent = inl refl;
  is_local = inr refl;
}

pub walker-IsBytes : IsBytes walker
walker-IsBytes a = memory_of-lt walker_segments a (omega arith)

begin_friendly_fire_damage_exact_example :
    let b = begin_friendly_fire_damage switched_on_state walker 1000 false in
    ((b.damage_scope.applied ≡ 1) ↔ IsSpoofed switched_on_state walker 1000 false)
    × (IsSpoofed switched_on_state walker 1000 false
        → b.memory ≡ store_byte walker (team_field 1000) 3)
    × ((IsSpoofed switched_on_state walker 1000 false → ⊥) → b.memory ≡ walker)
unfolding team_field
begin_friendly_fire_damage_exact_example =
    begin_friendly_fire_damage_exact switched_on_state walker 1000 false

end-begin_team_example :
    let b = begin_friendly_fire_damage switched_on_state walker 1000 false in
    let e = end_friendly_fire_damage b.state (store_byte b.memory 5000 7) b.damage_scope in
    team_of e.1 1000 ≡ 2
unfolding team_field
end-begin_team_example =
    ((end-begin_team switched_on_state
        (begin_friendly_fire_damage switched_on_state walker 1000 false).state walker
        (store_byte (begin_friendly_fire_damage switched_on_state walker 1000 false).memory 5000 7)
        1000 false walker-IsBytes).0
      walker-IsSpoofed).0

end-begin_example :
    let b = begin_friendly_fire_damage switched_on_state walker 1000 false in
    (end_friendly_fire_damage b.state b.memory b.damage_scope).1 ≡ walker
end-begin_example =
    end-begin switched_on_state
      (begin_friendly_fire_damage switched_on_state walker 1000 false).state walker 1000 false
      walker-IsBytes

run-IsAccounted_example :
    IsAccounted (run switched_on_state (begins walker 1000 false ∷ begins walker 0 true ∷ []))
run-IsAccounted_example =
    run-IsAccounted switched_on_state (begins walker 1000 false ∷ begins walker 0 true ∷ [])
      (omega arith)
