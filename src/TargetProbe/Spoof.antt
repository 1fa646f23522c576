-- ===== src/TargetProbe/Spoof.antt =====
-- native/dwrt-host/dwrt_target_probe.cpp: what begin_target_filter changes, side by side.
use dwrt.Prelude.{ℕ, ◌+◌, ◌≡◌, ◌≢◌, ◌<◌, ◌⊎◌, refl, Bool, true, ◌==◌, Memory, arith}
use dwrt.TargetProbe.State.{ProbeWorld}
use dwrt.TargetProbe.Entities.{
  Process, team_field, safe_read_team, team_or_invalid, safe_write_team, is_objective_name,
  designer_name_for,
}
use dwrt.TargetProbe.Neutralize.{
  finish_neutralize, neutralize_team, is_neutralize_off, maybe_global_neutralize_entity,
}
use dwrt.TargetProbe.Filter.{
  TargetFilterScope, is_same_team, new_filter_scope, finish_source_spoof, spoof_source,
  finish_target_spoof, spoof_target, enter_filter, neutralize_both,
}

abbrev pub IsBytes : Memory → Type 0
IsBytes m = (a : ℕ) → m a < 256

-- One side of a filter: its team is as before, or it was changed and the scope can put it back.
abbrev pub Side : Process → Memory → Memory → (entity original applied : ℕ) → Type 0
Side p m m1 entity original applied =
    ((applied ≡ 0) × (m1 (team_field entity) ≡ m (team_field entity)))
    ⊎ ((applied ≡ 1)
        × (entity ≢ 0)
        × (p.can_write (team_field entity) ≡ true)
        × (original ≡ m (team_field entity)))

-- A scope before any team is changed, for a memory.
record IsFresh (m : Memory) (source target : ℕ) (scope : TargetFilterScope) : Type 0 where
  at_source : scope.source ≡ source
  at_target : scope.target ≡ target
  source_kept : scope.source_spoof_applied ≡ 0
  target_kept : scope.target_spoof_applied ≡ 0
  teams :
      (scope.same_team ≡ 0)
      ⊎ ((source ≢ 0)
          × (target ≢ 0)
          × (scope.original_source_team ≡ m (team_field source))
          × (scope.original_target_team ≡ m (team_field target)))

-- After the source's team may have been changed.
record IsHalfSpoofed (p : Process) (m : Memory) (source target : ℕ) (w : ProbeWorld)
    (scope : TargetFilterScope) : Type 0 where
  at_source : scope.source ≡ source
  at_target : scope.target ≡ target
  source_side : Side p m w.memory source scope.original_source_team scope.source_spoof_applied
  target_kept : scope.target_spoof_applied ≡ 0
  target_team : w.memory (team_field target) ≡ m (team_field target)
  apart : (scope.source_spoof_applied ≡ 0) ⊎ (source ≢ target)
  teams :
      (scope.same_team ≡ 0)
      ⊎ ((source ≢ 0)
          × (target ≢ 0)
          × (scope.original_source_team ≡ m (team_field source))
          × (scope.original_target_team ≡ m (team_field target)))

-- After `begin_target_filter`.
pub record IsSpoofed (p : Process) (m : Memory) (source target : ℕ) (w : ProbeWorld)
    (scope : TargetFilterScope) : Type 0 where
  pub at_source : scope.source ≡ source
  pub at_target : scope.target ≡ target
  pub source_side : Side p m w.memory source scope.original_source_team scope.source_spoof_applied
  pub target_side : Side p m w.memory target scope.original_target_team scope.target_spoof_applied
  pub apart :
      ((scope.source_spoof_applied ≡ 0) × (scope.target_spoof_applied ≡ 0)) ⊎ (source ≢ target)

spoof_source-HalfSpoofed :
    (p : Process) (w : ProbeWorld) (scope : TargetFilterScope) (source target target_team : ℕ)
    → IsFresh w.memory source target scope
    → IsHalfSpoofed p w.memory source target
        (spoof_source p w scope target_team).0
        (spoof_source p w scope target_team).1
unfolding spoof_source finish_source_spoof safe_write_team team_field
spoof_source-HalfSpoofed p w scope source target target_team f = ground arith

spoof_target-Spoofed :
    (p : Process) (m : Memory) (w : ProbeWorld) (scope : TargetFilterScope)
    (source target source_team : ℕ)
    → IsHalfSpoofed p m source target w scope
    → IsSpoofed p m source target
        (spoof_target p (w, scope) source_team).0
        (spoof_target p (w, scope) source_team).1
unfolding spoof_target finish_target_spoof safe_write_team team_field
spoof_target-Spoofed p m w scope source target source_team f = ground arith

new_filter_scope-Fresh :
    (p : Process) (m : Memory) (source target : ℕ) (objective : Bool)
    → IsBytes m
    → IsFresh m source target (
        new_filter_scope source target
          (team_or_invalid (safe_read_team p m source))
          (team_or_invalid (safe_read_team p m target))
          objective)
unfolding new_filter_scope is_same_team safe_read_team team_field
new_filter_scope-Fresh p m source target objective bytes =
    ground (arith, bytes (source + 0x33c), bytes (target + 0x33c))

pub enter_filter-Spoofed :
    (p : Process) (w : ProbeWorld) (source target : ℕ)
    → IsBytes w.memory
    → let r =
        enter_filter p w source target
          (safe_read_team p w.memory source)
          (safe_read_team p w.memory target) in
      IsSpoofed p w.memory source target r.0 r.1
unfolding enter_filter
enter_filter-Spoofed p w source target bytes = spoof_target-Spoofed p w.memory _ _ source target _ (
    spoof_source-HalfSpoofed p _ _ source target _ (
      new_filter_scope-Fresh p w.memory source target
        (is_objective_name (designer_name_for p w.memory target)) bytes))

neutralize-Bytes :
    (p : Process) (w : ProbeWorld) (entity : ℕ)
    → IsBytes w.memory
    → IsBytes (maybe_global_neutralize_entity p w entity).memory
unfolding maybe_global_neutralize_entity neutralize_team finish_neutralize safe_write_team
neutralize-Bytes p w entity bytes a = ground (arith, bytes a)

pub neutralize_both-Bytes :
    (p : Process) (w : ProbeWorld) (source target : ℕ)
    → IsBytes w.memory
    → IsBytes (neutralize_both p w source target).memory
unfolding neutralize_both
neutralize_both-Bytes p w source target bytes =
    neutralize-Bytes p _ target (neutralize-Bytes p w source bytes)

pub neutralize_both_off :
    (p : Process) (w : ProbeWorld) (source target : ℕ)
    → (w.probe.settings.enabled == 0) ≡ true
    → neutralize_both p w source target ≡ w
unfolding neutralize_both maybe_global_neutralize_entity is_neutralize_off
neutralize_both_off p w source target off = rw (off, off) refl
