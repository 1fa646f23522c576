-- ===== src/TargetProbe/Open.antt =====
-- native/dwrt-host/dwrt_target_probe.cpp: the filters and the changes of a team that are begun and not
-- finished yet.
use dwrt.Prelude.{
  ℕ, ◌+◌, ◌≡◌, ◌≢◌, refl, ◌∙◌, Bool, false, not, ◌&&◌, Option, none, some, arith, u64, Memory, ◌==◌,
  if◌then◌else◌,
}
use dwrt.TargetProbe.State.{TargetProbeState, ProbeWorld}
use dwrt.TargetProbe.Entities.{Process, safe_read_team, team_or_invalid}
use dwrt.TargetProbe.Neutralize.{finish_neutralize, neutralize_team, maybe_global_neutralize_entity}
use dwrt.TargetProbe.Filter.{
  bit_of, is_same_team, TargetFilterScope, finish_source_spoof, spoof_source, finish_target_spoof,
  spoof_target, new_filter_scope, count_filter_call, enter_filter, neutralize_both,
  begin_target_filter, record_result_common, finish_source_restore, restore_source,
  finish_target_restore, restore_target, finish_target_filter,
}
use dwrt.TargetProbe.Gates.{record_target_filter_caller, record_secondary_target_gate}
use dwrt.TargetProbe.Classifier.{
  allow_bit, maybe_allow_target_bitset, finish_classified, finish_target_identity_classifier,
  begin_target_classifier_spoof_scope, end_target_classifier_spoof_scope,
}
use dwrt.TargetProbe.Damage.{record_attacker, record_victim, record_damage_victim}

-- The probe is switched on, and up to the wrap-around of the counters, `filters` calls of the filter have no
-- verdict yet, and no more do `sources` changes of a source's team and `targets` of a target's.
pub record IsOpen (filters sources targets : ℕ) (s : TargetProbeState) : Type 0 where
  pub enabled : s.settings.enabled ≢ 0
  pub calls :
      s.filter.filter_calls ≡ u64 (filters + (s.filter.filter_allowed + s.filter.filter_denied))
  pub source :
      s.source_spoof.applied ≡ u64 (sources + (s.source_spoof.allowed + s.source_spoof.denied))
  pub target :
      s.target_spoof.applied ≡ u64 (targets + (s.target_spoof.allowed + s.target_spoof.denied))

-- Whether a scope has changed the team of its source, and of its target, as a number.
abbrev pub open_sources : TargetFilterScope → ℕ
open_sources scope =
    if not (scope.source_spoof_applied == 0) && not (scope.source == 0) then 1 else 0

abbrev pub open_targets : TargetFilterScope → ℕ
open_targets scope =
    if not (scope.target_spoof_applied == 0) && not (scope.target == 0) then 1 else 0

pub neutralize_entity-Open :
    (f s t : ℕ) (p : Process) (w : ProbeWorld) (entity : ℕ)
    → IsOpen f s t w.probe
    → IsOpen f s t (maybe_global_neutralize_entity p w entity).probe
unfolding maybe_global_neutralize_entity neutralize_team finish_neutralize
neutralize_entity-Open f s t p w entity h = ground arith

neutralize_both-Open :
    (f s t : ℕ) (p : Process) (w : ProbeWorld) (source target : ℕ)
    → IsOpen f s t w.probe
    → IsOpen f s t (neutralize_both p w source target).probe
unfolding neutralize_both
neutralize_both-Open f s t p w source target h =
    neutralize_entity-Open f s t p _ target (neutralize_entity-Open f s t p w source h)

spoof_source-Open :
    (f s t : ℕ) (p : Process) (w : ProbeWorld) (scope : TargetFilterScope) (team : ℕ)
    → IsOpen f s t w.probe
    → scope.source_spoof_applied ≡ 0
    → (scope.same_team ≢ 0 → scope.source ≢ 0)
    → IsOpen f
        (s + open_sources (spoof_source p w scope team).1)
        t
        (spoof_source p w scope team).0.probe
unfolding spoof_source finish_source_spoof
spoof_source-Open f s t p w scope team h z n = ground arith

spoof_target-Open :
    (f s t : ℕ) (p : Process) (w : ProbeWorld) (scope : TargetFilterScope) (team : ℕ)
    → IsOpen f s t w.probe
    → scope.target_spoof_applied ≡ 0
    → (scope.same_team ≢ 0 → scope.target ≢ 0)
    → IsOpen f s
        (t + open_targets (spoof_target p (w, scope) team).1)
        (spoof_target p (w, scope) team).0.probe
unfolding spoof_target finish_target_spoof
spoof_target-Open f s t p w scope team h z n = ground arith

-- `spoof_source` leaves what the scope says of the target, and `spoof_target` what it says of the source.
spoof_source_target :
    (p : Process) (w : ProbeWorld) (scope : TargetFilterScope) (team : ℕ)
    → let r = (spoof_source p w scope team).1 in
      (r.target ≡ scope.target)
      × ((r.same_team ≡ scope.same_team) × (r.target_spoof_applied ≡ scope.target_spoof_applied))
unfolding spoof_source finish_source_spoof
spoof_source_target p w scope team = ground arith

spoof_target_sources :
    (p : Process) (w : ProbeWorld) (scope : TargetFilterScope) (team : ℕ)
    → open_sources (spoof_target p (w, scope) team).1 ≡ open_sources scope
unfolding spoof_target finish_target_spoof
spoof_target_sources p w scope team = ground arith

spoof_both-Open :
    (f s t : ℕ) (p : Process) (w : ProbeWorld) (scope : TargetFilterScope) (source_team team : ℕ)
    → IsOpen f s t w.probe
    → scope.source_spoof_applied ≡ 0
    → scope.target_spoof_applied ≡ 0
    → (scope.same_team ≢ 0 → scope.source ≢ 0)
    → (scope.same_team ≢ 0 → scope.target ≢ 0)
    → let b = spoof_target p (spoof_source p w scope team) source_team in
      IsOpen f (s + open_sources b.1) (t + open_targets b.1) b.0.probe
spoof_both-Open f s t p w scope source_team team h zs zt ns nt =
    let a = spoof_source p w scope team in
    let (same_target, (same_team, same_applied)) = spoof_source_target p w scope team in
    rw (spoof_target_sources p a.0 a.1 source_team) (
      spoof_target-Open f (s + open_sources a.1) t p a.0 a.1 source_team
        (spoof_source-Open f s t p w scope team h zs ns) (same_applied ∙ zt)
        (λ x. rw same_target (nt (rw same_team at x))))

-- Only entities that are there have the same team.
same_team_source :
    (p : Process) (m : Memory) (source team : ℕ)
    → bit_of (is_same_team (team_or_invalid (safe_read_team p m source)) team) ≢ 0
    → source ≢ 0
unfolding is_same_team safe_read_team
same_team_source p m source team h = ground (arith, h)

same_team_target :
    (p : Process) (m : Memory) (target team : ℕ)
    → bit_of (is_same_team team (team_or_invalid (safe_read_team p m target))) ≢ 0
    → target ≢ 0
unfolding is_same_team safe_read_team
same_team_target p m target team h = ground (arith, h)

enter_filter-Open :
    (f s t : ℕ) (p : Process) (w : ProbeWorld) (source target : ℕ)
    → IsOpen f s t w.probe
    → let b =
        enter_filter p w source target
          (safe_read_team p w.memory source)
          (safe_read_team p w.memory target) in
      IsOpen (f + 1) (s + open_sources b.1) (t + open_targets b.1) b.0.probe
unfolding enter_filter count_filter_call new_filter_scope
enter_filter-Open f s t p w source target h =
    spoof_both-Open (f + 1) s t p _ _ _ _ (ground arith) refl refl
      (same_team_source p w.memory source _) (same_team_target p w.memory target _)

pub begin_target_filter-Open :
    (f s t : ℕ) (p : Process) (w : ProbeWorld) (source target : ℕ)
    → IsOpen f s t w.probe
    → let b = begin_target_filter p w source target false in
      IsOpen (f + 1) (s + open_sources b.1) (t + open_targets b.1) b.0.probe
unfolding begin_target_filter
begin_target_filter-Open f s t p w source target h = ground (
  arith,
  enter_filter-Open f s t p (neutralize_both p w source target) source target
      (neutralize_both-Open f s t p w source target h),
)

pub finish_target_filter-Open :
    (f s t : ℕ) (p : Process) (w : ProbeWorld) (scope : TargetFilterScope) (result : Bool)
    → IsOpen (f + 1) (s + open_sources scope) (t + open_targets scope) w.probe
    → IsOpen f s t (finish_target_filter p w scope result).0.probe
unfolding finish_target_filter restore_source finish_source_restore restore_target
    finish_target_restore record_result_common
finish_target_filter-Open f s t p w scope result h = ground arith

pub caller-Open :
    (f s t : ℕ) (p : Process) (w : ProbeWorld) (source target : ℕ) (result : Bool)
    → IsOpen f s t w.probe
    → IsOpen f s t (record_target_filter_caller p w source target result).0.probe
unfolding record_target_filter_caller
caller-Open f s t p w source target result h =
    ground (arith, neutralize_both-Open f s t p w source target h)

pub secondary-Open :
    (f s t : ℕ) (p : Process) (w : ProbeWorld) (source attacker target : ℕ) (result : Bool)
    → IsOpen f s t w.probe
    → IsOpen f s t (record_secondary_target_gate p w source attacker target result).0.probe
unfolding record_secondary_target_gate
secondary-Open f s t p w source attacker target result h = ground (
  arith,
  neutralize_entity-Open f s t p (neutralize_both p w source attacker) target
      (neutralize_both-Open f s t p w source attacker h),
)

pub bitset-Open :
    (f s t : ℕ) (p : Process) (w : ProbeWorld) (scope : TargetFilterScope)
    (target bitset classifier : ℕ)
    → IsOpen f s t w.probe
    → IsOpen f s t (maybe_allow_target_bitset p w scope target bitset classifier).0.probe
unfolding maybe_allow_target_bitset allow_bit
bitset-Open f s t p w scope target bitset classifier h = ground arith

pub opened-Open :
    (f s t : ℕ) (w : ProbeWorld) (scope : TargetFilterScope)
    → IsOpen f s t w.probe
    → IsOpen f s t (begin_target_classifier_spoof_scope w scope).probe
unfolding begin_target_classifier_spoof_scope
opened-Open f s t w scope h = ground arith

pub closed-Open :
    (f s t : ℕ) (w : ProbeWorld)
    → IsOpen f s t w.probe
    → IsOpen f s t (end_target_classifier_spoof_scope w).probe
unfolding end_target_classifier_spoof_scope
closed-Open f s t w h = h

pub classifier-Open :
    (f s t : ℕ) (p : Process) (w : ProbeWorld) (target out : ℕ)
    → IsOpen f s t w.probe
    → IsOpen f s t (finish_target_identity_classifier p w target out).probe
unfolding finish_target_identity_classifier finish_classified
classifier-Open f s t p w target out h = ground (arith, neutralize_entity-Open f s t p w target h)

record_attacker-Open :
    (f s t : ℕ) (p : Process) (w : ProbeWorld) (victim team unit_type : ℕ) (objective : Bool)
    (o : Option ℕ)
    → IsOpen f s t w.probe
    → IsOpen f s t (record_attacker p w victim team unit_type objective o).probe
unfolding record_attacker
record_attacker-Open f s t p w victim team unit_type objective none h = ground arith
record_attacker-Open f s t p w victim team unit_type objective (some a) h = ground arith

record_victim-Open :
    (f s t : ℕ) (p : Process) (w : ProbeWorld) (victim info : ℕ)
    → IsOpen f s t w.probe
    → IsOpen f s t (record_victim p w victim info).probe
unfolding record_victim
record_victim-Open f s t p w victim info h =
    record_attacker-Open f s t p _ victim _ _ _ _ (ground arith)

pub damage-Open :
    (f s t : ℕ) (p : Process) (w : ProbeWorld) (victim info : ℕ) (recursive : Bool)
    → IsOpen f s t w.probe
    → IsOpen f s t (record_damage_victim p w victim info recursive).probe
unfolding record_damage_victim
damage-Open f s t p w victim info recursive h = ground (
  arith,
  record_victim-Open f s t p (maybe_global_neutralize_entity p w victim) victim info
      (neutralize_entity-Open f s t p w victim h),
)
