-- ===== src/TargetProbe/Accounting.antt =====
-- native/dwrt-host/dwrt_target_probe.cpp: gates, attempts, victims and attackers are counted by their outcomes.
use dwrt.Prelude.{ℕ, ◌+◌, ◌≡◌, Bool, Option, none, some, List, arith, u64, Memory}
use dwrt.TargetProbe.Counters.{LastSeen}
use dwrt.TargetProbe.State.{TargetProbeState, ProbeWorld}
use dwrt.TargetProbe.Entities.{Process, safe_read_team}
use dwrt.TargetProbe.Neutralize.{finish_neutralize, neutralize_team, maybe_global_neutralize_entity}
use dwrt.TargetProbe.Filter.{
  TargetFilterScope, finish_source_spoof, spoof_source, finish_target_spoof, spoof_target,
  enter_filter, neutralize_both, begin_target_filter, finish_source_restore, restore_source,
  finish_target_restore, restore_target, finish_target_filter,
}
use dwrt.TargetProbe.Gates.{
  count_caller, record_target_filter_caller, count_secondary, record_secondary_target_gate,
}
use dwrt.TargetProbe.Classifier.{
  allow_bit, maybe_allow_target_bitset, finish_classified, finish_target_identity_classifier,
}
use dwrt.TargetProbe.Damage.{
  count_victim, count_inflictor, count_teams, record_attacker, record_victim, record_damage_victim,
}

-- As `IsAccounted`, with counters that run ahead: of an attempt to neutralise, an attempt on a bit set,
-- a victim whose inflictor is not counted, a victim whose attacker is not counted, and an attacker whose
-- team is not counted.
pub record IsPending (neutralize bitset inflictor attacker team : ℕ) (s : TargetProbeState)
    : Type 0 where
  pub callers : s.caller.caller_calls ≡ u64 (s.caller.caller_allowed + s.caller.caller_denied)
  pub secondaries :
      s.secondary.secondary_calls
      ≡ u64 (s.secondary.secondary_allowed + s.secondary.secondary_denied)
  pub neutralizations :
      s.neutralize.global_neutralize_attempts
      ≡ u64 (
          neutralize
          + (s.neutralize.global_neutralize_null
              + (s.neutralize.global_neutralize_invalid_team
                  + (s.neutralize.global_neutralize_already
                      + (s.neutralize.global_neutralize_applied
                          + s.neutralize.global_neutralize_write_failures)))))
  pub bitsets :
      s.bitset.bitset_allow_attempts
      ≡ u64 (bitset + (s.bitset.bitset_allow_applied + s.bitset.bitset_allow_failures))
  pub classifiers :
      s.classifier.classifier_spoof_attempts
      ≡ u64 (s.classifier.classifier_spoof_applied + s.classifier.classifier_spoof_skipped)
  pub inflictors :
      s.victim.damage_victim_calls
      ≡ u64 (
          inflictor
          + (s.attacker.damage_inflictor_handle_valid + s.attacker.damage_inflictor_handle_invalid))
  pub attackers :
      s.victim.damage_victim_calls
      ≡ u64 (
          attacker
          + (s.attacker.damage_attacker_handle_valid + s.attacker.damage_attacker_handle_invalid))
  pub teams :
      s.attacker.damage_attacker_handle_valid
      ≡ u64 (
          team
          + (s.attacker.damage_attacker_same_team
              + (s.attacker.damage_attacker_opposing_team + s.attacker.damage_attacker_other_team)))

-- Up to the wrap-around of the counters, the calls of the caller's gate and of the secondary gate are those
-- that were allowed and denied, and these have one outcome each: the attempts to neutralise a team, to set a
-- bit and to change the classifier's bit, a victim's inflictor and attacker, and a valid attacker's team.
abbrev pub IsAccounted : TargetProbeState → Type 0
IsAccounted s = IsPending 0 0 0 0 0 s

finish_neutralize-Accounted :
    (w : ProbeWorld) (o : Option Memory)
    → IsPending 1 0 0 0 0 w.probe
    → IsAccounted (finish_neutralize w o).probe
unfolding finish_neutralize
finish_neutralize-Accounted w none h = ground arith
finish_neutralize-Accounted w (some m) h = ground arith

neutralize_team-Accounted :
    (p : Process) (w : ProbeWorld) (entity : ℕ) (o : Option ℕ)
    → IsPending 1 0 0 0 0 w.probe
    → IsAccounted (neutralize_team p w entity o).probe
unfolding neutralize_team
neutralize_team-Accounted p w entity none h = ground arith
neutralize_team-Accounted p w entity (some t) h = unfold finish_neutralize in ground arith

pub neutralize_entity-Accounted :
    (p : Process) (w : ProbeWorld) (entity : ℕ)
    → IsAccounted w.probe
    → IsAccounted (maybe_global_neutralize_entity p w entity).probe
unfolding maybe_global_neutralize_entity neutralize_team finish_neutralize
neutralize_entity-Accounted p w entity h = ground arith

neutralize_both-Accounted :
    (p : Process) (w : ProbeWorld) (source target : ℕ)
    → IsAccounted w.probe
    → IsAccounted (neutralize_both p w source target).probe
unfolding neutralize_both
neutralize_both-Accounted p w source target h =
    neutralize_entity-Accounted p _ target (neutralize_entity-Accounted p w source h)

enter_filter-Accounted :
    (p : Process) (w : ProbeWorld) (source target : ℕ) (s t : Option ℕ)
    → IsAccounted w.probe
    → IsAccounted (enter_filter p w source target s t).0.probe
unfolding enter_filter spoof_source finish_source_spoof spoof_target finish_target_spoof
enter_filter-Accounted p w source target s t h = ground arith

pub begin_target_filter-Accounted :
    (p : Process) (w : ProbeWorld) (source target : ℕ) (recursive : Bool)
    → IsAccounted w.probe
    → IsAccounted (begin_target_filter p w source target recursive).0.probe
unfolding begin_target_filter
begin_target_filter-Accounted p w source target recursive h = ground (
  arith,
  enter_filter-Accounted p (neutralize_both p w source target) source target
      (safe_read_team p (neutralize_both p w source target).memory source)
      (safe_read_team p (neutralize_both p w source target).memory target)
      (neutralize_both-Accounted p w source target h),
)

pub finish_target_filter-Accounted :
    (p : Process) (w : ProbeWorld) (scope : TargetFilterScope) (result : Bool)
    → IsAccounted w.probe
    → IsAccounted (finish_target_filter p w scope result).0.probe
unfolding finish_target_filter restore_source finish_source_restore restore_target
    finish_target_restore
finish_target_filter-Accounted p w scope result h = ground arith

pub caller-Accounted :
    (p : Process) (w : ProbeWorld) (source target : ℕ) (result : Bool)
    → IsAccounted w.probe
    → IsAccounted (record_target_filter_caller p w source target result).0.probe
unfolding record_target_filter_caller count_caller
caller-Accounted p w source target result h =
    ground (arith, neutralize_both-Accounted p w source target h)

pub secondary-Accounted :
    (p : Process) (w : ProbeWorld) (source attacker target : ℕ) (result : Bool)
    → IsAccounted w.probe
    → IsAccounted (record_secondary_target_gate p w source attacker target result).0.probe
unfolding record_secondary_target_gate count_secondary
secondary-Accounted p w source attacker target result h = ground (
  arith,
  neutralize_entity-Accounted p (neutralize_both p w source attacker) target
      (neutralize_both-Accounted p w source attacker h),
)

pub bitset-Accounted :
    (p : Process) (w : ProbeWorld) (scope : TargetFilterScope) (target bitset classifier : ℕ)
    → IsAccounted w.probe
    → IsAccounted (maybe_allow_target_bitset p w scope target bitset classifier).0.probe
unfolding maybe_allow_target_bitset allow_bit
bitset-Accounted p w scope target bitset classifier h = ground arith

pub classifier-Accounted :
    (p : Process) (w : ProbeWorld) (target out : ℕ)
    → IsAccounted w.probe
    → IsAccounted (finish_target_identity_classifier p w target out).probe
unfolding finish_target_identity_classifier finish_classified
classifier-Accounted p w target out h = ground (arith, neutralize_entity-Accounted p w target h)

record_attacker-Accounted :
    (p : Process) (w : ProbeWorld) (victim team unit_type : ℕ) (objective : Bool) (o : Option ℕ)
    → IsPending 0 0 0 1 0 w.probe
    → IsAccounted (record_attacker p w victim team unit_type objective o).probe
unfolding record_attacker
record_attacker-Accounted p w victim team unit_type objective none h = ground arith
record_attacker-Accounted p w victim team unit_type objective (some a) h =
    unfold count_teams in ground arith

count_inflictor-Pending :
    (s : TargetProbeState) (o : Option ℕ)
    → IsPending 0 0 1 1 0 s
    → IsPending 0 0 0 1 0 (record s { attacker = count_inflictor o s.attacker })
unfolding count_inflictor
count_inflictor-Pending s none h = ground arith
count_inflictor-Pending s (some e) h = ground arith

count_victim-Pending :
    (s : TargetProbeState) (l : LastSeen) (team : Option ℕ) (unit_type : ℕ) (name : List ℕ)
    → IsAccounted s
    → IsPending 0 0 1 1 0
        (record s { last = l; victim = count_victim team unit_type name s.victim })
unfolding count_victim
count_victim-Pending s l team unit_type name h = ground arith

record_victim-Accounted :
    (p : Process) (w : ProbeWorld) (victim info : ℕ)
    → IsAccounted w.probe
    → IsAccounted (record_victim p w victim info).probe
unfolding record_victim
record_victim-Accounted p w victim info h =
    record_attacker-Accounted p _ victim _ _ _ _
      (count_inflictor-Pending _ _ (count_victim-Pending w.probe _ _ _ _ h))

pub damage-Accounted :
    (p : Process) (w : ProbeWorld) (victim info : ℕ) (recursive : Bool)
    → IsAccounted w.probe
    → IsAccounted (record_damage_victim p w victim info recursive).probe
unfolding record_damage_victim
damage-Accounted p w victim info recursive h = ground (
  arith,
  record_victim-Accounted p (maybe_global_neutralize_entity p w victim) victim info
      (neutralize_entity-Accounted p w victim h),
)
