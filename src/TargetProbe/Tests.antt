-- ===== src/TargetProbe/Tests.antt =====
-- Two entities of one team, for native/dwrt-host/dwrt_target_probe.cpp.
use dwrt.Prelude.{
  ℕ, ◌≡◌, refl, true, false, some, List, [], ◌∷◌, arith, memory_of, memory_of-lt, if◌then◌else◌,
  ◌&&◌, ◌==◌,
}
use dwrt.TargetProbe.Counters.{
  ProbeSettings, nothing_seen, no_filters, no_spoofs, no_bitsets, no_classifiers,
  no_neutralizations, no_callers, no_secondaries, no_victims, no_attackers,
}
use dwrt.TargetProbe.State.{TargetProbeState, ProbeWorld, no_spoof_scope}
use dwrt.TargetProbe.Entities.{Process, team_field}
use dwrt.TargetProbe.Neutralize.{maybe_global_neutralize_entity}
use dwrt.TargetProbe.Filter.{begin_target_filter, finish_target_filter, neutralize_both}
use dwrt.TargetProbe.Spoof.{IsBytes}
use dwrt.TargetProbe.Restore.{IsRestored, finish-begin_teams}
use dwrt.TargetProbe.Accounting.{IsAccounted}
use dwrt.TargetProbe.Runs.{begins, gates, damages, run, run_probe-Accounted}
use dwrt.TargetProbe.Writes.{is_neutralized, neutralize-memory, IsClassified, classifier_hook_lem}

-- A process without server.dll whose whole memory can be read and written.
abbrev pub open_process : Process
open_process = record {
  can_read = λ a. true;
  can_write = λ a. true;
  call_unit_type = λ m function entity. some 7;
  call_classifier = λ m function target. some 3;
  server_module = 0;
}

abbrev pub test_settings : ProbeSettings
test_settings = record {
  enabled = 1;
  source_team_spoof_enabled = 1;
  target_team_spoof_enabled = 1;
  target_team_spoof_team = 5;
  target_bitset_allow_enabled = 0;
  force_filter_same_team_allow_enabled = 0;
  force_caller_same_team_allow_enabled = 0;
  force_filter_objective_allow_enabled = 0;
  force_caller_objective_allow_enabled = 0;
  force_secondary_allow_enabled = 1;
  neutral_simulation_enabled = 0;
  classifier_spoof_enabled = 1;
  classifier_spoof_bit = 8;
  global_neutralize_enabled = 0;
  global_neutralize_team = 4;
}

-- The teams of the entities at 1000 and at 4000.
abbrev pub segments : List (ℕ × List ℕ)
segments = (1828, 2 ∷ []) ∷ (4828, 2 ∷ []) ∷ []

abbrev pub test_probe : TargetProbeState
test_probe = record {
  settings = test_settings;
  last = nothing_seen;
  filter = no_filters;
  source_spoof = no_spoofs;
  target_spoof = no_spoofs;
  bitset = no_bitsets;
  classifier = no_classifiers;
  neutralize = no_neutralizations;
  caller = no_callers;
  secondary = no_secondaries;
  victim = no_victims;
  attacker = no_attackers;
}

abbrev pub two_entities : ProbeWorld
two_entities = record {
  probe = test_probe;
  spoof_scope = no_spoof_scope;
  memory = memory_of segments;
}

pub two_entities-IsBytes : IsBytes two_entities.memory
two_entities-IsBytes a = memory_of-lt segments a (omega arith)

finish-begin_teams_example :
    IsRestored
      (neutralize_both open_process two_entities 1000 4000).memory
      (begin_target_filter open_process two_entities 1000 4000 false).0.memory
      (finish_target_filter open_process
        (begin_target_filter open_process two_entities 1000 4000 false).0
        (begin_target_filter open_process two_entities 1000 4000 false).1
        false).0.memory
      1000
      4000
finish-begin_teams_example =
    finish-begin_teams open_process two_entities
      (begin_target_filter open_process two_entities 1000 4000 false).0 1000 4000 false
      two_entities-IsBytes refl refl

pub test_probe-Accounted : IsAccounted test_probe
test_probe-Accounted = record {
  callers = refl;
  secondaries = refl;
  neutralizations = refl;
  bitsets = refl;
  classifiers = refl;
  inflictors = refl;
  attackers = refl;
  teams = refl;
}

run_probe-Accounted_example :
    IsAccounted
      (run open_process two_entities
        (begins 1000 4000 false ∷ gates 1000 4000 4000 false ∷ damages 1000 0 false ∷ [])).probe
run_probe-Accounted_example =
    run_probe-Accounted open_process two_entities
      (begins 1000 4000 false ∷ gates 1000 4000 4000 false ∷ damages 1000 0 false ∷ [])
      test_probe-Accounted

abbrev neutralizing : ProbeWorld
neutralizing = record two_entities {
  probe = record test_probe { settings = record test_settings { global_neutralize_enabled = 1 } };
}

neutralize-memory_example :
    (maybe_global_neutralize_entity open_process neutralizing 1000).memory 1828 ≡ (
      if is_neutralized open_process neutralizing 1000 && 1828 == team_field 1000
      then neutralizing.probe.settings.global_neutralize_team
      else neutralizing.memory 1828)
neutralize-memory_example = neutralize-memory open_process neutralizing 1000 1828

abbrev spoofing : ProbeWorld
spoofing = record two_entities { spoof_scope = record { target = 4000; bit = 8; active = true } }

classifier_hook_lem_example : IsClassified open_process spoofing 4000 9000
classifier_hook_lem_example =
    classifier_hook_lem open_process spoofing 4000 9000 (omega arith) (omega arith)
