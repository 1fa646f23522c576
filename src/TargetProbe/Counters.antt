-- ===== src/TargetProbe/Counters.antt =====
-- The members of TargetProbeState in native/dwrt-host/dwrt_target_probe.cpp. They are grouped by what they count; the names of the fields are those of the source, but that
-- `source_spoof_attempts` is `source_spoof.attempts`, and an array with its overflow is a Histogram.
use dwrt.Prelude.{ℕ, zero, suc, List, [], ◌∷◌, ltb, if◌then◌else◌, length, get_or, set, inc}

abbrev pub invalid_team : ℕ
invalid_team = 0xffffffff

abbrev pub invalid_unit_type : ℕ
invalid_unit_type = 0xffffffff

abbrev pub invalid_handle : ℕ
invalid_handle = 0xffffffff

-- An array of counters, with the counter of what lies outside it.
pub record Histogram : Type 0 where
  pub counts : List ℕ
  pub overflow : ℕ

unfoldable pub zeros : ℕ → List ℕ
zeros zero = []
zeros (suc n) = 0 ∷ zeros n

abbrev pub cleared : ℕ → Histogram
cleared n = record { counts = zeros n; overflow = 0 }

-- `if (i < counts.size()) counts[i] += 1; else overflow += 1;`
unfoldable pub record_in : ℕ → Histogram → Histogram
record_in i h =
    if ltb i (length h.counts)
    then record h { counts = set h.counts i (inc (get_or h.counts i 0)) }
    else record h { overflow = inc h.overflow }

-- What the environment configures.
pub record ProbeSettings : Type 0 where
  pub enabled : ℕ
  pub source_team_spoof_enabled : ℕ
  pub target_team_spoof_enabled : ℕ
  pub target_team_spoof_team : ℕ
  pub target_bitset_allow_enabled : ℕ
  pub force_filter_same_team_allow_enabled : ℕ
  pub force_caller_same_team_allow_enabled : ℕ
  pub force_filter_objective_allow_enabled : ℕ
  pub force_caller_objective_allow_enabled : ℕ
  pub force_secondary_allow_enabled : ℕ
  pub neutral_simulation_enabled : ℕ
  pub classifier_spoof_enabled : ℕ
  pub classifier_spoof_bit : ℕ
  pub global_neutralize_enabled : ℕ
  pub global_neutralize_team : ℕ

-- The last values that were seen.
pub record LastSeen : Type 0 where
  pub last_source_team : ℕ
  pub last_target_team : ℕ
  pub last_target_unit_type : ℕ
  pub last_filter_result : ℕ
  pub last_damage_victim_team : ℕ
  pub last_damage_victim_unit_type : ℕ
  pub last_damage_attacker_handle : ℕ
  pub last_damage_inflictor_handle : ℕ
  pub last_damage_attacker_team : ℕ
  pub last_damage_attacker_unit_type : ℕ

pub record FilterCounters : Type 0 where
  pub filter_calls : ℕ
  pub filter_allowed : ℕ
  pub filter_denied : ℕ
  pub filter_same_team_calls : ℕ
  pub filter_same_team_allowed : ℕ
  pub filter_same_team_denied : ℕ
  pub filter_objective_target_calls : ℕ
  pub filter_objective_target_allowed : ℕ
  pub filter_objective_target_denied : ℕ
  pub filter_neutral_target_calls : ℕ
  pub filter_midboss_target_calls : ℕ
  pub filter_invalid_source_team : ℕ
  pub filter_invalid_target_team : ℕ
  pub filter_forced_allowed : ℕ
  pub filter_unit_types : Histogram

-- The counters of the change of one team.
pub record SpoofCounters : Type 0 where
  pub attempts : ℕ
  pub applied : ℕ
  pub restored : ℕ
  pub allowed : ℕ
  pub denied : ℕ

pub record BitsetCounters : Type 0 where
  pub bitset_allow_attempts : ℕ
  pub bitset_allow_applied : ℕ
  pub bitset_allow_failures : ℕ

pub record ClassifierCounters : Type 0 where
  pub classifier_calls : ℕ
  pub classifier_invalid : ℕ
  pub classifier_spoof_attempts : ℕ
  pub classifier_spoof_applied : ℕ
  pub classifier_spoof_skipped : ℕ
  pub last_classifier_original_bit : ℕ
  pub last_classifier_final_bit : ℕ

pub record NeutralizeCounters : Type 0 where
  pub global_neutralize_attempts : ℕ
  pub global_neutralize_applied : ℕ
  pub global_neutralize_already : ℕ
  pub global_neutralize_null : ℕ
  pub global_neutralize_invalid_team : ℕ
  pub global_neutralize_write_failures : ℕ
  pub global_neutralize_original_teams : Histogram

pub record CallerCounters : Type 0 where
  pub caller_calls : ℕ
  pub caller_allowed : ℕ
  pub caller_denied : ℕ
  pub caller_forced_allowed : ℕ
  pub caller_unit_0x1a_bypass_candidates : ℕ

pub record SecondaryCounters : Type 0 where
  pub secondary_calls : ℕ
  pub secondary_allowed : ℕ
  pub secondary_denied : ℕ
  pub secondary_forced_allowed : ℕ

pub record VictimCounters : Type 0 where
  pub damage_victim_calls : ℕ
  pub damage_victim_objective : ℕ
  pub damage_victim_neutral : ℕ
  pub damage_victim_midboss : ℕ
  pub damage_victim_invalid_team : ℕ
  pub damage_victim_unit_types : Histogram

pub record AttackerCounters : Type 0 where
  pub damage_attacker_handle_valid : ℕ
  pub damage_attacker_handle_invalid : ℕ
  pub damage_inflictor_handle_valid : ℕ
  pub damage_inflictor_handle_invalid : ℕ
  pub damage_attacker_same_team : ℕ
  pub damage_attacker_opposing_team : ℕ
  pub damage_attacker_other_team : ℕ
  pub damage_attacker_self : ℕ
  pub damage_attacker_same_team_objective : ℕ
  pub damage_attacker_unit_types : Histogram
  pub damage_same_team_victim_unit_types : Histogram

abbrev pub nothing_seen : LastSeen
nothing_seen = record {
  last_source_team = invalid_team;
  last_target_team = invalid_team;
  last_target_unit_type = invalid_unit_type;
  last_filter_result = 0;
  last_damage_victim_team = invalid_team;
  last_damage_victim_unit_type = invalid_unit_type;
  last_damage_attacker_handle = invalid_handle;
  last_damage_inflictor_handle = invalid_handle;
  last_damage_attacker_team = invalid_team;
  last_damage_attacker_unit_type = invalid_unit_type;
}

abbrev pub no_filters : FilterCounters
no_filters = record {
  filter_calls = 0;
  filter_allowed = 0;
  filter_denied = 0;
  filter_same_team_calls = 0;
  filter_same_team_allowed = 0;
  filter_same_team_denied = 0;
  filter_objective_target_calls = 0;
  filter_objective_target_allowed = 0;
  filter_objective_target_denied = 0;
  filter_neutral_target_calls = 0;
  filter_midboss_target_calls = 0;
  filter_invalid_source_team = 0;
  filter_invalid_target_team = 0;
  filter_forced_allowed = 0;
  filter_unit_types = cleared 32;
}

abbrev pub no_spoofs : SpoofCounters
no_spoofs = record { attempts = 0; applied = 0; restored = 0; allowed = 0; denied = 0 }

abbrev pub no_bitsets : BitsetCounters
no_bitsets = record {
  bitset_allow_attempts = 0;
  bitset_allow_applied = 0;
  bitset_allow_failures = 0;
}

abbrev pub no_classifiers : ClassifierCounters
no_classifiers = record {
  classifier_calls = 0;
  classifier_invalid = 0;
  classifier_spoof_attempts = 0;
  classifier_spoof_applied = 0;
  classifier_spoof_skipped = 0;
  last_classifier_original_bit = invalid_unit_type;
  last_classifier_final_bit = invalid_unit_type;
}

abbrev pub no_neutralizations : NeutralizeCounters
no_neutralizations = record {
  global_neutralize_attempts = 0;
  global_neutralize_applied = 0;
  global_neutralize_already = 0;
  global_neutralize_null = 0;
  global_neutralize_invalid_team = 0;
  global_neutralize_write_failures = 0;
  global_neutralize_original_teams = cleared 8;
}

abbrev pub no_callers : CallerCounters
no_callers = record {
  caller_calls = 0;
  caller_allowed = 0;
  caller_denied = 0;
  caller_forced_allowed = 0;
  caller_unit_0x1a_bypass_candidates = 0;
}

abbrev pub no_secondaries : SecondaryCounters
no_secondaries = record {
  secondary_calls = 0;
  secondary_allowed = 0;
  secondary_denied = 0;
  secondary_forced_allowed = 0;
}

abbrev pub no_victims : VictimCounters
no_victims = record {
  damage_victim_calls = 0;
  damage_victim_objective = 0;
  damage_victim_neutral = 0;
  damage_victim_midboss = 0;
  damage_victim_invalid_team = 0;
  damage_victim_unit_types = cleared 64;
}

abbrev pub no_attackers : AttackerCounters
no_attackers = record {
  damage_attacker_handle_valid = 0;
  damage_attacker_handle_invalid = 0;
  damage_inflictor_handle_valid = 0;
  damage_inflictor_handle_invalid = 0;
  damage_attacker_same_team = 0;
  damage_attacker_opposing_team = 0;
  damage_attacker_other_team = 0;
  damage_attacker_self = 0;
  damage_attacker_same_team_objective = 0;
  damage_attacker_unit_types = cleared 64;
  damage_same_team_victim_unit_types = cleared 64;
}
