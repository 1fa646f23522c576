-- ===== src/TargetProbe/State.antt =====
-- TargetProbeState of native/dwrt-host/dwrt_target_probe.cpp and what its functions share.
use dwrt.Prelude.{ℕ, Bool, false, Memory}
use dwrt.TargetProbe.Counters.{
  ProbeSettings, LastSeen, FilterCounters, SpoofCounters, BitsetCounters, ClassifierCounters,
  NeutralizeCounters, CallerCounters, SecondaryCounters, VictimCounters, AttackerCounters,
  nothing_seen, no_filters, no_spoofs, no_bitsets, no_classifiers, no_neutralizations, no_callers,
  no_secondaries, no_victims, no_attackers, invalid_unit_type,
}

pub record TargetProbeState : Type 0 where
  pub settings : ProbeSettings
  pub last : LastSeen
  pub filter : FilterCounters
  pub source_spoof : SpoofCounters
  pub target_spoof : SpoofCounters
  pub bitset : BitsetCounters
  pub classifier : ClassifierCounters
  pub neutralize : NeutralizeCounters
  pub caller : CallerCounters
  pub secondary : SecondaryCounters
  pub victim : VictimCounters
  pub attacker : AttackerCounters

-- The stores go over every counter and every array; the settings stay.
unfoldable pub reset_target_probe_counters : TargetProbeState → TargetProbeState
reset_target_probe_counters s = record {
  settings = s.settings;
  last = nothing_seen;
  filter = no_filters;
  source_spoof = no_spoofs;
  target_spoof = no_spoofs;
  bitset = no_bitsets;
  classifier = no_classifiers;
  neutralize = no_neutralizations;
  caller = no_callers;
  secondary = no_secondaries;
  victim = no_victims;
  attacker = no_attackers;
}

-- `ClassifierSpoofScope`
pub record ClassifierSpoofScope : Type 0 where
  pub target : ℕ
  pub bit : ℕ
  pub active : Bool

abbrev pub no_spoof_scope : ClassifierSpoofScope
no_spoof_scope = record { target = 0; bit = invalid_unit_type; active = false }

-- What the functions read and write: the globals of the file and the memory of the process.
pub record ProbeWorld : Type 0 where
  pub probe : TargetProbeState
  pub spoof_scope : ClassifierSpoofScope
  pub memory : Memory

abbrev pub on_last : (LastSeen → LastSeen) → ProbeWorld → ProbeWorld
on_last f w = record w { probe = record w.probe { last = f w.probe.last } }

abbrev pub on_filter : (FilterCounters → FilterCounters) → ProbeWorld → ProbeWorld
on_filter f w = record w { probe = record w.probe { filter = f w.probe.filter } }

abbrev pub on_source_spoof : (SpoofCounters → SpoofCounters) → ProbeWorld → ProbeWorld
on_source_spoof f w = record w { probe = record w.probe { source_spoof = f w.probe.source_spoof } }

abbrev pub on_target_spoof : (SpoofCounters → SpoofCounters) → ProbeWorld → ProbeWorld
on_target_spoof f w = record w { probe = record w.probe { target_spoof = f w.probe.target_spoof } }

abbrev pub on_bitset : (BitsetCounters → BitsetCounters) → ProbeWorld → ProbeWorld
on_bitset f w = record w { probe = record w.probe { bitset = f w.probe.bitset } }

abbrev pub on_classifier : (ClassifierCounters → ClassifierCounters) → ProbeWorld → ProbeWorld
on_classifier f w = record w { probe = record w.probe { classifier = f w.probe.classifier } }

abbrev pub on_neutralize : (NeutralizeCounters → NeutralizeCounters) → ProbeWorld → ProbeWorld
on_neutralize f w = record w { probe = record w.probe { neutralize = f w.probe.neutralize } }

abbrev pub on_caller : (CallerCounters → CallerCounters) → ProbeWorld → ProbeWorld
on_caller f w = record w { probe = record w.probe { caller = f w.probe.caller } }

abbrev pub on_secondary : (SecondaryCounters → SecondaryCounters) → ProbeWorld → ProbeWorld
on_secondary f w = record w { probe = record w.probe { secondary = f w.probe.secondary } }

abbrev pub on_victim : (VictimCounters → VictimCounters) → ProbeWorld → ProbeWorld
on_victim f w = record w { probe = record w.probe { victim = f w.probe.victim } }

abbrev pub on_attacker : (AttackerCounters → AttackerCounters) → ProbeWorld → ProbeWorld
on_attacker f w = record w { probe = record w.probe { attacker = f w.probe.attacker } }
