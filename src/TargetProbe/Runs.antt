-- ===== src/TargetProbe/Runs.antt =====
-- native/dwrt-host/dwrt_target_probe.cpp: what holds after any calls of the probe, in any order.
use dwrt.Prelude.{ℕ, Bool, List, [], ◌∷◌, arith, Memory}
use dwrt.Environment.{GetVariable}
use dwrt.TargetProbe.State.{ProbeWorld, reset_target_probe_counters}
use dwrt.TargetProbe.Settings.{configure_target_probe_from_environment}
use dwrt.TargetProbe.Entities.{Process}
use dwrt.TargetProbe.Filter.{TargetFilterScope, begin_target_filter, finish_target_filter}
use dwrt.TargetProbe.Gates.{record_target_filter_caller, record_secondary_target_gate}
use dwrt.TargetProbe.Classifier.{
  maybe_allow_target_bitset, begin_target_classifier_spoof_scope, end_target_classifier_spoof_scope,
  finish_target_identity_classifier,
}
use dwrt.TargetProbe.Damage.{record_damage_victim}
use dwrt.TargetProbe.Accounting.{
  IsAccounted, begin_target_filter-Accounted, finish_target_filter-Accounted, caller-Accounted,
  secondary-Accounted, bitset-Accounted, classifier-Accounted, damage-Accounted,
}

-- One call of the component, or what the game does to the memory between two of them.
pub data Call : Type 0 where
  begins : (source target : ℕ) → Bool → Call
  finishes : TargetFilterScope → Bool → Call
  calls : (source target : ℕ) → Bool → Call
  gates : (source maybe_attacker maybe_target : ℕ) → Bool → Call
  allows : TargetFilterScope → (target bitset classifier : ℕ) → Call
  opens : TargetFilterScope → Call
  closes : Call
  classifies : (target out : ℕ) → Call
  damages : (victim info : ℕ) → Bool → Call
  resets : Call
  configures : GetVariable → Call
  plays : (Memory → Memory) → Call

unfoldable pub step : Process → ProbeWorld → Call → ProbeWorld
step p w (begins source target recursive) = (begin_target_filter p w source target recursive).0
step p w (finishes scope result) = (finish_target_filter p w scope result).0
step p w (calls source target result) = (record_target_filter_caller p w source target result).0
step p w (gates source attacker target result) =
    (record_secondary_target_gate p w source attacker target result).0
step p w (allows scope target bitset classifier) =
    (maybe_allow_target_bitset p w scope target bitset classifier).0
step p w (opens scope) = begin_target_classifier_spoof_scope w scope
step p w closes = end_target_classifier_spoof_scope w
step p w (classifies target out) = finish_target_identity_classifier p w target out
step p w (damages victim info recursive) = record_damage_victim p w victim info recursive
step p w resets = record w { probe = reset_target_probe_counters w.probe }
step p w (configures get) = record w { probe = configure_target_probe_from_environment get w.probe }
step p w (plays f) = record w { memory = f w.memory }

unfoldable pub run : Process → ProbeWorld → List Call → ProbeWorld
run p w [] = w
run p w (c ∷ cs) = run p (step p w c) cs

step-Accounted :
    (p : Process) (w : ProbeWorld) (c : Call) → IsAccounted w.probe → IsAccounted (step p w c).probe
unfolding step
step-Accounted p w (begins source target recursive) h =
    begin_target_filter-Accounted p w source target recursive h
step-Accounted p w (finishes scope result) h = finish_target_filter-Accounted p w scope result h
step-Accounted p w (calls source target result) h = caller-Accounted p w source target result h
step-Accounted p w (gates source attacker target result) h =
    secondary-Accounted p w source attacker target result h
step-Accounted p w (allows scope target bitset classifier) h =
    bitset-Accounted p w scope target bitset classifier h
step-Accounted p w (opens scope) h = unfold begin_target_classifier_spoof_scope in ground arith
step-Accounted p w closes h = unfold end_target_classifier_spoof_scope in ground arith
step-Accounted p w (classifies target out) h = classifier-Accounted p w target out h
step-Accounted p w (damages victim info recursive) h = damage-Accounted p w victim info recursive h
step-Accounted p w resets h = unfold reset_target_probe_counters in ground arith
step-Accounted p w (configures get) h =
    unfold configure_target_probe_from_environment in ground arith
step-Accounted p w (plays f) h = h

-- Any calls of the probe in any order, with any writes of the game to the memory between them, keep these
-- counters accounted for, up to their wrap-around: the calls of the caller's gate and of the secondary gate
-- are those that were allowed and denied; each attempt to neutralise a team is counted once by its outcome,
-- and so is each attempt to set a bit of a bit set and to change the classifier's bit; each victim's
-- inflictor and attacker is counted as valid or invalid, and each valid attacker as one of the same team, of
-- the opposing team or of another.
pub run_probe-Accounted :
    (p : Process) (w : ProbeWorld) (cs : List Call)
    → IsAccounted w.probe
    → IsAccounted (run p w cs).probe
unfolding run
run_probe-Accounted p w [] h = h
run_probe-Accounted p w (c ∷ cs) h = run_probe-Accounted p (step p w c) cs (step-Accounted p w c h)
