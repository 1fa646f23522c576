-- ===== src/TargetProbe/Classifier.antt =====
-- The bit set of allowed targets and the classifier in native/dwrt-host/dwrt_target_probe.cpp.
use Prim.Native.Nat.{bit_or}
use dwrt.Prelude.{
  ℕ, ◌+◌, ◌*◌, ◌/◌, ◌%◌, ◌^◌, Bool, true, false, not, ◌&&◌, ◌||◌, Option, none, some, leb, ltb,
  ◌==◌, if◌then◌else◌, inc, Memory, load_le, store_byte,
}
use dwrt.TargetProbe.Counters.{BitsetCounters, ClassifierCounters, invalid_unit_type}
use dwrt.TargetProbe.State.{no_spoof_scope, ProbeWorld, on_bitset, on_classifier}
use dwrt.TargetProbe.Settings.{target_bitset_allow_enabled}
use dwrt.TargetProbe.Entities.{Process}
use dwrt.TargetProbe.Neutralize.{maybe_global_neutralize_entity}
use dwrt.TargetProbe.Filter.{TargetFilterScope, inc_if}

-- A store of 32 bits, the lowest byte first.
abbrev pub store_u32 : Memory → ℕ → ℕ → Memory
store_u32 m a v =
    store_byte (store_byte (store_byte (store_byte m a v) (a + 1) (v / 256)) (a + 2) (v / 65536))
      (a + 3) (v / 16777216)

-- The address of a bit's word.
abbrev pub word_of : ℕ → ℕ → ℕ
word_of bitset bit_index = bitset + bit_index / 32 * 4

-- `words[bit_index >> 5] |= 1U << (bit_index & 0x1fU)`
unfoldable pub set_bit : Memory → (bitset bit_index : ℕ) → Memory
set_bit m bitset bit_index =
    store_u32 m (word_of bitset bit_index)
      (bit_or (load_le m (word_of bitset bit_index) 4) (2 ^ (bit_index % 32)))

abbrev count_attempt : BitsetCounters → BitsetCounters
count_attempt c = record c { bitset_allow_attempts = inc c.bitset_allow_attempts }

abbrev count_failure : BitsetCounters → BitsetCounters
count_failure c = record c { bitset_allow_failures = inc c.bitset_allow_failures }

abbrev count_applied : BitsetCounters → BitsetCounters
count_applied c = record c { bitset_allow_applied = inc c.bitset_allow_applied }

-- With the bit that the classifier tells, if it does not fault.
unfoldable pub allow_bit : Process → ProbeWorld → (bitset : ℕ) → Option ℕ → ProbeWorld × Bool
allow_bit p w bitset none = (on_bitset count_failure w, false)
allow_bit p w bitset (some bit_index) =
    if bit_index == invalid_unit_type || leb 0x40000 bit_index
    then (on_bitset count_failure w, false)
    else if p.can_read (word_of bitset bit_index) && p.can_write (word_of bitset bit_index)
    then (record (on_bitset count_applied w) { memory = set_bit w.memory bitset bit_index }, true)
    else (on_bitset count_failure w, false)

-- Neither the same team nor an objective.
abbrev pub is_unconcerned : TargetFilterScope → Bool
is_unconcerned scope = scope.same_team == 0 && scope.target_objective == 0

unfoldable pub maybe_allow_target_bitset :
    Process → ProbeWorld → TargetFilterScope → (target bitset classifier : ℕ) → ProbeWorld × Bool
maybe_allow_target_bitset p w scope target bitset classifier =
    let attempted = on_bitset count_attempt w in
    if w.probe.settings.enabled == 0
      || (not (target_bitset_allow_enabled w.probe.settings) || is_unconcerned scope)
    then (w, false)
    else if target == 0 || (bitset == 0 || classifier == 0)
    then (on_bitset count_failure attempted, false)
    else allow_bit p attempted bitset (p.call_classifier w.memory classifier target)

-- The three early returns of `begin_target_classifier_spoof_scope`.
unfoldable pub is_spoof_scope_off : ProbeWorld → TargetFilterScope → Bool
is_spoof_scope_off w scope =
    (w.probe.settings.enabled == 0 || w.probe.settings.classifier_spoof_enabled == 0)
    || ((scope.target == 0 || is_unconcerned scope) || ltb 31 w.probe.settings.classifier_spoof_bit)

unfoldable pub begin_target_classifier_spoof_scope : ProbeWorld → TargetFilterScope → ProbeWorld
begin_target_classifier_spoof_scope w scope =
    if is_spoof_scope_off w scope then record w { spoof_scope = no_spoof_scope } else record w {
      spoof_scope = record {
        target = scope.target;
        bit = w.probe.settings.classifier_spoof_bit;
        active = true;
      };
    }

unfoldable pub end_target_classifier_spoof_scope : ProbeWorld → ProbeWorld
end_target_classifier_spoof_scope w = record w { spoof_scope = no_spoof_scope }

abbrev pub count_call : ClassifierCounters → ClassifierCounters
count_call c = record c { classifier_calls = inc c.classifier_calls }

abbrev count_invalid : Bool → ClassifierCounters → ClassifierCounters
count_invalid invalid c = record c { classifier_invalid = inc_if invalid c.classifier_invalid }

abbrev count_spoof_applied : ClassifierCounters → ClassifierCounters
count_spoof_applied c = record c {
  classifier_spoof_attempts = inc c.classifier_spoof_attempts;
  classifier_spoof_applied = inc c.classifier_spoof_applied;
}

abbrev count_spoof_skipped : ClassifierCounters → ClassifierCounters
count_spoof_skipped c = record c {
  classifier_spoof_attempts = inc c.classifier_spoof_attempts;
  classifier_spoof_skipped = inc c.classifier_spoof_skipped;
}

abbrev see_bits : (original_bit final_bit : ℕ) → ClassifierCounters → ClassifierCounters
see_bits original_bit final_bit c = record c {
  last_classifier_original_bit = original_bit;
  last_classifier_final_bit = final_bit;
}

-- The scope is active and about this target.
unfoldable pub is_spoofed_target : ProbeWorld → ℕ → Bool
is_spoofed_target w target = w.spoof_scope.active && target == w.spoof_scope.target

-- With the bit that stands at `out`.
unfoldable pub finish_classified : Process → ProbeWorld → (target out original_bit : ℕ) → ProbeWorld
finish_classified p w target out original_bit =
    let v = on_classifier (count_invalid (original_bit == invalid_unit_type)) w in
    let spoof_bit = w.spoof_scope.bit in
    if is_spoofed_target w target
    then (if leb spoof_bit 31 && p.can_write out
        then record (on_classifier (see_bits original_bit spoof_bit)
            (on_classifier count_spoof_applied v)) { memory = store_u32 w.memory out spoof_bit }
        else on_classifier (see_bits original_bit original_bit)
            (on_classifier count_spoof_skipped v))
    else on_classifier (see_bits original_bit original_bit) v

unfoldable pub finish_target_identity_classifier :
    Process → ProbeWorld → (target out : ℕ) → ProbeWorld
finish_target_identity_classifier p w target out =
    let v = on_classifier count_call (maybe_global_neutralize_entity p w target) in
    if w.probe.settings.enabled == 0
    then w
    else if out == 0
    then on_classifier (count_invalid true) v
    else finish_classified p v target out (load_le v.memory out 4)
