-- ===== src/TargetProbe/Writes.antt =====
-- native/dwrt-host/dwrt_target_probe.cpp: which bytes the neutralisation and the classifier change.
use dwrt.Prelude.{
  ℕ, ◌+◌, ◌≡◌, ◌≢◌, ◌<◌, ◌≤◌, ◌⊎◌, refl, Bool, not, ◌&&◌, leb, ◌==◌, if◌then◌else◌, arith, Memory,
  load_le,
}
use dwrt.TargetProbe.State.{on_classifier, ProbeWorld}
use dwrt.TargetProbe.Entities.{Process, team_field, safe_read_team, safe_write_team}
use dwrt.TargetProbe.Neutralize.{
  finish_neutralize, neutralize_team, is_neutralize_off, maybe_global_neutralize_entity,
}
use dwrt.TargetProbe.Classifier.{
  count_call, finish_classified, finish_target_identity_classifier, is_spoofed_target, store_u32,
}

-- When an entity is neutralised: the settings ask for it and the neutral team is a byte, the entity is
-- not null, and its team can be read and written.
abbrev pub is_neutralized : Process → ProbeWorld → ℕ → Bool
is_neutralized p w entity =
    not (is_neutralize_off w)
    && (leb w.probe.settings.global_neutralize_team 0xff
        && (not (entity == 0)
            && (p.can_read (team_field entity) && p.can_write (team_field entity))))

-- The neutralisation of an entity writes the neutral team to its team byte where the settings ask for it,
-- the neutral team is a byte, the entity is not null and the byte can be read and written, and changes
-- no other byte; in every other case it changes no memory at all.
pub neutralize-memory :
    (p : Process) (w : ProbeWorld) (entity a : ℕ)
    → (maybe_global_neutralize_entity p w entity).memory a ≡ (
        if is_neutralized p w entity && a == team_field entity
        then w.probe.settings.global_neutralize_team
        else w.memory a)
unfolding maybe_global_neutralize_entity neutralize_team finish_neutralize safe_read_team
    safe_write_team is_neutralize_off
neutralize-memory p w entity a = ground arith

store_u32-load : (m : Memory) (a v : ℕ) → v ≤ 31 → load_le (store_u32 m a v) a 4 ≡ v
unfolding load_le
store_u32-load m a v small = ground arith

finish_classified-bit :
    (p : Process) (w : ProbeWorld) (target out bit : ℕ)
    → bit ≡ load_le w.memory out 4
    → let v = finish_classified p w target out bit in
      let spoofs = is_spoofed_target w target && (leb w.spoof_scope.bit 31 && p.can_write out) in
      (load_le v.memory out 4 ≡ (if spoofs then w.spoof_scope.bit else bit))
      × (v.probe.classifier.last_classifier_final_bit ≡ load_le v.memory out 4)
unfolding finish_classified
finish_classified-bit p w target out bit e =
    ground (arith, store_u32-load w.memory out w.spoof_scope.bit)

neutralize-scope :
    (p : Process) (w : ProbeWorld) (entity : ℕ)
    → (maybe_global_neutralize_entity p w entity).spoof_scope ≡ w.spoof_scope
unfolding maybe_global_neutralize_entity neutralize_team finish_neutralize
neutralize-scope p w entity = ground arith

finish_classified-elsewhere :
    (p : Process) (w : ProbeWorld) (target out bit a : ℕ)
    → a < out ⊎ out + 4 ≤ a
    → (finish_classified p w target out bit).memory a ≡ w.memory a
unfolding finish_classified
finish_classified-elsewhere p w target out bit a h = ground arith

-- What the classifier's hook leaves at `out`, and what it reports of it.
pub record IsClassified (p : Process) (w : ProbeWorld) (target out : ℕ) : Type 0 where
  pub bit : load_le (finish_target_identity_classifier p w target out).memory out 4 ≡ (
      if is_spoofed_target w target && (leb w.spoof_scope.bit 31 && p.can_write out)
      then w.spoof_scope.bit
      else load_le (maybe_global_neutralize_entity p w target).memory out 4)
  pub reported :
      (finish_target_identity_classifier p w target out).probe.classifier.last_classifier_final_bit
      ≡ load_le (finish_target_identity_classifier p w target out).memory out 4
  pub elsewhere :
      (a : ℕ)
      → a < out ⊎ out + 4 ≤ a
      → (finish_target_identity_classifier p w target out).memory a
        ≡ (maybe_global_neutralize_entity p w target).memory a

-- With the probe enabled and a result to write to, the hook of the classifier leaves the bit of the open
-- scope there where the scope is about this target, its bit is at most 31 and the result can be written;
-- otherwise it leaves the game's bit. The bit that it reports as the final one is the bit that stands
-- there, and beside the four bytes of the result it changes nothing but what the neutralisation changes.
pub classifier_hook_lem :
    (p : Process) (w : ProbeWorld) (target out : ℕ)
    → w.probe.settings.enabled ≢ 0
    → out ≢ 0
    → IsClassified p w target out
unfolding finish_target_identity_classifier is_spoofed_target
classifier_hook_lem p w target out on some_out =
    let v = on_classifier count_call (maybe_global_neutralize_entity p w target) in
    let b = finish_classified-bit p v target out (load_le v.memory out 4) refl in
    let s = neutralize-scope p w target in
    record {
      bit = ground (arith, b, s);
      reported = ground (arith, b, s);
      elsewhere = λ a far.
          ground (arith, finish_classified-elsewhere p v target out (load_le v.memory out 4) a far);
    }
