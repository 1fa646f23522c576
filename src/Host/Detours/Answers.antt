-- ===== src/Host/Detours/Answers.antt =====
-- native/dwrt-host/dwrt_host.cpp: the other detours keep what the counters account for.
use dwrt.Prelude.{ℕ, refl, Bool, true, false, arith}
use dwrt.Walker.Floats.{FloatApi}
use dwrt.Shim.Loader.{RuntimeApi}
use dwrt.TargetProbe.State.{ProbeWorld}
use dwrt.TargetProbe.Entities.{Process}
use dwrt.TargetProbe.Gates.{record_target_filter_caller, record_secondary_target_gate}
use dwrt.TargetProbe.Filter.{TargetFilterScope, begin_target_filter, finish_target_filter}
use dwrt.TargetProbe.Classifier.{
  maybe_allow_target_bitset, finish_target_identity_classifier, begin_target_classifier_spoof_scope,
  end_target_classifier_spoof_scope,
}
use dwrt.TargetProbe.Accounting.{
  IsAccounted as IsProbeAccounted, begin_target_filter-Accounted, finish_target_filter-Accounted,
  caller-Accounted, secondary-Accounted, bitset-Accounted, classifier-Accounted,
}
use dwrt.TargetProbe.Open.{
  begin_target_filter-Open, finish_target_filter-Open, caller-Open, secondary-Open, bitset-Open,
  opened-Open, classifier-Open,
}
use dwrt.Host.Detours.{
  is_recursive, DetourWorld, call_original, call_original_test, record_input, detour_accept_input,
  record_output, detour_fire_output_internal, finish_filter, filter_in_scope,
  detour_target_friendly_fire_filter, finish_caller, detour_target_friendly_fire_caller,
  finish_gate, detour_target_secondary_friendly_fire_gate, detour_target_identity_classifier, enter,
}
use dwrt.Host.Detours.Events.{
  Scopes, in_filter, IsProbeSettled, AreAccounted, Keeps, record_input-Keeps, record_output-Keeps,
  probe-Keeps, enter-Keeps, leave-Keeps, call-Keeps, call_test-Keeps,
}
use dwrt.Host.Detours.Nested.{original_of, test_of}

module _ (fl : FloatApi) (api : RuntimeApi) where
  pub input-Keeps :
      (p : Process) (present result : Bool) (f : DetourWorld fl api → DetourWorld fl api)
      (event self activator caller : ℕ)
      → Keeps fl api f
      → Keeps fl api (λ w.
        (detour_accept_input fl api p
          (test_of fl api present result f)
          event
          self
          activator
          caller
          w).0)
  unfolding detour_accept_input
  input-Keeps p present result f event self activator caller h o w a =
      let recorded =
        record_input fl api p event self activator caller (is_recursive fl api 2 w)
          (enter fl api 2 w) in
      leave-Keeps fl api o
        (call_original_test fl api (test_of fl api present result f) false recorded).0
        (call_test-Keeps fl api present result false f h o recorded (
          record_input-Keeps fl api p event self activator caller (is_recursive fl api 2 w) o
            (enter fl api 2 w) (enter-Keeps fl api 2 o w a)))

  pub output-Keeps :
      (p : Process) (present : Bool) (f : DetourWorld fl api → DetourWorld fl api)
      (event self activator caller : ℕ)
      → Keeps fl api f
      → Keeps fl api (
          detour_fire_output_internal fl api p
            (original_of fl api present f)
            event
            self
            activator
            caller)
  unfolding detour_fire_output_internal
  output-Keeps p present f event self activator caller h o w a =
      let recorded =
        record_output fl api p event self activator caller (is_recursive fl api 3 w)
          (enter fl api 3 w) in
      leave-Keeps fl api o (call_original fl api (original_of fl api present f) recorded) (
        call-Keeps fl api present f h o recorded (
          record_output-Keeps fl api p event self activator caller (is_recursive fl api 3 w) o
            (enter fl api 3 w) (enter-Keeps fl api 3 o w a)))

  opened-Accounted :
      (v : ProbeWorld) (scope : TargetFilterScope)
      → IsProbeAccounted v.probe
      → IsProbeAccounted (begin_target_classifier_spoof_scope v scope).probe
  unfolding begin_target_classifier_spoof_scope
  opened-Accounted v scope h = ground arith

  closed-Settled :
      (o : Scopes) (v : ProbeWorld)
      → IsProbeSettled o v.probe
      → IsProbeSettled o (end_target_classifier_spoof_scope v).probe
  unfolding end_target_classifier_spoof_scope
  closed-Settled o v h = h

  -- The end of a filter settles it.
  finish_filter-Settles :
      (p : Process) (scope : TargetFilterScope) (o : Scopes) (w : DetourWorld fl api)
      (result : Bool)
      → AreAccounted fl api (in_filter scope o) w
      → AreAccounted fl api o (finish_filter fl api p scope (w, result)).0
  unfolding finish_filter
  finish_filter-Settles p scope o w result a =
      let closed = end_target_classifier_spoof_scope w.probe in
      let v = (finish_target_filter p closed scope result).0 in
      let h = closed-Settled (in_filter scope o) w.probe a.probe in
      leave-Keeps fl api o (record w { probe = v })
        (probe-Keeps fl api o (in_filter scope o) w v refl
          (record {
            events = finish_target_filter-Accounted p closed scope result h.events;
            opens = finish_target_filter-Open _ _ _ p closed scope result h.opens;
          })
          a)

  filter_in_scope-Settles :
      (p : Process) (present result : Bool) (f : DetourWorld fl api → DetourWorld fl api)
      (target bitset classifier : ℕ) (o : Scopes) (w : DetourWorld fl api) (v : ProbeWorld)
      (scope : TargetFilterScope)
      → Keeps fl api f
      → IsProbeSettled (in_filter scope o) v.probe
      → AreAccounted fl api o w
      → AreAccounted fl api o
          (filter_in_scope fl api p
            (test_of fl api present result f)
            target
            bitset
            classifier
            w
            (v, scope)).0
  unfolding filter_in_scope
  filter_in_scope-Settles p present result f target bitset classifier o w v scope h hv a =
      let allowed = (maybe_allow_target_bitset p v scope target bitset classifier).0 in
      let opened = begin_target_classifier_spoof_scope allowed scope in
      let r =
        call_original_test fl api (test_of fl api present result f) true
          (record w { probe = opened }) in
      finish_filter-Settles p scope o r.0 r.1 (
        call_test-Keeps fl api present result true f h (in_filter scope o)
          (record w { probe = opened })
          (probe-Keeps fl api (in_filter scope o) o w opened refl
            (record {
              events =
                  opened-Accounted allowed scope
                    (bitset-Accounted p v scope target bitset classifier hv.events);
              opens =
                  opened-Open _ _ _ allowed scope
                    (bitset-Open _ _ _ p v scope target bitset classifier hv.opens);
            })
            a))

  pub filter-Keeps :
      (p : Process) (present result : Bool) (f : DetourWorld fl api → DetourWorld fl api)
      (source target bitset classifier : ℕ)
      → Keeps fl api f
      → Keeps fl api (λ w.
        (detour_target_friendly_fire_filter fl api p
          (test_of fl api present result f)
          source
          target
          bitset
          classifier
          w).0)
  unfolding detour_target_friendly_fire_filter
  filter-Keeps p present result f source target bitset classifier h o w a =
      let b = begin_target_filter p w.probe source target false in
      filter_in_scope-Settles p present result f target bitset classifier o (enter fl api 4 w) b.0
        b.1 h
        (record {
          events = begin_target_filter-Accounted p w.probe source target false a.probe.events;
          opens = begin_target_filter-Open _ _ _ p w.probe source target a.probe.opens;
        })
        (enter-Keeps fl api 4 o w a)

  finish_caller-Keeps :
      (p : Process) (source target : ℕ) (recursive : Bool) (o : Scopes) (w : DetourWorld fl api)
      (result : Bool)
      → AreAccounted fl api o w
      → AreAccounted fl api o (finish_caller fl api p source target recursive (w, result)).0
  unfolding finish_caller
  finish_caller-Keeps p source target true o w result a = leave-Keeps fl api o w a
  finish_caller-Keeps p source target false o w result a =
      let v = (record_target_filter_caller p w.probe source target result).0 in
      leave-Keeps fl api o (record w { probe = v })
        (probe-Keeps fl api o o w v refl
          (record {
            events = caller-Accounted p w.probe source target result a.probe.events;
            opens = caller-Open _ _ _ p w.probe source target result a.probe.opens;
          })
          a)

  pub caller-Keeps :
      (p : Process) (present result : Bool) (f : DetourWorld fl api → DetourWorld fl api)
      (source target : ℕ)
      → Keeps fl api f
      → Keeps fl api (λ w.
        (detour_target_friendly_fire_caller fl api p
          (test_of fl api present result f)
          source
          target
          w).0)
  unfolding detour_target_friendly_fire_caller
  caller-Keeps p present result f source target h o w a =
      let r = call_original_test fl api (test_of fl api present result f) true (enter fl api 5 w) in
      finish_caller-Keeps p source target (is_recursive fl api 5 w) o r.0 r.1 (
        call_test-Keeps fl api present result true f h o (enter fl api 5 w)
          (enter-Keeps fl api 5 o w a))

  finish_gate-Keeps :
      (p : Process) (source attacker target : ℕ) (recursive : Bool) (o : Scopes)
      (w : DetourWorld fl api) (result : Bool)
      → AreAccounted fl api o w
      → AreAccounted fl api o (finish_gate fl api p source attacker target recursive (w, result)).0
  unfolding finish_gate
  finish_gate-Keeps p source attacker target true o w result a = leave-Keeps fl api o w a
  finish_gate-Keeps p source attacker target false o w result a =
      let v = (record_secondary_target_gate p w.probe source attacker target result).0 in
      leave-Keeps fl api o (record w { probe = v })
        (probe-Keeps fl api o o w v refl
          (record {
            events = secondary-Accounted p w.probe source attacker target result a.probe.events;
            opens = secondary-Open _ _ _ p w.probe source attacker target result a.probe.opens;
          })
          a)

  pub gate-Keeps :
      (p : Process) (present result : Bool) (f : DetourWorld fl api → DetourWorld fl api)
      (source attacker target : ℕ)
      → Keeps fl api f
      → Keeps fl api (λ w.
        (detour_target_secondary_friendly_fire_gate fl api p
          (test_of fl api present result f)
          source
          attacker
          target
          w).0)
  unfolding detour_target_secondary_friendly_fire_gate
  gate-Keeps p present result f source attacker target h o w a =
      let r = call_original_test fl api (test_of fl api present result f) true (enter fl api 6 w) in
      finish_gate-Keeps p source attacker target (is_recursive fl api 6 w) o r.0 r.1 (
        call_test-Keeps fl api present result true f h o (enter fl api 6 w)
          (enter-Keeps fl api 6 o w a))

  pub classifier-Keeps :
      (p : Process) (present : Bool) (f : DetourWorld fl api → DetourWorld fl api) (target out : ℕ)
      → Keeps fl api f
      → Keeps fl api
          (detour_target_identity_classifier fl api p (original_of fl api present f) target out)
  unfolding detour_target_identity_classifier
  classifier-Keeps p present f target out h o w a =
      let r = call_original fl api (original_of fl api present f) w in
      let b = call-Keeps fl api present f h o w a in
      probe-Keeps fl api o o r (finish_target_identity_classifier p r.probe target out) refl
        (record {
          events = classifier-Accounted p r.probe target out b.probe.events;
          opens = classifier-Open _ _ _ p r.probe target out b.probe.opens;
        })
        b
