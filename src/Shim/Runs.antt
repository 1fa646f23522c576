-- ===== src/Shim/Runs.antt =====
-- native/dwrt-shim/dwrt_shadow_shim.cpp: what holds of the shim after any calls in any order.
use dwrt.Prelude.{
  ℕ, ◌+◌, ◌≡◌, ◌≢◌, refl, inl, inr, Bool, List, [], ◌∷◌, arith, ◌==◌, ==→eq, ==→ne, ne→==,
  Bool-cases, u64,
}
use dwrt.Shim.Loader.{
  RuntimeApi, DwrtShadowShim, construct, destroy_runtime, release_module, unload, load,
  create_runtime, set_timing_enabled, set_slow_threshold_ns, dwrt_runtime_free, Export,
  dwrt_net_add_user_fast, dwrt_net_add_serialized, dwrt_usercmd_set_mount_mask,
  dwrt_probe_set_mount_mask, dwrt_probe_snapshot, dwrt_probe_reset_counters,
}
use dwrt.Shim.Routes.{
  shadow_route_net, shadow_route_usercmd, probe_record_damage, probe_record_entity_input,
  probe_record_entity_output, probe_record_entity_touch, abi_version, add_net_user_fast,
  add_net_serialized, set_usercmd_mount_mask, set_probe_mount_mask, probe_snapshot,
  probe_reset_counters, call_runtime, route_call,
}
use dwrt.Shim.Counters.{DwrtShadowCounters}
use dwrt.Shim.Opened.{
  IsCounting, IsOpen, Same-Open, call_runtime-Same, route_call-Same, abi_version-Same,
  destroy_runtime-Same, create_runtime-Same, unload-Open, load-Open,
}
use dwrt.Shim.Loading.{IsEmpty, unload-Empty}
use dwrt.Shim.Kept.{call_runtime-Kept, record_net-Kept, record_usercmd-Kept, record_probe-Kept}
use dwrt.Shim.Consistency.{
  IsConsistent, IsKept-Consistent, destroy_runtime-Consistent, unload-Consistent, load-Consistent,
  create_runtime-Consistent, abi_version-Consistent,
}

module _ (api : RuntimeApi) where
  open api use {World, call, free_library, load_library}

  -- The calls of the public interface of the shim.
  pub data Call : Type 0 where
    loads : List ℕ → Call
    unloads : Call
    creates : Call
    destroys : Call
    asks_version : Call
    times : Bool → Call
    thresholds : ℕ → Call
    adds_user_fast : ℕ → Call
    adds_serialized : ℕ → ℕ → Call
    masks_usercmd : ℕ → Call
    masks_probe : ℕ → Call
    routes_net : ℕ → ℕ → ℕ → ℕ → Call
    routes_usercmd : Call
    records_damage : ℕ → Call
    records_input : ℕ → Call
    records_output : ℕ → Call
    records_touch : ℕ → Call
    snapshots : ℕ → Call
    resets : Call

  unfoldable pub step : DwrtShadowShim api → Call → DwrtShadowShim api
  step s (loads path) = (load api s path).0
  step s unloads = unload api s
  step s creates = (create_runtime api s).0
  step s destroys = destroy_runtime api s
  step s asks_version = (abi_version api s).0
  step s (times on) = set_timing_enabled api s on
  step s (thresholds ns) = set_slow_threshold_ns api s ns
  step s (adds_user_fast m) = (add_net_user_fast api s m).0
  step s (adds_serialized d m) = (add_net_serialized api s d m).0
  step s (masks_usercmd m) = set_usercmd_mount_mask api s m
  step s (masks_probe m) = set_probe_mount_mask api s m
  step s (routes_net d m h u) = (shadow_route_net api s d m h u).0
  step s routes_usercmd = (shadow_route_usercmd api s).0
  step s (records_damage e) = (probe_record_damage api s e).0
  step s (records_input e) = (probe_record_entity_input api s e).0
  step s (records_output e) = (probe_record_entity_output api s e).0
  step s (records_touch e) = (probe_record_entity_touch api s e).0
  step s (snapshots out) = (probe_snapshot api s out).0
  step s resets = probe_reset_counters api s

  unfoldable pub run : DwrtShadowShim api → List Call → DwrtShadowShim api
  run s [] = s
  run s (c ∷ cs) = run (step s c) cs

  step-Consistent :
      (s : DwrtShadowShim api) (c : Call) → IsConsistent api s → IsConsistent api (step s c)
  unfolding step
  step-Consistent s (loads path) v = load-Consistent api s path v
  step-Consistent s unloads v = unload-Consistent api s v
  step-Consistent s creates v = create_runtime-Consistent api s v
  step-Consistent s destroys v = destroy_runtime-Consistent api s v
  step-Consistent s asks_version v = abi_version-Consistent api s v
  step-Consistent s (times on) v =
      unfold set_timing_enabled in
      record { bound = v.bound; unbound = v.unbound; runtime = v.runtime; balance = v.balance }
  step-Consistent s (thresholds ns) v =
      unfold set_slow_threshold_ns in
      record { bound = v.bound; unbound = v.unbound; runtime = v.runtime; balance = v.balance }
  step-Consistent s (adds_user_fast m) v =
      unfold add_net_user_fast in IsKept-Consistent api _ _ (call_runtime-Kept api s _ _ 0) v
  step-Consistent s (adds_serialized d m) v =
      unfold add_net_serialized in IsKept-Consistent api _ _ (call_runtime-Kept api s _ _ 0) v
  step-Consistent s (masks_usercmd m) v =
      unfold set_usercmd_mount_mask in IsKept-Consistent api _ _ (call_runtime-Kept api s _ _ 0) v
  step-Consistent s (masks_probe m) v =
      unfold set_probe_mount_mask in IsKept-Consistent api _ _ (call_runtime-Kept api s _ _ 0) v
  step-Consistent s (routes_net d m h u) v =
      unfold shadow_route_net in IsKept-Consistent api _ _ (record_net-Kept api _ _ s) v
  step-Consistent s routes_usercmd v =
      unfold shadow_route_usercmd in IsKept-Consistent api _ _ (record_usercmd-Kept api _ _ s) v
  step-Consistent s (records_damage e) v =
      unfold probe_record_damage in IsKept-Consistent api _ _ (record_probe-Kept api _ _ s) v
  step-Consistent s (records_input e) v =
      unfold probe_record_entity_input in IsKept-Consistent api _ _ (record_probe-Kept api _ _ s) v
  step-Consistent s (records_output e) v =
      unfold probe_record_entity_output in IsKept-Consistent api _ _ (record_probe-Kept api _ _ s) v
  step-Consistent s (records_touch e) v =
      unfold probe_record_entity_touch in IsKept-Consistent api _ _ (record_probe-Kept api _ _ s) v
  step-Consistent s (snapshots out) v =
      unfold probe_snapshot in IsKept-Consistent api _ _ (call_runtime-Kept api s _ _ 0) v
  step-Consistent s resets v =
      unfold probe_reset_counters in IsKept-Consistent api _ _ (call_runtime-Kept api s _ _ 0) v

  run-Consistent :
      (s : DwrtShadowShim api) (cs : List Call) → IsConsistent api s → IsConsistent api (run s cs)
  unfolding run
  run-Consistent s [] v = v
  run-Consistent s (c ∷ cs) v = run-Consistent (step s c) cs (step-Consistent s c v)

  -- From a new shim on, after any calls in any order: the exports are bound exactly while a DLL is
  -- loaded, a runtime is there only while a DLL is, and the loads are the unloads and the DLL that is
  -- loaded.
  pub run-IsConsistent : (w : World) (cs : List Call) → IsConsistent api (run (construct api w) cs)
  run-IsConsistent w cs = run-Consistent (construct api w) cs (
      unfold construct in
      record {
        bound = λ h. absurd (h refl);
        unbound = λ h. refl;
        runtime = λ h. absurd (h refl);
        balance = refl;
      })

  -- What `unload` does outside the shim: nothing; or it frees the DLL; or it gives the runtime back
  -- to the DLL and frees the DLL then.
  pub data Released (s u : DwrtShadowShim api) : Type 0 where
    nothing : s.handle ≡ 0 → s.runtime ≡ 0 → u.world ≡ s.world → Released s u
    module_only :
        s.handle ≢ 0 → s.runtime ≡ 0 → u.world ≡ free_library s.world s.handle → Released s u
    runtime_first :
        s.handle ≢ 0
        → s.runtime ≢ 0
        → u.world
          ≡ free_library (call s.world (s.bindings dwrt_runtime_free) (s.runtime ∷ [])).0 s.handle
        → Released s u

  pub unload-Released : (s : DwrtShadowShim api) → IsConsistent api s → Released s (unload api s)
  unfolding unload release_module destroy_runtime
  unload-Released s v = elim (Bool-cases (s.handle == 0)) [
    | inl h ↦ elim (Bool-cases (s.runtime == 0)) [
      | inl r ↦ nothing (==→eq _ _ h) (==→eq _ _ r) (rw (h, r) refl)
      | inr r ↦ absurd (v.runtime (==→ne _ _ r) (==→eq _ _ h))
    ]
    | inr h ↦ elim (Bool-cases (s.runtime == 0)) [
      | inl r ↦ module_only (==→ne _ _ h) (==→eq _ _ r) (rw (h, r) refl)
      | inr r ↦
          runtime_first (==→ne _ _ h) (==→ne _ _ r)
            (rw (h, r, ne→== _ 0 (v.bound (==→ne _ _ h) dwrt_runtime_free)) refl)
    ]
  ]

  balance_empty :
      (u : DwrtShadowShim api)
      → IsEmpty api u
      → IsConsistent api u
      → u.counters.runtime_loads ≡ u64 u.counters.runtime_unloads
  balance_empty u z v =
      let b : u.counters.runtime_loads ≡ u64 (u.counters.runtime_unloads + 0) =
        rw z.handle at v.balance in
      omega arith

  module _ (opened : World → ℕ) (counting : IsCounting api opened) where
    call-Open :
        (base : ℕ) (s : DwrtShadowShim api) (e : Export) (arguments : List ℕ) (otherwise : ℕ)
        → IsOpen api opened base s
        → IsOpen api opened base (call_runtime api s e arguments otherwise).0
    call-Open base s e arguments otherwise o =
        Same-Open api opened base s _
          (call_runtime-Same api opened counting s e arguments otherwise) o

    route-Open :
        (base : ℕ) (s : DwrtShadowShim api) (e : Export) (arguments : List ℕ) (otherwise : ℕ)
        (count ticks : ℕ → DwrtShadowCounters → DwrtShadowCounters)
        → IsOpen api opened base s
        → IsOpen api opened base (route_call api e arguments otherwise count ticks s).0
    route-Open base s e arguments otherwise count ticks o =
        Same-Open api opened base s _
          (route_call-Same api opened counting e arguments otherwise count ticks s) o

    step-Open :
        (base : ℕ) (s : DwrtShadowShim api) (c : Call)
        → IsOpen api opened base s
        → IsOpen api opened base (step s c)
    unfolding step
    step-Open base s (loads path) o = load-Open api opened counting base s path o
    step-Open base s unloads o = unload-Open api opened counting base s o
    step-Open base s creates o =
        Same-Open api opened base s _ (create_runtime-Same api opened counting s) o
    step-Open base s destroys o =
        Same-Open api opened base s _ (destroy_runtime-Same api opened counting s) o
    step-Open base s asks_version o =
        Same-Open api opened base s _ (abi_version-Same api opened counting s) o
    step-Open base s (times on) o = unfold set_timing_enabled in o
    step-Open base s (thresholds ns) o = unfold set_slow_threshold_ns in o
    step-Open base s (adds_user_fast m) o =
        unfold add_net_user_fast in call-Open base s dwrt_net_add_user_fast (m ∷ []) 0 o
    step-Open base s (adds_serialized d m) o =
        unfold add_net_serialized in call-Open base s dwrt_net_add_serialized (d ∷ m ∷ []) 0 o
    step-Open base s (masks_usercmd m) o =
        unfold set_usercmd_mount_mask in call-Open base s dwrt_usercmd_set_mount_mask (m ∷ []) 0 o
    step-Open base s (masks_probe m) o =
        unfold set_probe_mount_mask in call-Open base s dwrt_probe_set_mount_mask (m ∷ []) 0 o
    step-Open base s (routes_net d m h u) o =
        unfold shadow_route_net in route-Open base s _ _ _ _ _ o
    step-Open base s routes_usercmd o = unfold shadow_route_usercmd in route-Open base s _ _ _ _ _ o
    step-Open base s (records_damage e) o =
        unfold probe_record_damage in route-Open base s _ _ _ _ _ o
    step-Open base s (records_input e) o =
        unfold probe_record_entity_input in route-Open base s _ _ _ _ _ o
    step-Open base s (records_output e) o =
        unfold probe_record_entity_output in route-Open base s _ _ _ _ _ o
    step-Open base s (records_touch e) o =
        unfold probe_record_entity_touch in route-Open base s _ _ _ _ _ o
    step-Open base s (snapshots out) o =
        unfold probe_snapshot in call-Open base s dwrt_probe_snapshot (out ∷ []) 0 o
    step-Open base s resets o =
        unfold probe_reset_counters in call-Open base s dwrt_probe_reset_counters [] 0 o

    run-Open :
        (base : ℕ) (s : DwrtShadowShim api) (cs : List Call)
        → IsOpen api opened base s
        → IsOpen api opened base (run s cs)
    unfolding run
    run-Open base s [] o = o
    run-Open base s (c ∷ cs) o = run-Open base (step s c) cs (step-Open base s c o)

    -- For an operating system that counts the open DLLs, where a load that gives a handle opens one, a free
    -- closes one and neither the exports nor the clock change the count: when a shim is unloaded after any
    -- calls from its construction on, as its destructor does it, as many DLLs are open as at its construction,
    -- also after loads that failed or found an export missing. No handle, binding or runtime is left, the
    -- shim's counts of loads and unloads agree mod 2^64, and this last unload frees the DLL if one was loaded
    -- and gives a runtime that was there back to it before that.
    pub unload-run :
        (w : World) (cs : List Call)
        → let s = run (construct api w) cs in
          let u = unload api s in
          (opened u.world ≡ opened w)
          × (IsEmpty api u
              × ((u.counters.runtime_loads ≡ u64 u.counters.runtime_unloads) × Released s u))
    unload-run w cs =
        let s = run (construct api w) cs in
        let v = run-IsConsistent w cs in
        let empty = unload-Empty api s in
        let start : IsOpen api opened (opened w) (construct api w) =
          unfold construct in omega arith in
        let at_end = unload-Open api opened counting (opened w) s (run-Open _ _ cs start) in
        let all_closed : opened (unload api s).world ≡ opened w + 0 = rw empty.handle at at_end in
        (
          omega arith,
          (
            empty,
            (balance_empty (unload api s) empty (unload-Consistent api s v), unload-Released s v),
          ),
        )
