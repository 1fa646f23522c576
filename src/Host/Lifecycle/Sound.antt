-- ===== src/Host/Lifecycle/Sound.antt =====
-- native/dwrt-host/dwrt_host.cpp: what the exports keep true of the host and of the runtime that it holds.
use dwrt.Prelude.{
  ℕ, ◌≡◌, ◌≢◌, inl, inr, refl, Bool, true, false, not, ◌&&◌, Option, none, some, List, ◌==◌, arith,
  Bool-cases,
}
use dwrt.Hooks.{HookLibrary}
use dwrt.Walker.Floats.{FloatApi}
use dwrt.Shim.Loader.{
  RuntimeApi, DwrtShadowShim, load, destroy_runtime, create_destroyed, create_runtime,
}
use dwrt.Shim.Routes.{
  abi_version, probe_record_damage, probe_record_entity_input, set_probe_mount_mask, probe_snapshot,
  probe_reset_counters,
}
use dwrt.Shim.Loading.{Loaded, refused, ready, missing, load-Loaded}
use dwrt.Shim.Kept.{IsKept, IsKept-trans, call_runtime-Kept, record_probe-Kept}
use dwrt.Shim.Consistency.{
  IsConsistent, IsKept-Consistent, load-Consistent, create_runtime-Consistent,
  abi_version-Consistent,
}
use dwrt.Host.Resolve.{ModuleApi}
use dwrt.Host.Lifecycle.State.{ProbeCounters, HostState, HostProcess, set_error}
use dwrt.Host.Lifecycle.Runtime.{
  exercise_probe_abi, fail_if_required, probe_runtime, start_runtime, check_runtime,
  finish_runtime_load, load_runtime,
}

module _ (fl : FloatApi) (lib : HookLibrary) (modules : ModuleApi) (api : RuntimeApi)
    (read_snapshot : api.World → ProbeCounters) where
  abbrev State : Type 0
  State = HostState fl lib modules api

  -- The shim is consistent, a runtime that counts as loaded is a DLL that is loaded, and one that has
  -- passed the probe is there.
  pub record IsSound (s : State) : Type 0 where
    pub shim : IsConsistent api s.runtime
    pub loaded : s.runtime_loaded ≡ true → s.runtime.handle ≢ 0
    pub probed : s.runtime_probe_ok ≡ true → s.runtime.runtime ≢ 0

  pub kept-Sound :
      (s : State) (t : DwrtShadowShim api)
      → IsKept api s.runtime t
      → IsSound s
      → IsSound (record s { runtime = t })
  kept-Sound s t k v = record {
    shim = IsKept-Consistent api s.runtime t k v.shim;
    loaded = λ h. rw k.handle (v.loaded h);
    probed = λ h. rw k.runtime (v.probed h);
  }

  exercise-Kept :
      (p : HostProcess) (s : DwrtShadowShim api)
      → IsKept api s (exercise_probe_abi fl lib modules api read_snapshot p s).0
  unfolding exercise_probe_abi probe_record_damage probe_record_entity_input set_probe_mount_mask
      probe_snapshot probe_reset_counters
  exercise-Kept p s = IsKept-trans api s _ _ (record_probe-Kept api _ _ s) (
      IsKept-trans api _ _ _ (call_runtime-Kept api _ _ _ _) (
        IsKept-trans api _ _ _ (record_probe-Kept api _ _ _) (
          IsKept-trans api _ _ _ (record_probe-Kept api _ _ _) (
            IsKept-trans api _ _ _ (call_runtime-Kept api _ _ _ _) (
              IsKept-trans api _ _ _ (call_runtime-Kept api _ _ _ _)
                (call_runtime-Kept api _ _ _ _))))))

  create_runtime-Created :
      (s : DwrtShadowShim api)
      → (create_runtime api s).1 ≡ none
      → (create_runtime api s).0.runtime ≢ 0
  unfolding create_runtime create_destroyed destroy_runtime
  create_runtime-Created s h = ground arith

  create_runtime-handle : (s : DwrtShadowShim api) → (create_runtime api s).0.handle ≡ s.handle
  unfolding create_runtime create_destroyed destroy_runtime
  create_runtime-handle s = ground arith

  Loaded-handle :
      (w : api.World) (h : ℕ) (r : DwrtShadowShim api × Option (List ℕ))
      → Loaded api w h r
      → r.1 ≡ none
      → r.0.handle ≢ 0
  Loaded-handle w h r (refused z a b c d) e = ground arith
  Loaded-handle w h r (missing x a b c d f) e = ground arith
  Loaded-handle w h r (ready ne same bound c d) e = ground arith

  set_error-Sound :
      (s : State) (message : List ℕ) → IsSound s → IsSound (set_error fl lib modules api s message)
  set_error-Sound s message v = record { shim = v.shim; loaded = v.loaded; probed = v.probed }

  probed-Sound :
      (s : State) (t : DwrtShadowShim api) (probed : Bool)
      → IsKept api s.runtime t
      → s.runtime.runtime ≢ 0
      → IsSound s
      → IsSound (record s { runtime = t; runtime_probe_ok = probed })
  probed-Sound s t probed k ne v = record {
    shim = IsKept-Consistent api s.runtime t k v.shim;
    loaded = λ h. rw k.handle (v.loaded h);
    probed = λ h. rw k.runtime ne;
  }

  probe_runtime-Sound :
      (required : Bool) (p : HostProcess) (s : State)
      → s.runtime.runtime ≢ 0
      → IsSound s
      → IsSound (probe_runtime fl lib modules api read_snapshot required p s).0
  unfolding probe_runtime
  probe_runtime-Sound required p s ne v =
      let r = exercise_probe_abi fl lib modules api read_snapshot p s.runtime in
      let sound = probed-Sound s r.0 r.1 (exercise-Kept p s.runtime) ne v in
      elim (Bool-cases (not r.1 && required)) [
        | inl y ↦
            rw y (set_error-Sound (record s { runtime = r.0; runtime_probe_ok = r.1 }) _ sound)
        | inr n ↦ rw n sound
      ]

  start_runtime-Sound :
      (required : Bool) (p : HostProcess) (s : State) (r : DwrtShadowShim api × Option (List ℕ))
      → ((r.1 ≡ none) → r.0.runtime ≢ 0)
      → IsSound (record s { runtime = r.0 })
      → IsSound (start_runtime fl lib modules api read_snapshot required p s r).0
  unfolding start_runtime fail_if_required
  start_runtime-Sound required p s (runtime, some message) created v =
      set_error-Sound (record s { runtime = runtime }) message v
  start_runtime-Sound required p s (runtime, none) created v =
      probe_runtime-Sound required p (record s { runtime = runtime }) (created refl) v

  abi_version-handle : (s : DwrtShadowShim api) → (abi_version api s).0.handle ≡ s.handle
  unfolding abi_version
  abi_version-handle s = ground arith

  -- A state whose runtime has not been probed.
  unprobed-Sound :
      (s : State) (t : DwrtShadowShim api)
      → s.runtime_probe_ok ≡ false
      → t.handle ≢ 0
      → IsConsistent api t
      → IsSound (record s { runtime = t })
  unprobed-Sound s t off ne c = record { shim = c; loaded = λ h. ne; probed = λ h. ground arith }

  check_runtime-Sound :
      (required : Bool) (p : HostProcess) (s : State)
      → s.runtime_probe_ok ≡ false
      → s.runtime.handle ≢ 0
      → IsConsistent api s.runtime
      → IsSound (check_runtime fl lib modules api read_snapshot required p s).0
  unfolding check_runtime fail_if_required
  check_runtime-Sound required p s off ne c =
      let asked = (abi_version api s.runtime).0 in
      let consistent = abi_version-Consistent api s.runtime c in
      let open_handle : asked.handle ≢ 0 = rw (abi_version-handle s.runtime) ne in
      elim (Bool-cases (not ((abi_version api s.runtime).1 == 1))) [
        | inl y ↦ rw y (
            set_error-Sound (record s { runtime = asked }) _
              (unprobed-Sound s asked off open_handle consistent))
        | inr n ↦ rw n (
            start_runtime-Sound required p (record s { runtime = asked }) (create_runtime api asked)
              (λ h. create_runtime-Created asked h)
              (unprobed-Sound s (create_runtime api asked).0 off
                (rw (create_runtime-handle asked) open_handle)
                (create_runtime-Consistent api asked consistent)))
      ]

  finish_runtime_load-Sound :
      (required : Bool) (p : HostProcess) (s : State) (r : DwrtShadowShim api × Option (List ℕ))
      → s.runtime_loaded ≡ false
      → s.runtime_probe_ok ≡ false
      → (r.1 ≡ none → r.0.handle ≢ 0)
      → IsConsistent api r.0
      → IsSound (finish_runtime_load fl lib modules api read_snapshot required p s r).0
  unfolding finish_runtime_load fail_if_required
  finish_runtime_load-Sound required p s (runtime, some message) unloaded off ne c =
      set_error-Sound (record s { runtime = runtime }) message
        (record { shim = c; loaded = λ h. ground arith; probed = λ h. ground arith })
  finish_runtime_load-Sound required p s (runtime, none) unloaded off ne c =
      check_runtime-Sound required p (record s { runtime = runtime; runtime_loaded = true }) off
        (ne refl) c

  pub load_runtime-Sound :
      (required : Bool) (p : HostProcess) (path : Option (List ℕ)) (s : State)
      → s.runtime_loaded ≡ false
      → s.runtime_probe_ok ≡ false
      → IsConsistent api s.runtime
      → IsSound (load_runtime fl lib modules api read_snapshot required p path s).0
  unfolding load_runtime
  load_runtime-Sound true p none s unloaded off c = record {
    shim = c;
    loaded = λ h. ground arith;
    probed = λ h. ground arith;
  }
  load_runtime-Sound false p none s unloaded off c = record {
    shim = c;
    loaded = λ h. ground arith;
    probed = λ h. ground arith;
  }
  load_runtime-Sound required p (some path) s unloaded off c =
      finish_runtime_load-Sound required p s (load api s.runtime path) unloaded off
        (Loaded-handle _ _ _ (load-Loaded api s.runtime path))
        (load-Consistent api s.runtime path c)
