-- ===== src/Host/Lifecycle/Runs.antt =====
-- native/dwrt-host/dwrt_host.cpp: what holds after any calls of the exports, in any order.
use dwrt.Prelude.{
  ℕ, ◌≡◌, refl, Bool, true, false, Option, none, some, List, [], ◌∷◌, ◌==◌, if◌then◌else◌, arith,
}
use dwrt.Hooks.{HookLibrary}
use dwrt.Hooks.Backend.{InlineHookRecord, reset}
use dwrt.Walker.Floats.{FloatApi}
use dwrt.Shim.Loader.{RuntimeApi, dwrt_probe_reset_counters}
use dwrt.Shim.Routes.{
  call_runtime, probe_record_damage, probe_record_entity_input, probe_record_entity_output,
  set_probe_mount_mask, probe_snapshot, probe_reset_counters,
}
use dwrt.Shim.Loading.{IsEmpty, unload-Empty}
use dwrt.Shim.Kept.{call_runtime-Kept, record_probe-Kept}
use dwrt.Shim.Consistency.{IsConsistent, unload-Consistent}
use dwrt.Shim.Runs.{Released, unload-Released}
use dwrt.Host.Install.{no_originals, clear_hooks, ok_status}
use dwrt.Host.Resolve.{ModuleApi}
use dwrt.Host.Lifecycle.State.{
  ProbeCounters, HostState, HostConfig, HostProcess, given_path, prepare, clear_server,
}
use dwrt.Host.Lifecycle.Exports.{
  resolve_and_finish, after_runtime, initialize_with, dwrt_host_initialize, is_ready,
  dwrt_host_set_probe_mount_mask, dwrt_host_reset_probe_counters, dwrt_host_probe_snapshot,
  dwrt_host_shutdown,
}
use dwrt.Host.Lifecycle.Sound.{IsSound, kept-Sound, load_runtime-Sound}

-- A call of an export, or an event that a detour hands to the runtime.
pub data Call : Type 0 where
  initializes : Option HostConfig → Call
  masks : ℕ → Call
  resets : Call
  snapshots : (out : ℕ) → Call
  shuts_down : Call
  records_damage : (event : ℕ) → Call
  records_input : (event : ℕ) → Call
  records_output : (event : ℕ) → Call

module _ (fl : FloatApi) (lib : HookLibrary) (modules : ModuleApi) (api : RuntimeApi)
    (read_snapshot : api.World → ProbeCounters) where
  abbrev State : Type 0
  State = HostState fl lib modules api

  unfoldable pub step : HostProcess → State → Call → State
  step p s (initializes config) =
      (dwrt_host_initialize fl lib modules api read_snapshot p config s).0
  step p s (masks m) = (dwrt_host_set_probe_mount_mask fl lib modules api read_snapshot m s).0
  step p s resets = (dwrt_host_reset_probe_counters fl lib modules api read_snapshot s).0
  step p s (snapshots out) = (dwrt_host_probe_snapshot fl lib modules api read_snapshot out s).0
  step p s shuts_down = (dwrt_host_shutdown fl lib modules api read_snapshot s).0
  step p s (records_damage event) = record s {
    runtime = (probe_record_damage api s.runtime event).0;
  }
  step p s (records_input event) = record s {
    runtime = (probe_record_entity_input api s.runtime event).0;
  }
  step p s (records_output event) = record s {
    runtime = (probe_record_entity_output api s.runtime event).0;
  }

  unfoldable pub run : HostProcess → State → List Call → State
  run p s [] = s
  run p s (c ∷ cs) = run p (step p s c) cs

  abbrev Sound : State → Type 0
  Sound = IsSound fl lib modules api read_snapshot

  if-Sound :
      (test : Bool) (x y : State × ℕ) → Sound x.0 → Sound y.0 → Sound (if test then x else y).0
  if-Sound true x y a b = a
  if-Sound false x y a b = b

  -- A state of the same runtime, with the same flags about it.
  same-Sound :
      (s t : State)
      → t.runtime ≡ s.runtime
      → t.runtime_loaded ≡ s.runtime_loaded
      → t.runtime_probe_ok ≡ s.runtime_probe_ok
      → Sound s
      → Sound t
  same-Sound s t r l o v = record {
    shim = rw r v.shim;
    loaded = λ h. rw r (v.loaded (rw l at h));
    probed = λ h. rw r (v.probed (rw o at h));
  }

  resolve-Sound :
      (p : HostProcess) (config : HostConfig) (s : State)
      → Sound s
      → Sound (resolve_and_finish fl lib modules api read_snapshot p config s).0
  unfolding resolve_and_finish
  resolve-Sound p config s v =
      if-Sound _ _ _ (same-Sound s _ refl refl refl v) (same-Sound s _ refl refl refl v)

  after_runtime-Sound :
      (p : HostProcess) (config : HostConfig) (r : State × Option ℕ)
      → Sound r.0
      → Sound (after_runtime fl lib modules api read_snapshot p config r).0
  unfolding after_runtime
  after_runtime-Sound p config (s, some status) v = v
  after_runtime-Sound p config (s, none) v = resolve-Sound p config s v

  initialize_with-Sound :
      (p : HostProcess) (config : HostConfig) (s : State)
      → Sound s
      → Sound (initialize_with fl lib modules api read_snapshot p config s).0
  unfolding initialize_with prepare
  initialize_with-Sound p config s v =
      if-Sound s.initialized _ _ (same-Sound s _ refl refl refl v) (
        after_runtime-Sound p config _ (
          load_runtime-Sound fl lib modules api read_snapshot _ p (given_path config.runtime_path) _
            refl refl v.shim))

  initialize-Sound :
      (p : HostProcess) (config : Option HostConfig) (s : State)
      → Sound s
      → Sound (dwrt_host_initialize fl lib modules api read_snapshot p config s).0
  unfolding dwrt_host_initialize
  initialize-Sound p none s v = same-Sound s _ refl refl refl v
  initialize-Sound p (some config) s v =
      if-Sound (config.abi_version == 1) _ _
        (initialize_with-Sound p config _ (same-Sound s _ refl refl refl v))
        (same-Sound s _ refl refl refl v)

  step-Sound : (p : HostProcess) (s : State) (c : Call) → Sound s → Sound (step p s c)
  unfolding step
  step-Sound p s (initializes config) v = initialize-Sound p config s v
  step-Sound p s (masks m) v =
      unfold dwrt_host_set_probe_mount_mask set_probe_mount_mask in
      if-Sound (is_ready fl lib modules api read_snapshot s) _ (s, _)
        (kept-Sound fl lib modules api read_snapshot s _ (call_runtime-Kept api s.runtime _ _ _) v)
        v
  step-Sound p s resets v =
      unfold dwrt_host_reset_probe_counters probe_reset_counters in
      if-Sound (is_ready fl lib modules api read_snapshot s) _ (s, _)
        (same-Sound
          (record s { runtime = (call_runtime api s.runtime dwrt_probe_reset_counters [] 0).0 }) _
          refl refl refl
          (kept-Sound fl lib modules api read_snapshot s _ (call_runtime-Kept api s.runtime _ _ _)
            v))
        v
  step-Sound p s (snapshots out) v =
      unfold dwrt_host_probe_snapshot probe_snapshot in
      if-Sound (out == 0) (s, _) _ v
        (if-Sound (is_ready fl lib modules api read_snapshot s) _ (s, _)
          (kept-Sound fl lib modules api read_snapshot s _ (call_runtime-Kept api s.runtime _ _ _)
            v)
          v)
  step-Sound p s shuts_down v =
      unfold dwrt_host_shutdown in
      record {
        shim = unload-Consistent api s.runtime v.shim;
        loaded = λ h. ground arith;
        probed = λ h. ground arith;
      }
  step-Sound p s (records_damage event) v =
      unfold probe_record_damage in
      kept-Sound fl lib modules api read_snapshot s _ (record_probe-Kept api _ _ s.runtime) v
  step-Sound p s (records_input event) v =
      unfold probe_record_entity_input in
      kept-Sound fl lib modules api read_snapshot s _ (record_probe-Kept api _ _ s.runtime) v
  step-Sound p s (records_output event) v =
      unfold probe_record_entity_output in
      kept-Sound fl lib modules api read_snapshot s _ (record_probe-Kept api _ _ s.runtime) v

  -- Any calls of the exports in any order, with the events of damage, inputs and outputs that the detours
  -- hand to the runtime between them, keep the shim consistent,
  -- a runtime that the host counts as loaded is a DLL that is loaded, and one that it counts as probed is a
  -- runtime that is there.
  pub run_exports-IsSound :
      (p : HostProcess) (s : State) (cs : List Call)
      → IsSound fl lib modules api read_snapshot s
      → IsSound fl lib modules api read_snapshot (run p s cs)
  unfolding run
  run_exports-IsSound p s [] v = v
  run_exports-IsSound p s (c ∷ cs) v = run_exports-IsSound p (step p s c) cs (step-Sound p s c v)

  -- A host that is stopped: no DLL, no hook and no pointer to an original is left.
  pub record IsStopped (s : State) : Type 0 where
    pub initialized : s.initialized ≡ false
    pub empty : IsEmpty api s.runtime
    pub unhooked : s.server.hooks.records ≡ []
    pub originals : s.server.hooks.originals ≡ no_originals

  reset-none : (w : lib.World) (rs : List (InlineHookRecord lib)) → (reset lib w rs).1 ≡ []
  unfolding reset
  reset-none w [] = refl
  reset-none w (r ∷ rs) = reset-none (lib.destroy w r.hook) rs

  -- `dwrt_host_shutdown` stops the host whatever state it is in, with a consistent shim, also after an
  -- initialisation that failed half way: the status is OK, all hooks and the pointers to the originals are
  -- gone, and the shim holds no DLL, binding or runtime. A DLL that was loaded is freed, once, and a runtime
  -- that was there is given back to the DLL before that; without a DLL the shim calls nothing.
  pub shutdown-IsStopped :
      (s : State)
      → IsConsistent api s.runtime
      → let r = dwrt_host_shutdown fl lib modules api read_snapshot s in
        (r.1 ≡ ok_status) × (IsStopped r.0 × Released api s.runtime r.0.runtime)
  unfolding dwrt_host_shutdown clear_server clear_hooks
  shutdown-IsStopped s v = (
    refl,
    (
      record {
        initialized = refl;
        empty = unload-Empty api s.runtime;
        unhooked = reset-none s.server.hooks.world s.server.hooks.records;
        originals = refl;
      },
      unload-Released api s.runtime v,
    ),
  )
