-- ===== src/Host/Lifecycle/Restart.antt =====
-- native/dwrt-host/dwrt_host.cpp: a host that was stopped can be started again.
use dwrt.Prelude.{
  ℕ, ◌≡◌, refl, Bool, true, false, not, Option, none, some, List, ◌==◌, if◌then◌else◌, arith,
  Bool-cases, eq→==, inl, inr,
}
use dwrt.Hooks.{HookLibrary}
use dwrt.Walker.Floats.{FloatApi}
use dwrt.Shim.Loader.{RuntimeApi, DwrtShadowShim, load, create_runtime}
use dwrt.Shim.Routes.{abi_version}
use dwrt.Host.Signatures.{has_flag, flag_require_runtime, flag_require_signatures}
use dwrt.Host.Resolve.{ModuleApi}
use dwrt.Host.Lifecycle.State.{
  ProbeCounters, HostState, HostConfig, HostProcess, given_path, host_abi_version,
}
use dwrt.Host.Lifecycle.Runtime.{
  fail_if_required, probe_runtime, start_runtime, check_runtime, finish_runtime_load, load_runtime,
}
use dwrt.Host.Lifecycle.Exports.{
  write_summary_if_requested, resolve_and_finish, after_runtime, initialize_with,
  dwrt_host_initialize, dwrt_host_shutdown,
}

module _ (fl : FloatApi) (lib : HookLibrary) (modules : ModuleApi) (api : RuntimeApi)
    (read_snapshot : api.World → ProbeCounters) where
  abbrev State : Type 0
  State = HostState fl lib modules api

  start_runtime-none :
      (p : HostProcess) (s : State) (r : DwrtShadowShim api × Option (List ℕ))
      → (start_runtime fl lib modules api read_snapshot false p s r).1 ≡ none
  unfolding start_runtime fail_if_required probe_runtime
  start_runtime-none p s (runtime, some message) = refl
  start_runtime-none p s (runtime, none) = ground arith

  check_runtime-none :
      (p : HostProcess) (s : State)
      → (check_runtime fl lib modules api read_snapshot false p s).1 ≡ none
  unfolding check_runtime fail_if_required
  check_runtime-none p s = elim (Bool-cases (not ((abi_version api s.runtime).1 == 1))) [
    | inl y ↦ rw y refl
    | inr n ↦ rw n (
        start_runtime-none p (record s { runtime = (abi_version api s.runtime).0 })
          (create_runtime api (abi_version api s.runtime).0))
  ]

  finish_runtime_load-none :
      (p : HostProcess) (s : State) (r : DwrtShadowShim api × Option (List ℕ))
      → (finish_runtime_load fl lib modules api read_snapshot false p s r).1 ≡ none
  unfolding finish_runtime_load fail_if_required
  finish_runtime_load-none p s (runtime, some message) = refl
  finish_runtime_load-none p s (runtime, none) = check_runtime-none p _

  -- Where the runtime is not required, its part of the initialisation never ends it.
  load_runtime-none :
      (p : HostProcess) (path : Option (List ℕ)) (s : State)
      → (load_runtime fl lib modules api read_snapshot false p path s).1 ≡ none
  unfolding load_runtime
  load_runtime-none p none s = refl
  load_runtime-none p (some path) s = finish_runtime_load-none p s (load api s.runtime path)

  load_optional-none :
      (required : Bool)
      → required ≡ false
      → (p : HostProcess) (path : Option (List ℕ)) (s : State)
      → (load_runtime fl lib modules api read_snapshot required p path s).1 ≡ none
  load_optional-none required e p path s = rw e (load_runtime-none p path s)

  -- The host is initialised, and the status is that of the summary.
  abbrev pub IsRunning : HostProcess → HostConfig → State × ℕ → Type 0
  IsRunning p config (s, status) =
      (s.initialized ≡ true)
      × (status
          ≡ write_summary_if_requested fl lib modules api read_snapshot p
              (given_path config.summary_path))

  if-IsRunning :
      (p : HostProcess) (config : HostConfig) (test : Bool) (x y : State × ℕ)
      → test ≡ true
      → IsRunning p config x
      → IsRunning p config (if test then x else y)
  if-IsRunning p config test x y e h = rw e h

  resolve-IsRunning :
      (p : HostProcess) (config : HostConfig) (s : State)
      → has_flag config.server.flags flag_require_signatures ≡ false
      → IsRunning p config (resolve_and_finish fl lib modules api read_snapshot p config s)
  unfolding resolve_and_finish
  resolve-IsRunning p config s optional = ground arith

  after_runtime-IsRunning :
      (p : HostProcess) (config : HostConfig) (r : State × Option ℕ)
      → has_flag config.server.flags flag_require_signatures ≡ false
      → r.1 ≡ none
      → IsRunning p config (after_runtime fl lib modules api read_snapshot p config r)
  unfolding after_runtime
  after_runtime-IsRunning p config (s, none) optional e = resolve-IsRunning p config s optional
  after_runtime-IsRunning p config (s, some status) optional e = ground arith

  -- From any state, running or left by an initialisation that failed: after a shutdown, an initialisation
  -- with the right version that requires neither the runtime nor the signatures is not refused; it leaves
  -- the host initialised whatever the loader, the runtime and the file system do, and its status is OK, or
  -- that the summary could not be written where one was asked for and its file cannot be opened.
  pub initialize-shutdown :
      (p : HostProcess) (config : HostConfig) (s : State)
      → config.abi_version ≡ host_abi_version
      → has_flag config.server.flags flag_require_runtime ≡ false
      → has_flag config.server.flags flag_require_signatures ≡ false
      → IsRunning p config (
          dwrt_host_initialize fl lib modules api read_snapshot p
            (some config)
            (dwrt_host_shutdown fl lib modules api read_snapshot s).0)
  unfolding dwrt_host_initialize dwrt_host_shutdown initialize_with
  initialize-shutdown p config s version optional unsigned =
      if-IsRunning p config (config.abi_version == 1) _ _ (eq→== _ _ version) (
        after_runtime-IsRunning p config _ unsigned
          (load_optional-none _ optional p (given_path config.runtime_path) _))
