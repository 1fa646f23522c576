-- ===== src/Host/Lifecycle/Exports.antt =====
-- The exports of native/dwrt-host/dwrt_host.cpp that start, stop and steer the host. Each of them takes
-- the lock, so they run one after the other.
use dwrt.Prelude.{ℕ, Bool, true, false, not, ◌&&◌, Option, none, some, List, ◌==◌, if◌then◌else◌}
use dwrt.Hooks.{HookLibrary}
use dwrt.Testpoints.{
  record_initialize_call, record_initialize_reentrant_reject, record_shutdown_call,
}
use dwrt.Walker.Floats.{FloatApi}
use dwrt.Walker.Patrol.{reset_walker_patrol_counters}
use dwrt.FriendlyFire.{reset_friendly_fire_counters}
use dwrt.TargetProbe.State.{reset_target_probe_counters}
use dwrt.Shim.Loader.{RuntimeApi, unload, has_runtime}
use dwrt.Shim.Routes.{set_probe_mount_mask, probe_snapshot, probe_reset_counters}
use dwrt.Host.Lifecycle.State.{
  HostState, HostConfig, HostProcess, ProbeCounters, given_path, clear_server, prepare,
  host_abi_version, error_bad_argument, error_already_initialized, error_runtime_probe_failed,
  error_summary_write_failed, error_not_initialized,
}
use dwrt.Host.Lifecycle.Runtime.{load_runtime}
use dwrt.Host.Signatures.{has_flag, flag_require_runtime, flag_require_signatures}
use dwrt.Host.Install.{ok_status}
use dwrt.Host.Resolve.{ModuleApi, resolve_server_signatures}

module _ (fl : FloatApi) (lib : HookLibrary) (modules : ModuleApi) (api : RuntimeApi)
    (read_snapshot : api.World → ProbeCounters) where
  -- `write_summary_if_requested`, up to the text that it writes.
  unfoldable pub write_summary_if_requested : HostProcess → Option (List ℕ) → ℕ
  write_summary_if_requested p none = ok_status
  write_summary_if_requested p (some path) =
      if p.can_open path then ok_status else error_summary_write_failed

  unfoldable pub resolve_and_finish :
      HostProcess → HostConfig → HostState fl lib modules api → HostState fl lib modules api × ℕ
  resolve_and_finish p config s =
      let (server, status) =
        resolve_server_signatures lib modules p.manifest p.detours config.server s.server in
      let resolved = record s { server = server } in
      if not (status == ok_status) && has_flag config.server.flags flag_require_signatures
      then (resolved, status)
      else (
        record resolved { initialized = true },
        write_summary_if_requested p (given_path config.summary_path),
      )

  unfoldable pub after_runtime :
      HostProcess
      → HostConfig
      → HostState fl lib modules api × Option ℕ
      → HostState fl lib modules api × ℕ
  after_runtime p config (s, some status) = (s, status)
  after_runtime p config (s, none) = resolve_and_finish p config s

  -- With a configuration of the right version.
  unfoldable pub initialize_with :
      HostProcess → HostConfig → HostState fl lib modules api → HostState fl lib modules api × ℕ
  initialize_with p config s =
      if s.initialized
      then (
        record s { testpoints = record_initialize_reentrant_reject s.testpoints },
        error_already_initialized,
      )
      else after_runtime p config (
          load_runtime fl lib modules api read_snapshot
            (has_flag config.server.flags flag_require_runtime) p (given_path config.runtime_path)
            (prepare fl lib modules api p s))

  -- A null pointer is `none`.
  unfoldable pub dwrt_host_initialize :
      HostProcess
      → Option HostConfig
      → HostState fl lib modules api
      → HostState fl lib modules api × ℕ
  dwrt_host_initialize p none s =
      (record s { testpoints = record_initialize_call s.testpoints }, error_bad_argument)
  dwrt_host_initialize p (some config) s =
      let called = record s { testpoints = record_initialize_call s.testpoints } in
      if config.abi_version == host_abi_version
      then initialize_with p config called
      else (called, error_bad_argument)

  -- The test of the exports that steer the runtime.
  abbrev pub is_ready : HostState fl lib modules api → Bool
  is_ready s = s.initialized && has_runtime api s.runtime

  unfoldable pub dwrt_host_set_probe_mount_mask :
      ℕ → HostState fl lib modules api → HostState fl lib modules api × ℕ
  dwrt_host_set_probe_mount_mask mount_mask s =
      if is_ready s
      then (record s { runtime = set_probe_mount_mask api s.runtime mount_mask }, ok_status)
      else (s, error_not_initialized)

  unfoldable pub dwrt_host_reset_probe_counters :
      HostState fl lib modules api → HostState fl lib modules api × ℕ
  dwrt_host_reset_probe_counters s =
      if is_ready s
      then (
        record s {
          runtime = probe_reset_counters api s.runtime;
          walker = reset_walker_patrol_counters fl s.walker;
          friendly_fire = reset_friendly_fire_counters s.friendly_fire;
          probe = reset_target_probe_counters s.probe;
        },
        ok_status,
      )
      else (s, error_not_initialized)

  -- The snapshot is written by the runtime to the address `out`.
  unfoldable pub dwrt_host_probe_snapshot :
      (out : ℕ) → HostState fl lib modules api → HostState fl lib modules api × ℕ
  dwrt_host_probe_snapshot out s =
      let (runtime, written) = probe_snapshot api s.runtime out in
      if out == 0
      then (s, error_bad_argument)
      else if is_ready s
      then (
        record s { runtime = runtime },
        if written == 0 then error_runtime_probe_failed else ok_status,
      )
      else (s, error_not_initialized)

  unfoldable pub dwrt_host_shutdown :
      HostState fl lib modules api → HostState fl lib modules api × ℕ
  dwrt_host_shutdown s = (
    record s {
      runtime = unload api s.runtime;
      initialized = false;
      runtime_loaded = false;
      runtime_probe_ok = false;
      server = clear_server fl lib modules api s.server;
      testpoints = record_shutdown_call s.testpoints;
      walker = reset_walker_patrol_counters fl s.walker;
    },
    ok_status,
  )
