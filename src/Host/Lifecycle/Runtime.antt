-- ===== src/Host/Lifecycle/Runtime.antt =====
-- The part of dwrt_host_initialize in native/dwrt-host/dwrt_host.cpp that loads and tries the runtime.
use dwrt.Prelude.{ℕ, Bool, true, not, ◌&&◌, Option, none, some, List, ◌==◌, if◌then◌else◌, codes}
use dwrt.Hooks.{HookLibrary}
use dwrt.Testpoints.{}
use dwrt.Walker.Floats.{FloatApi}
use dwrt.Walker.Patrol.{}
use dwrt.FriendlyFire.{}
use dwrt.Shim.Loader.{RuntimeApi, DwrtShadowShim, load, create_runtime}
use dwrt.Shim.Routes.{
  abi_version, probe_record_damage, probe_record_entity_input, set_probe_mount_mask, probe_snapshot,
  probe_reset_counters,
}
use dwrt.Host.Lifecycle.State.{
  HostState, HostProcess, ProbeCounters, set_error, runtime_abi_version, error_runtime_load_failed,
  error_runtime_abi_mismatch, error_runtime_create_failed, error_runtime_probe_failed,
}
use dwrt.Host.Resolve.{ModuleApi}

module _ (fl : FloatApi) (lib : HookLibrary) (modules : ModuleApi) (api : RuntimeApi)
    (read_snapshot : api.World → ProbeCounters) where
  -- Whether the counters of the runtime are those of one damage event and one input.
  unfoldable pub is_expected : ProbeCounters → Bool
  is_expected c =
      c.damage_seen == 1
      && (c.damage_counted == 1 && (c.entity_input_seen == 1 && c.entity_input_counted == 1))

  -- The mask has the bits of damage and of inputs.
  unfoldable pub exercise_probe_abi : HostProcess → DwrtShadowShim api → DwrtShadowShim api × Bool
  exercise_probe_abi p runtime =
      let (r1, no_interest) = probe_record_damage api runtime p.damage in
      let (r2, damage_route) = probe_record_damage api (set_probe_mount_mask api r1 3) p.damage in
      let (r3, input_route) = probe_record_entity_input api r2 p.input in
      let (r4, snapshot_ok) = probe_snapshot api r3 p.snapshot in
      (
        probe_reset_counters api (set_probe_mount_mask api r4 0),
        no_interest == 0
            && (damage_route == 1
                && (input_route == 1
                    && (not (snapshot_ok == 0) && is_expected (read_snapshot r4.world)))),
      )

  -- A failure that counts only where the runtime is required.
  unfoldable pub fail_if_required :
      (required : Bool) → HostState fl lib modules api → ℕ → HostState fl lib modules api × Option ℕ
  fail_if_required required s status = (s, if required then some status else none)

  unfoldable pub probe_runtime :
      (required : Bool)
      → HostProcess
      → HostState fl lib modules api
      → HostState fl lib modules api × Option ℕ
  probe_runtime required p s =
      let (runtime, probed) = exercise_probe_abi p s.runtime in
      let t = record s { runtime = runtime; runtime_probe_ok = probed } in
      if not probed && required
      then (
        set_error fl lib modules api t (codes "DWRT runtime probe ABI smoke mismatch"),
        some error_runtime_probe_failed,
      )
      else (t, none)

  unfoldable pub start_runtime :
      (required : Bool)
      → HostProcess
      → HostState fl lib modules api
      → DwrtShadowShim api × Option (List ℕ)
      → HostState fl lib modules api × Option ℕ
  start_runtime required p s (runtime, some message) =
      fail_if_required required
        (set_error fl lib modules api (record s { runtime = runtime }) message)
        error_runtime_create_failed
  start_runtime required p s (runtime, none) =
      probe_runtime required p (record s { runtime = runtime })

  -- After the DLL has been loaded.
  unfoldable pub check_runtime :
      (required : Bool)
      → HostProcess
      → HostState fl lib modules api
      → HostState fl lib modules api × Option ℕ
  check_runtime required p s =
      let (runtime, version) = abi_version api s.runtime in
      let asked = record s { runtime = runtime } in
      if not (version == runtime_abi_version)
      then fail_if_required required
          (set_error fl lib modules api asked (codes "unexpected DWRT runtime ABI version"))
          error_runtime_abi_mismatch
      else start_runtime required p asked (create_runtime api runtime)

  unfoldable pub finish_runtime_load :
      (required : Bool)
      → HostProcess
      → HostState fl lib modules api
      → DwrtShadowShim api × Option (List ℕ)
      → HostState fl lib modules api × Option ℕ
  finish_runtime_load required p s (runtime, some message) =
      fail_if_required required
        (set_error fl lib modules api (record s { runtime = runtime }) message)
        error_runtime_load_failed
  finish_runtime_load required p s (runtime, none) =
      check_runtime required p (record s { runtime = runtime; runtime_loaded = true })

  -- The runtime's part of `dwrt_host_initialize`: the state, and the status if it returns there.
  unfoldable pub load_runtime :
      (required : Bool)
      → HostProcess
      → Option (List ℕ)
      → HostState fl lib modules api
      → HostState fl lib modules api × Option ℕ
  load_runtime required p none s =
      if required
      then (
        set_error fl lib modules api s (codes "runtime path is required"),
        some error_runtime_load_failed,
      )
      else (s, none)
  load_runtime required p (some path) s = finish_runtime_load required p s (load api s.runtime path)
