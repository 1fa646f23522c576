-- ===== src/Host/Lifecycle/Tests.antt =====
-- A host that was never started, for native/dwrt-host/dwrt_host.cpp.
use dwrt.Prelude.{ℕ, ◌≡◌, refl, true, false, none, some, List, [], ◌∷◌, arith, codes}
use dwrt.Walker.Tests.{whole_floats, patrolling_state}
use dwrt.Shim.Loader.{construct}
use dwrt.Shim.Runs.{run-IsConsistent, loads, Released}
use dwrt.Shim.Tests.{logging_api}
use dwrt.FriendlyFire.Tests.{switched_on_state}
use dwrt.TargetProbe.Tests.{test_probe}
use dwrt.Host.Signatures.{has_flag}
use dwrt.Host.Install.{ok_status}
use dwrt.Host.Resolve.Tests.{mapping_api, no_hooks, idle}
use dwrt.Host.Detours.Tests.{quiet}
use dwrt.Host.Lifecycle.State.{HostState, HostConfig, HostProcess, ProbeCounters}
use dwrt.Host.Lifecycle.Exports.{dwrt_host_initialize, dwrt_host_shutdown}
use dwrt.Host.Lifecycle.Sound.{IsSound}
use dwrt.Host.Lifecycle.Runs.{
  initializes, masks, records_damage, records_input, records_output, shuts_down, run,
  run_exports-IsSound, IsStopped, shutdown-IsStopped,
}
use dwrt.Host.Lifecycle.Restart.{IsRunning, initialize-shutdown}
use dwrt.Shim.Runs as ShimRuns

abbrev expected : List ℕ → ProbeCounters
expected w = record {
  damage_seen = 1;
  damage_counted = 1;
  entity_input_seen = 1;
  entity_input_counted = 1;
}

abbrev empty_process : HostProcess
empty_process = record {
  environment = λ name size. (0, []);
  manifest = [];
  detours = λ s. 1;
  damage = 64;
  input = 128;
  snapshot = 192;
  can_open = λ path. false;
}

abbrev plain_config : HostConfig
plain_config = record {
  abi_version = 1;
  runtime_path = some (codes "dwrt.dll");
  server = record { flags = 0; server_module_name = none; server_path = none };
  summary_path = some (codes "summary.json");
}

abbrev stopped_host : HostState whole_floats no_hooks mapping_api logging_api
stopped_host = record {
  runtime = ShimRuns.run logging_api (construct logging_api []) (loads (codes "old.dll") ∷ []);
  initialized = false;
  runtime_loaded = false;
  runtime_probe_ok = false;
  server = idle;
  testpoints = quiet;
  walker = patrolling_state;
  friendly_fire = switched_on_state;
  probe = test_probe;
}

stopped_host-IsSound : IsSound whole_floats no_hooks mapping_api logging_api expected stopped_host
stopped_host-IsSound = record {
  shim = run-IsConsistent logging_api [] (loads (codes "old.dll") ∷ []);
  loaded = λ h. ground arith;
  probed = λ h. ground arith;
}

run_exports-IsSound_example : IsSound whole_floats no_hooks mapping_api logging_api expected (
    run whole_floats no_hooks mapping_api logging_api expected empty_process stopped_host (
      initializes (some plain_config)
      ∷ masks 3
      ∷ records_damage 64
      ∷ records_input 128
      ∷ records_output 128
      ∷ shuts_down
      ∷ []))
run_exports-IsSound_example =
    run_exports-IsSound whole_floats no_hooks mapping_api logging_api expected empty_process
      stopped_host
      (initializes (some plain_config)
        ∷ masks 3
        ∷ records_damage 64
        ∷ records_input 128
        ∷ records_output 128
        ∷ shuts_down
        ∷ [])
      stopped_host-IsSound

shutdown-IsStopped_example :
    let r =
      dwrt_host_shutdown whole_floats no_hooks mapping_api logging_api expected stopped_host in
    (r.1 ≡ ok_status)
    × (IsStopped whole_floats no_hooks mapping_api logging_api expected r.0
        × Released logging_api stopped_host.runtime r.0.runtime)
shutdown-IsStopped_example =
    shutdown-IsStopped whole_floats no_hooks mapping_api logging_api expected stopped_host
      (run-IsConsistent logging_api [] (loads (codes "old.dll") ∷ []))

abbrev running_host : HostState whole_floats no_hooks mapping_api logging_api
running_host = record stopped_host { initialized = true; runtime_loaded = true }

no_flag : has_flag 0 1 ≡ false
unfolding has_flag
no_flag = refl

no_signature_flag : has_flag 0 2 ≡ false
unfolding has_flag
no_signature_flag = refl

initialize-shutdown_example :
    IsRunning whole_floats no_hooks mapping_api logging_api expected empty_process plain_config (
      dwrt_host_initialize whole_floats no_hooks mapping_api logging_api expected empty_process
        (some plain_config)
        (dwrt_host_shutdown whole_floats no_hooks mapping_api logging_api expected running_host).0)
initialize-shutdown_example =
    initialize-shutdown whole_floats no_hooks mapping_api logging_api expected empty_process
      plain_config running_host refl no_flag no_signature_flag
