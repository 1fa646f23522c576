-- ===== src/Host/Lifecycle/State.antt =====
-- The state of native/dwrt-host/dwrt_host.cpp, what the process gives it, and how it is cleared.
use dwrt.Prelude.{ℕ, Bool, false, Option, none, some, List, [], if◌then◌else◌, null}
use dwrt.Environment.{GetVariable}
use dwrt.Hooks.{HookLibrary}
use dwrt.Manifest.{SignatureDescriptor}
use dwrt.Testpoints.{Testpoints}
use dwrt.Walker.Floats.{FloatApi}
use dwrt.Walker.Patrol.{
  WalkerPatrolState, configure_walker_patrol_from_environment, reset_walker_patrol_counters,
}
use dwrt.FriendlyFire.{
  FriendlyFireState, configure_friendly_fire_from_environment, reset_friendly_fire_counters,
}
use dwrt.TargetProbe.State.{TargetProbeState, reset_target_probe_counters}
use dwrt.TargetProbe.Settings.{configure_target_probe_from_environment}
use dwrt.Shim.Loader.{RuntimeApi, DwrtShadowShim}
use dwrt.Shim.Routes.{}
use dwrt.Host.Install.{Originals, clear_hooks}
use dwrt.Host.Resolve.{ModuleApi, ServerConfig, ServerState}

abbrev pub host_abi_version : ℕ
host_abi_version = 1

abbrev pub runtime_abi_version : ℕ
runtime_abi_version = 1

abbrev pub error_bad_argument : ℕ
error_bad_argument = 1

abbrev pub error_already_initialized : ℕ
error_already_initialized = 2

abbrev pub error_runtime_load_failed : ℕ
error_runtime_load_failed = 3

abbrev pub error_runtime_abi_mismatch : ℕ
error_runtime_abi_mismatch = 4

abbrev pub error_runtime_create_failed : ℕ
error_runtime_create_failed = 5

abbrev pub error_runtime_probe_failed : ℕ
error_runtime_probe_failed = 6

abbrev pub error_summary_write_failed : ℕ
error_summary_write_failed = 9

abbrev pub error_not_initialized : ℕ
error_not_initialized = 11

-- The counters of the runtime's snapshot that the host tests.
pub record ProbeCounters : Type 0 where
  pub damage_seen : ℕ
  pub damage_counted : ℕ
  pub entity_input_seen : ℕ
  pub entity_input_counted : ℕ

-- `DwrtHostConfig`; the members that name the server are a ServerConfig.
pub record HostConfig : Type 0 where
  pub abi_version : ℕ
  pub runtime_path : Option (List ℕ)
  pub server : ServerConfig
  pub summary_path : Option (List ℕ)

-- What the process gives the host: the environment, the table of signatures, the addresses of the detours,
-- those of three structures on the stack, and whether a summary file can be opened.
pub record HostProcess : Type 0 where
  pub environment : GetVariable
  pub manifest : List SignatureDescriptor
  pub detours : Originals
  pub damage : ℕ
  pub input : ℕ
  pub snapshot : ℕ
  pub can_open : List ℕ → Bool

-- A path that is given and not empty.
abbrev pub given_path : Option (List ℕ) → Option (List ℕ)
given_path none = none
given_path (some path) = if null path then none else some path

module _ (fl : FloatApi) (lib : HookLibrary) (modules : ModuleApi) (api : RuntimeApi) where
  -- `g_state`, the pointers to the originals and the globals of the other files.
  pub record HostState : Type 0 where
    pub runtime : DwrtShadowShim api
    pub initialized : Bool
    pub runtime_loaded : Bool
    pub runtime_probe_ok : Bool
    pub server : ServerState lib modules
    pub testpoints : Testpoints
    pub walker : WalkerPatrolState fl
    pub friendly_fire : FriendlyFireState
    pub probe : TargetProbeState

  abbrev pub set_error : HostState → List ℕ → HostState
  set_error s message = record s {
    server = record s.server { hooks = record s.server.hooks { last_error = message } };
  }

  -- `g_state.hooks.reset()` and the assignments to the members that belong to one initialisation.
  unfoldable pub clear_server : ServerState lib modules → ServerState lib modules
  clear_server s =
      let hooks = clear_hooks lib s.hooks in
      record s {
        hooks = record hooks {
          hook_install_attempts = 0;
          hooks_installed = 0;
          hook_install_failures = 0;
          last_error = [];
        };
        signatures_checked = false;
        used_live_server_module = false;
        used_mapped_file_fallback = false;
        signature_required_failures = 0;
        signatures = [];
      }

  -- The part of `dwrt_host_initialize` that clears what an earlier one left.
  unfoldable pub prepare : HostProcess → HostState → HostState
  prepare p s = record s {
    runtime_loaded = false;
    runtime_probe_ok = false;
    server = clear_server s.server;
    walker =
        configure_walker_patrol_from_environment fl p.environment
          (reset_walker_patrol_counters fl s.walker);
    friendly_fire =
        configure_friendly_fire_from_environment p.environment
          (reset_friendly_fire_counters s.friendly_fire);
    probe =
        configure_target_probe_from_environment p.environment (reset_target_probe_counters s.probe);
  }
