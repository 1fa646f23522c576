-- ===== src/Host/Lifecycle/Outcomes.antt =====
-- native/dwrt-host/dwrt_host.cpp: what dwrt_host_initialize leaves for each status that it returns.
use dwrt.Prelude.{ℕ, ◌≡◌, ◌≢◌, ◌⊎◌, Bool, true, false, Option, none, some, ◌==◌}
use dwrt.Hooks.{HookLibrary}
use dwrt.Testpoints.{record_initialize_call, record_initialize_reentrant_reject}
use dwrt.Walker.Floats.{FloatApi}
use dwrt.Shim.Loader.{RuntimeApi}
use dwrt.Shim.Routes.{abi_version}
use dwrt.Host.Install.{ok_status}
use dwrt.Host.Resolve.{ModuleApi}
use dwrt.Host.Lifecycle.State.{
  ProbeCounters, HostState, HostConfig, error_bad_argument, error_already_initialized,
  error_summary_write_failed,
}

module _ (fl : FloatApi) (lib : HookLibrary) (modules : ModuleApi) (api : RuntimeApi)
    (read_snapshot : api.World → ProbeCounters) where
  abbrev State : Type 0
  State = HostState fl lib modules api

  -- A configuration is there, and it has the version of the host.
  abbrev pub IsOffered : Option HostConfig → Type 0
  IsOffered none = ⊥
  IsOffered (some config) = config.abi_version ≡ 1

  -- What `dwrt_host_initialize` has done to a state, with what it returns, for a configuration. A call that
  -- is refused changes the counters of calls only.
  pub data Initialized (config : Option HostConfig) (s : State) : State × ℕ → Type 0 where
    refused :
        (IsOffered config → ⊥)
        → Initialized config s
            (record s { testpoints = record_initialize_call s.testpoints }, error_bad_argument)
    running :
        IsOffered config
        → s.initialized ≡ true
        → Initialized config s (
          record s {
            testpoints = record_initialize_reentrant_reject (record_initialize_call s.testpoints);
          },
          error_already_initialized,
        )
    started :
        {t : State} {status : ℕ}
        → IsOffered config
        → s.initialized ≡ false
        → t.initialized ≡ true
        → (status ≡ ok_status) ⊎ (status ≡ error_summary_write_failed)
        → Initialized config s (t, status)
    failed :
        {t : State} {status : ℕ}
        → IsOffered config
        → s.initialized ≡ false
        → t.initialized ≡ false
        → status ≢ ok_status
        → Initialized config s (t, status)

  abbrev is_ok : Option ℕ → Bool
  is_ok none = false
  is_ok (some status) = status == ok_status

  -- The runtime's part does not initialise the host, and a status that it returns is an error.
  abbrev IsStarted : Bool → State × Option ℕ → Type 0
  IsStarted before (s, o) = (s.initialized ≡ before) × (is_ok o ≡ false)

  -- The end of an initialisation of a host that was not initialised.
  abbrev Finished : State → State × ℕ → Type 0
  Finished s (t, status) =
      s.initialized ≡ false
      → ((t.initialized ≡ true) × ((status ≡ ok_status) ⊎ (status ≡ error_summary_write_failed)))
        ⊎ ((t.initialized ≡ false) × (status ≢ ok_status))
