-- ===== src/Shim/Loader.antt =====
-- The life of the DLL and of the runtime in native/dwrt-shim/dwrt_shadow_shim.cpp. Handles and
-- pointers are numbers, and 0 is the null pointer.
use dwrt.Prelude.{
  ℕ, Bool, false, not, ◌&&◌, Option, none, some, List, [], ◌∷◌, ◌++◌, ◌==◌, if◌then◌else◌, codes,
  inc,
}
use dwrt.Shim.Counters.{DwrtShadowCounters, initial_counters, slow_threshold}

-- The operating system and the code of the DLL, with the state that they keep.
pub record RuntimeApi : Type 1 where
  pub World : Type 0
  pub load_library : World → List ℕ → World × ℕ
  pub free_library : World → ℕ → World
  -- `GetLastError()`, as it is printed.
  pub last_error : World → List ℕ
  pub get_proc_address : World → ℕ → List ℕ → ℕ
  -- A call of the function at an address, and what it returns.
  pub call : World → (function : ℕ) → (arguments : List ℕ) → World × ℕ
  pub query_performance_counter : World → World × ℕ
  pub query_performance_frequency : World → Option ℕ

-- The exports of the runtime DLL that the shim binds.
pub data Export : Type 0 where
  dwrt_abi_version dwrt_runtime_new dwrt_runtime_free dwrt_net_add_serialized : Export
  dwrt_net_add_user_fast dwrt_net_route dwrt_usercmd_set_mount_mask dwrt_usercmd_route : Export
  dwrt_probe_set_mount_mask dwrt_probe_record_damage dwrt_probe_record_entity_input : Export
  dwrt_probe_record_entity_output dwrt_probe_record_entity_touch dwrt_probe_snapshot : Export
  dwrt_probe_reset_counters : Export

abbrev pub export_index : Export → ℕ
export_index dwrt_abi_version = 0
export_index dwrt_runtime_new = 1
export_index dwrt_runtime_free = 2
export_index dwrt_net_add_serialized = 3
export_index dwrt_net_add_user_fast = 4
export_index dwrt_net_route = 5
export_index dwrt_usercmd_set_mount_mask = 6
export_index dwrt_usercmd_route = 7
export_index dwrt_probe_set_mount_mask = 8
export_index dwrt_probe_record_damage = 9
export_index dwrt_probe_record_entity_input = 10
export_index dwrt_probe_record_entity_output = 11
export_index dwrt_probe_record_entity_touch = 12
export_index dwrt_probe_snapshot = 13
export_index dwrt_probe_reset_counters = 14

unfoldable pub export_name : Export → List ℕ
export_name dwrt_abi_version = codes "dwrt_abi_version"
export_name dwrt_runtime_new = codes "dwrt_runtime_new"
export_name dwrt_runtime_free = codes "dwrt_runtime_free"
export_name dwrt_net_add_serialized = codes "dwrt_net_add_serialized"
export_name dwrt_net_add_user_fast = codes "dwrt_net_add_user_fast"
export_name dwrt_net_route = codes "dwrt_net_route"
export_name dwrt_usercmd_set_mount_mask = codes "dwrt_usercmd_set_mount_mask"
export_name dwrt_usercmd_route = codes "dwrt_usercmd_route"
export_name dwrt_probe_set_mount_mask = codes "dwrt_probe_set_mount_mask"
export_name dwrt_probe_record_damage = codes "dwrt_probe_record_damage"
export_name dwrt_probe_record_entity_input = codes "dwrt_probe_record_entity_input"
export_name dwrt_probe_record_entity_output = codes "dwrt_probe_record_entity_output"
export_name dwrt_probe_record_entity_touch = codes "dwrt_probe_record_entity_touch"
export_name dwrt_probe_snapshot = codes "dwrt_probe_snapshot"
export_name dwrt_probe_reset_counters = codes "dwrt_probe_reset_counters"

-- The order of the calls of `bind`.
abbrev pub bind_order : List Export
bind_order =
    dwrt_abi_version ∷ dwrt_runtime_new ∷ dwrt_runtime_free ∷ dwrt_net_add_serialized
    ∷ dwrt_net_add_user_fast ∷ dwrt_net_route ∷ dwrt_usercmd_set_mount_mask ∷ dwrt_usercmd_route
    ∷ dwrt_probe_set_mount_mask ∷ dwrt_probe_record_damage ∷ dwrt_probe_record_entity_input
    ∷ dwrt_probe_record_entity_output ∷ dwrt_probe_record_entity_touch ∷ dwrt_probe_snapshot
    ∷ dwrt_probe_reset_counters ∷ []

-- The pointers `abi_version_`, … of the shim.
abbrev pub Bindings : Type 0
Bindings = Export → ℕ

abbrev pub no_bindings : Bindings
no_bindings e = 0

abbrev pub write_binding : Bindings → Export → ℕ → Bindings
write_binding b e p x = if export_index x == export_index e then p else b x

module _ (api : RuntimeApi) where
  open api use {
    World, load_library, free_library, last_error, get_proc_address, call,
    query_performance_frequency,
  }

  pub record DwrtShadowShim : Type 0 where
    pub world : World
    pub handle : ℕ
    pub runtime : ℕ
    pub counters : DwrtShadowCounters
    pub timing_enabled : Bool
    pub bindings : Bindings

  abbrev frequency_or_zero : Option ℕ → ℕ
  frequency_or_zero none = 0
  frequency_or_zero (some f) = f

  -- `DwrtShadowShim::DwrtShadowShim`
  unfoldable pub construct : World → DwrtShadowShim
  construct w = record {
    world = w;
    handle = 0;
    runtime = 0;
    counters = initial_counters (frequency_or_zero (query_performance_frequency w));
    timing_enabled = false;
    bindings = no_bindings;
  }

  unfoldable pub destroy_runtime : DwrtShadowShim → DwrtShadowShim
  destroy_runtime s = record s {
    world =
        if not (s.runtime == 0) && not (s.bindings dwrt_runtime_free == 0)
        then (call s.world (s.bindings dwrt_runtime_free) (s.runtime ∷ [])).0
        else s.world;
    runtime = 0;
  }

  -- The DLL, once its runtime is gone.
  unfoldable pub release_module : DwrtShadowShim → DwrtShadowShim
  release_module s = if s.handle == 0 then record s { bindings = no_bindings } else record s {
    world = free_library s.world s.handle;
    handle = 0;
    counters = record s.counters { runtime_unloads = inc s.counters.runtime_unloads };
    bindings = no_bindings;
  }

  unfoldable pub unload : DwrtShadowShim → DwrtShadowShim
  unload s = release_module (destroy_runtime s)

  -- The chain of calls of `bind`: it stops at the first export that is missing.
  unfoldable pub bind_all : World → ℕ → List Export → Bindings → Bindings × Option Export
  bind_all w h [] b = (b, none)
  bind_all w h (e ∷ es) b =
      let p = get_proc_address w h (export_name e) in
      let rest = bind_all w h es (write_binding b e p) in if p == 0 then (b, some e) else rest

  -- The end of `load`, with what was bound, at the DLL's handle.
  unfoldable pub finish_load :
      DwrtShadowShim → ℕ → Bindings × Option Export → DwrtShadowShim × Option (List ℕ)
  finish_load s h (b, none) = (
    record s {
      handle = h;
      counters = record s.counters { runtime_loads = inc s.counters.runtime_loads };
      bindings = b;
    },
    none,
  )
  finish_load s h (b, some e) = (
    record s { world = free_library s.world h; bindings = no_bindings },
    some (codes "missing DWRT runtime export: " ++ export_name e),
  )

  -- The part of `load` that follows `unload`.
  unfoldable pub load_unloaded : DwrtShadowShim → List ℕ → DwrtShadowShim × Option (List ℕ)
  load_unloaded s runtime_path =
      let (w, h) = load_library s.world runtime_path in
      if h == 0
      then (
        record s { world = w },
        some
            (codes "failed to load DWRT runtime DLL (GetLastError=" ++ (last_error w ++ codes ")")),
      )
      else finish_load (record s { world = w }) h (bind_all w h bind_order s.bindings)

  -- The error text stands for the result `false`.
  unfoldable pub load : DwrtShadowShim → List ℕ → DwrtShadowShim × Option (List ℕ)
  load s runtime_path = load_unloaded (unload s) runtime_path

  abbrev count_create_failure : DwrtShadowShim → DwrtShadowShim
  count_create_failure s = record s {
    counters = record s.counters {
      runtime_create_failures = inc s.counters.runtime_create_failures;
    };
  }

  -- The part of `create_runtime` that follows `destroy_runtime`.
  unfoldable pub create_destroyed : DwrtShadowShim → DwrtShadowShim × Option (List ℕ)
  create_destroyed s =
      let (w, r) = call s.world (s.bindings dwrt_runtime_new) [] in
      if s.bindings dwrt_runtime_new == 0
      then (count_create_failure s, some (codes "DWRT runtime is not loaded"))
      else if r == 0
      then (
        count_create_failure (record s { world = w }),
        some (codes "dwrt_runtime_new returned null"),
      )
      else (record s { world = w; runtime = r }, none)

  unfoldable pub create_runtime : DwrtShadowShim → DwrtShadowShim × Option (List ℕ)
  create_runtime s = create_destroyed (destroy_runtime s)

  abbrev pub loaded : DwrtShadowShim → Bool
  loaded s = not (s.handle == 0)

  abbrev pub has_runtime : DwrtShadowShim → Bool
  has_runtime s = not (s.runtime == 0)

  unfoldable pub set_timing_enabled : DwrtShadowShim → Bool → DwrtShadowShim
  set_timing_enabled s enabled = record s { timing_enabled = enabled }

  unfoldable pub set_slow_threshold_ns : DwrtShadowShim → ℕ → DwrtShadowShim
  set_slow_threshold_ns s threshold_ns = record s {
    counters = record s.counters {
      slow_threshold_ticks = slow_threshold threshold_ns s.counters.qpc_ticks_per_second;
    };
  }
