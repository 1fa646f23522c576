-- ===== src/Shim/Routes.antt =====
-- The calls of the runtime in native/dwrt-shim/dwrt_shadow_shim.cpp. An `int32` argument is passed as
-- its 32 bits, and an event or a snapshot as its address.
use dwrt.Prelude.{ℕ, ◌+◌, ◌-◌, Bool, not, ◌&&◌, List, [], ◌∷◌, ◌==◌, if◌then◌else◌, u64}
use dwrt.Shim.Counters.{DwrtShadowCounters, count_route, record_duration}
use dwrt.Shim.Loader.{
  RuntimeApi, DwrtShadowShim, Export, dwrt_abi_version, dwrt_net_add_serialized,
  dwrt_net_add_user_fast, dwrt_net_route, dwrt_usercmd_set_mount_mask, dwrt_usercmd_route,
  dwrt_probe_set_mount_mask, dwrt_probe_record_damage, dwrt_probe_record_entity_input,
  dwrt_probe_record_entity_output, dwrt_probe_record_entity_touch, dwrt_probe_snapshot,
  dwrt_probe_reset_counters,
}

abbrev pub route_no_interest : ℕ
route_no_interest = 0

abbrev pub usercmd_route_no_work : ℕ
usercmd_route_no_work = 0

abbrev pub probe_route_no_interest : ℕ
probe_route_no_interest = 0

-- What `record_duration` is called with, for the three kinds of routes.
unfoldable pub record_net_duration : ℕ → DwrtShadowCounters → DwrtShadowCounters
record_net_duration elapsed c = record c {
  net_route = record_duration elapsed c.slow_threshold_ticks c.net_route;
}

unfoldable pub record_usercmd_duration : ℕ → DwrtShadowCounters → DwrtShadowCounters
record_usercmd_duration elapsed c = record c {
  usercmd_route = record_duration elapsed c.slow_threshold_ticks c.usercmd_route;
}

unfoldable pub record_probe_duration : ℕ → DwrtShadowCounters → DwrtShadowCounters
record_probe_duration elapsed c = record c {
  probe_route = record_duration elapsed c.slow_threshold_ticks c.probe_route;
}

-- The calls of `count_route`, for the three kinds of routes.
unfoldable pub count_net_route : ℕ → DwrtShadowCounters → DwrtShadowCounters
count_net_route route c = record c { net_routes = count_route c.net_routes route }

unfoldable pub count_usercmd_route : ℕ → DwrtShadowCounters → DwrtShadowCounters
count_usercmd_route route c = record c { usercmd_routes = count_route c.usercmd_routes route }

unfoldable pub count_probe_route : ℕ → DwrtShadowCounters → DwrtShadowCounters
count_probe_route route c = record c { probe_routes = count_route c.probe_routes route }

module _ (api : RuntimeApi) where
  open api use {World, call, query_performance_counter}

  -- A pointer of the shim is called with the runtime first, where both are there.
  unfoldable pub call_runtime :
      DwrtShadowShim api → Export → List ℕ → (otherwise : ℕ) → DwrtShadowShim api × ℕ
  call_runtime s e arguments otherwise =
      let (w, r) = call s.world (s.bindings e) (s.runtime ∷ arguments) in
      if not (s.runtime == 0) && not (s.bindings e == 0)
      then (record s { world = w }, r)
      else (s, otherwise)

  -- `timing_enabled_ ? qpc_now_ticks() : 0`
  unfoldable pub start_timing : DwrtShadowShim api → DwrtShadowShim api × ℕ
  start_timing s =
      let (w, ticks) = query_performance_counter s.world in
      if s.timing_enabled then (record s { world = w }, ticks) else (s, 0)

  -- `if (timing_enabled_) record_duration(qpc_now_ticks() - start, …);`
  unfoldable pub finish_timing :
      (ℕ → DwrtShadowCounters → DwrtShadowCounters) → ℕ → DwrtShadowShim api → DwrtShadowShim api
  finish_timing record_ticks start s =
      let (w, ticks) = query_performance_counter s.world in
      if s.timing_enabled
      then record s {
        world = w;
        counters = record_ticks (u64 (ticks + 18446744073709551616 - start)) s.counters;
      }
      else s

  -- The body that the calls of a route share.
  unfoldable pub route_call :
      (export : Export) (arguments : List ℕ) (otherwise : ℕ)
      (count : ℕ → DwrtShadowCounters → DwrtShadowCounters)
      (record_ticks : ℕ → DwrtShadowCounters → DwrtShadowCounters)
      → DwrtShadowShim api
      → DwrtShadowShim api × ℕ
  route_call export arguments otherwise count record_ticks s =
      let (s1, start) = start_timing s in
      let (s2, route) = call_runtime s1 export arguments otherwise in
      (finish_timing record_ticks start (record s2 { counters = count route s2.counters }), route)

  unfoldable pub shadow_route_net :
      DwrtShadowShim api
      → (direction msg_id has_user_msg_id user_msg_id : ℕ) → DwrtShadowShim api × ℕ
  shadow_route_net s direction msg_id has_user_msg_id user_msg_id =
      route_call dwrt_net_route (direction ∷ msg_id ∷ has_user_msg_id ∷ user_msg_id ∷ [])
        route_no_interest count_net_route record_net_duration s

  unfoldable pub shadow_route_usercmd : DwrtShadowShim api → DwrtShadowShim api × ℕ
  shadow_route_usercmd s =
      route_call dwrt_usercmd_route [] usercmd_route_no_work count_usercmd_route
        record_usercmd_duration s

  unfoldable pub probe_record_damage : DwrtShadowShim api → (event : ℕ) → DwrtShadowShim api × ℕ
  probe_record_damage s event =
      route_call dwrt_probe_record_damage (event ∷ []) probe_route_no_interest count_probe_route
        record_probe_duration s

  unfoldable pub probe_record_entity_input :
      DwrtShadowShim api → (event : ℕ) → DwrtShadowShim api × ℕ
  probe_record_entity_input s event =
      route_call dwrt_probe_record_entity_input (event ∷ []) probe_route_no_interest
        count_probe_route record_probe_duration s

  unfoldable pub probe_record_entity_output :
      DwrtShadowShim api → (event : ℕ) → DwrtShadowShim api × ℕ
  probe_record_entity_output s event =
      route_call dwrt_probe_record_entity_output (event ∷ []) probe_route_no_interest
        count_probe_route record_probe_duration s

  unfoldable pub probe_record_entity_touch :
      DwrtShadowShim api → (event : ℕ) → DwrtShadowShim api × ℕ
  probe_record_entity_touch s event =
      route_call dwrt_probe_record_entity_touch (event ∷ []) probe_route_no_interest
        count_probe_route record_probe_duration s

  -- `dwrt_abi_version` is called without a runtime.
  unfoldable pub abi_version : DwrtShadowShim api → DwrtShadowShim api × ℕ
  abi_version s =
      let (w, v) = call s.world (s.bindings dwrt_abi_version) [] in
      if s.bindings dwrt_abi_version == 0 then (s, 0) else (record s { world = w }, v)

  unfoldable pub add_net_user_fast : DwrtShadowShim api → ℕ → DwrtShadowShim api × Bool
  add_net_user_fast s user_msg_id =
      let (t, r) = call_runtime s dwrt_net_add_user_fast (user_msg_id ∷ []) 0 in (t, not (r == 0))

  unfoldable pub add_net_serialized : DwrtShadowShim api → ℕ → ℕ → DwrtShadowShim api × Bool
  add_net_serialized s direction msg_id =
      let (t, r) = call_runtime s dwrt_net_add_serialized (direction ∷ msg_id ∷ []) 0 in
      (t, not (r == 0))

  unfoldable pub set_usercmd_mount_mask : DwrtShadowShim api → ℕ → DwrtShadowShim api
  set_usercmd_mount_mask s mask = (call_runtime s dwrt_usercmd_set_mount_mask (mask ∷ []) 0).0

  unfoldable pub set_probe_mount_mask : DwrtShadowShim api → ℕ → DwrtShadowShim api
  set_probe_mount_mask s mask = (call_runtime s dwrt_probe_set_mount_mask (mask ∷ []) 0).0

  -- The snapshot is written by the runtime, at the address `out`.
  unfoldable pub probe_snapshot : DwrtShadowShim api → (out : ℕ) → DwrtShadowShim api × ℕ
  probe_snapshot s out = call_runtime s dwrt_probe_snapshot (out ∷ []) 0

  unfoldable pub probe_reset_counters : DwrtShadowShim api → DwrtShadowShim api
  probe_reset_counters s = (call_runtime s dwrt_probe_reset_counters [] 0).0
