-- ===== src/Shim/Counters.antt =====
-- DwrtShadowCounters, count_route, record_duration and set_slow_threshold_ns of
-- native/dwrt-shim/dwrt_shadow_shim.cpp and .hpp.
use dwrt.Prelude.{
  ℕ, ◌+◌, ◌*◌, ◌/◌, not, ◌&&◌, ◌||◌, List, [], ◌∷◌, leb, ltb, ◌==◌, if◌then◌else◌, length, get_or,
  set, u64, inc,
}

-- The three counters `…_total_ticks`, `…_max_ticks` and `…_slow_calls` of one kind of route.
pub record RouteTicks : Type 0 where
  pub total_ticks : ℕ
  pub max_ticks : ℕ
  pub slow_calls : ℕ

pub record DwrtShadowCounters : Type 0 where
  pub runtime_loads : ℕ
  pub runtime_unloads : ℕ
  pub runtime_create_failures : ℕ
  pub net_routes : List ℕ
  pub usercmd_routes : List ℕ
  pub probe_routes : List ℕ
  pub qpc_ticks_per_second : ℕ
  pub slow_threshold_ticks : ℕ
  pub net_route : RouteTicks
  pub usercmd_route : RouteTicks
  pub probe_route : RouteTicks

abbrev pub no_ticks : RouteTicks
no_ticks = record { total_ticks = 0; max_ticks = 0; slow_calls = 0 }

-- The default members; `frequency` is what the constructor of the shim asks for.
abbrev pub initial_counters : (frequency : ℕ) → DwrtShadowCounters
initial_counters frequency = record {
  runtime_loads = 0;
  runtime_unloads = 0;
  runtime_create_failures = 0;
  net_routes = 0 ∷ 0 ∷ 0 ∷ 0 ∷ [];
  usercmd_routes = 0 ∷ 0 ∷ 0 ∷ 0 ∷ 0 ∷ [];
  probe_routes = 0 ∷ 0 ∷ [];
  qpc_ticks_per_second = frequency;
  slow_threshold_ticks = 0;
  net_route = no_ticks;
  usercmd_route = no_ticks;
  probe_route = no_ticks;
}

-- `if (route < length) counters[route] += 1;`
unfoldable pub count_route : List ℕ → ℕ → List ℕ
count_route counters route =
    if ltb route (length counters)
    then set counters route (inc (get_or counters route 0))
    else counters

unfoldable pub record_duration : (elapsed_ticks slow_threshold_ticks : ℕ) → RouteTicks → RouteTicks
record_duration elapsed threshold t = record {
  total_ticks = u64 (t.total_ticks + elapsed);
  max_ticks = if ltb t.max_ticks elapsed then elapsed else t.max_ticks;
  slow_calls =
      if not (threshold == 0) && leb threshold elapsed then inc t.slow_calls else t.slow_calls;
}

-- `(threshold_ns * counters_.qpc_ticks_per_second) / 1'000'000'000ULL`, the product in 64 bits.
abbrev pub threshold_ticks : ℕ → ℕ → ℕ
threshold_ticks threshold_ns per_second = u64 (threshold_ns * per_second) / 1000000000

unfoldable pub slow_threshold : ℕ → ℕ → ℕ
slow_threshold threshold_ns per_second =
    let ticks = threshold_ticks threshold_ns per_second in
    if per_second == 0 || threshold_ns == 0 then 0 else if ticks == 0 then 1 else ticks
