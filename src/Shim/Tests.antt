-- ===== src/Shim/Tests.antt =====
-- A DLL that logs what is done with it, for native/dwrt-shim/dwrt_shadow_shim.cpp.
use dwrt.Prelude.{ℕ, ◌+◌, ◌-◌, ◌≡◌, arith, refl, some, List, [], ◌∷◌, codes, length, u64, true}
use dwrt.Shim.Counters.{no_ticks, record_duration}
use dwrt.Shim.Durations.{record_durations, total, maximum, slow, record_durations_lem}
use dwrt.Shim.Loader.{RuntimeApi, construct, unload, load}
use dwrt.Shim.Loading.{Loaded, IsEmpty, load-Loaded}
use dwrt.Shim.Consistency.{IsConsistent}
use dwrt.Shim.Opened.{IsCounting}
use dwrt.Shim.Runs.{
  Call, loads, creates, times, records_damage, run, Released, run-IsConsistent, unload-run,
}

-- The log has 1 for a load, 2 for a free, and the address of a function that is called.
abbrev pub logging_api : RuntimeApi
logging_api = record {
  World = List ℕ;
  load_library = λ w path. (1 ∷ w, 7);
  free_library = λ w h. 2 ∷ w;
  last_error = λ w. codes "5";
  get_proc_address = λ w h name. 100 + length name;
  call = λ w f arguments. (f ∷ w, 1);
  query_performance_counter = λ w. (w, length w);
  query_performance_frequency = λ w. some 1000;
}

load-Loaded_example :
    Loaded logging_api
      (1 ∷ (unload logging_api (construct logging_api [])).world)
      7
      (load logging_api (construct logging_api []) (codes "dwrt_runtime.dll"))
load-Loaded_example = load-Loaded logging_api (construct logging_api []) (codes "dwrt_runtime.dll")

run-IsConsistent_example : IsConsistent logging_api (
    run logging_api
      (construct logging_api [])
      (loads (codes "dwrt_runtime.dll") ∷ creates ∷ times true ∷ records_damage 4096 ∷ []))
run-IsConsistent_example =
    run-IsConsistent logging_api []
      (loads (codes "dwrt_runtime.dll") ∷ creates ∷ times true ∷ records_damage 4096 ∷ [])

-- A system whose state is the number of DLLs that are open.
abbrev counting_api : RuntimeApi
counting_api = record {
  World = ℕ;
  load_library = λ w path. (w + 1, 7);
  free_library = λ w h. w - 1;
  last_error = λ w. codes "5";
  get_proc_address = λ w h name. 100 + length name;
  call = λ w f arguments. (w, 1);
  query_performance_counter = λ w. (w, 64);
  query_performance_frequency = λ w. some 1000;
}

counting_api-IsCounting : IsCounting counting_api (λ w. w)
counting_api-IsCounting = record {
  given = λ w path h. refl;
  refused = λ w path h. ground (arith, h);
  freed = λ w h n. refl;
  called = λ w f arguments. refl;
  queried = λ w. refl;
}

abbrev calls : List (Call counting_api)
calls =
    loads (codes "old_runtime.dll")
    ∷ creates
    ∷ loads (codes "dwrt_runtime.dll")
    ∷ creates
    ∷ records_damage 4096
    ∷ []

unload-run_example :
    let s = run counting_api (construct counting_api 3) calls in
    let u = unload counting_api s in
    (u.world ≡ 3)
    × (IsEmpty counting_api u
        × ((u.counters.runtime_loads ≡ u64 u.counters.runtime_unloads) × Released counting_api s u))
unload-run_example = unload-run counting_api (λ w. w) counting_api-IsCounting 3 calls

record_durations_lem_example : record_durations 50 no_ticks (10 ∷ 70 ∷ 50 ∷ []) ≡ record {
  total_ticks = u64 (total (10 ∷ 70 ∷ 50 ∷ []));
  max_ticks = maximum (10 ∷ 70 ∷ 50 ∷ []);
  slow_calls = u64 (slow 50 (10 ∷ 70 ∷ 50 ∷ []));
}
record_durations_lem_example = record_durations_lem 50 (10 ∷ 70 ∷ 50 ∷ [])

three_durations :
    record_durations 50 no_ticks (10 ∷ 70 ∷ 50 ∷ [])
    ≡ record { total_ticks = 130; max_ticks = 70; slow_calls = 2 }
unfolding record_durations record_duration
three_durations = refl
