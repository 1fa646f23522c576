-- ===== src/Testpoints/Tests.antt =====
-- Nested callbacks and racing threads, for native/dwrt-host/dwrt_host_testpoints.cpp.
use dwrt.Prelude.{◌≡◌, ◌++◌, refl, true, false, some, List, [], ◌∷◌, arith}
use dwrt.Testpoints.{Testpoints, raise_max_depth, enter_callback, leave_callback}
use dwrt.Testpoints.Nesting.{Callbacks, finished, callback, run_callbacks, Ran, run_callbacks-Ran}
use dwrt.Testpoints.Concurrent.{Attempt, quiet_attempt, update_max_depth, update_max_depth_quiet}

abbrev start : Testpoints
start = record {
  initialize_calls = 1;
  initialize_reentrant_rejects = 0;
  shutdown_calls = 0;
  callback_entries = 0;
  callback_recursive_entries = 0;
  callback_current_depth = 0;
  callback_max_depth = 0;
}

-- A damage callback with an input inside it, then another damage callback.
abbrev damage_with_input : Callbacks
damage_with_input = callback 1 (callback 2 finished finished) (callback 1 finished finished)

damage_with_input_ends :
    run_callbacks start damage_with_input
    ≡ record start { callback_entries = 3; callback_recursive_entries = 1; callback_max_depth = 2 }
unfolding run_callbacks enter_callback leave_callback raise_max_depth
damage_with_input_ends = refl

run_callbacks-Ran_example : Ran start (run_callbacks start damage_with_input) damage_with_input 1
run_callbacks-Ran_example = run_callbacks-Ran start damage_with_input (omega arith) (omega arith)

-- Another thread records 5, then the maximum is reset and the exchange fails once without reason.
abbrev race : List Attempt
race =
    record { other_depth = 5; resets = false; spurious = false }
    ∷ record { other_depth = 3; resets = true; spurious = true }
    ∷ []

race_ends : update_max_depth 7 2 2 (race ++ (quiet_attempt ∷ [])) ≡ some 7
unfolding update_max_depth
race_ends = refl

update_max_depth_quiet_example :
    update_max_depth 3 2 2 (quiet_attempt ∷ []) ≡ some (raise_max_depth 3 2)
update_max_depth_quiet_example = update_max_depth_quiet 3 2 []
