-- ===== src/Testpoints.antt =====
-- native/dwrt-host/dwrt_host_testpoints.cpp and .hpp: counters of the host's calls and the scopes
-- that track how deep one thread is inside the host's callbacks. Here one thread runs; Concurrent
-- has the others.
pub mod Nesting
pub mod Concurrent
mod Tests
use dwrt.Prelude.{ℕ, ◌+◌, ◌-◌, Bool, true, false, not, ltb, ◌==◌, if◌then◌else◌, u32, inc}

-- The globals and `t_callback_depth`; also `HostTestpointSnapshot`, which has the same fields.
pub record Testpoints : Type 0 where
  pub initialize_calls : ℕ
  pub initialize_reentrant_rejects : ℕ
  pub shutdown_calls : ℕ
  pub callback_entries : ℕ
  pub callback_recursive_entries : ℕ
  pub callback_current_depth : ℕ
  pub callback_max_depth : ℕ

unfoldable pub record_initialize_call : Testpoints → Testpoints
record_initialize_call t = record t { initialize_calls = inc t.initialize_calls }

unfoldable pub record_initialize_reentrant_reject : Testpoints → Testpoints
record_initialize_reentrant_reject t = record t {
  initialize_reentrant_rejects = inc t.initialize_reentrant_rejects;
}

unfoldable pub record_shutdown_call : Testpoints → Testpoints
record_shutdown_call t = record t { shutdown_calls = inc t.shutdown_calls }

unfoldable pub reset_testpoints : Testpoints → Testpoints
reset_testpoints t = record {
  initialize_calls = 0;
  initialize_reentrant_rejects = 0;
  shutdown_calls = 0;
  callback_entries = 0;
  callback_recursive_entries = 0;
  callback_current_depth = 0;
  callback_max_depth = 0;
}

-- The loads of the snapshot.
unfoldable pub testpoint_snapshot : Testpoints → Testpoints
testpoint_snapshot t = record {
  initialize_calls = t.initialize_calls;
  initialize_reentrant_rejects = t.initialize_reentrant_rejects;
  shutdown_calls = t.shutdown_calls;
  callback_entries = t.callback_entries;
  callback_recursive_entries = t.callback_recursive_entries;
  callback_current_depth = t.callback_current_depth;
  callback_max_depth = t.callback_max_depth;
}

-- `CallbackScope`
pub record CallbackScope : Type 0 where
  pub point_id : ℕ
  pub depth : ℕ
  pub recursive : Bool

-- `update_max_depth` where no other thread writes.
unfoldable pub raise_max_depth : ℕ → ℕ → ℕ
raise_max_depth depth previous = if ltb previous depth then depth else previous

-- The constructor.
unfoldable pub enter_callback : Testpoints → ℕ → Testpoints × CallbackScope
enter_callback t point_id =
    let depth = u32 (t.callback_current_depth + 1) in
    let recursive = not (t.callback_current_depth == 0) in
    (
      record t {
        callback_current_depth = depth;
        callback_entries = inc t.callback_entries;
        callback_recursive_entries =
            if recursive then inc t.callback_recursive_entries else t.callback_recursive_entries;
        callback_max_depth = raise_max_depth depth t.callback_max_depth;
      },
      record { point_id = point_id; depth = depth; recursive = recursive },
    )

-- The destructor.
unfoldable pub leave_callback : Testpoints → Testpoints
leave_callback t =
    if t.callback_current_depth == 0
    then t
    else record t { callback_current_depth = t.callback_current_depth - 1 }
