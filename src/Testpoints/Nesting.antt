-- ===== src/Testpoints/Nesting.antt =====
-- The callback scopes of native/dwrt-host/dwrt_host_testpoints.cpp over callbacks that call one
-- another: the depth comes back to what it was, and the counters tell what happened.
use dwrt.Prelude.{
  ℕ, suc, ◌+◌, ◌≤◌, ◌<◌, ◌≡◌, refl, ◌∙◌, arith, u32_max, u64, inc, max, ◌==◌, if◌then◌else◌,
}
use dwrt.Testpoints.{Testpoints, raise_max_depth, enter_callback, leave_callback}

-- Callbacks in order of time: one, with those inside it, and those after it.
pub data Callbacks : Type 0 where
  finished : Callbacks
  callback : (point_id : ℕ) (inner next : Callbacks) → Callbacks

unfoldable pub run_callbacks : Testpoints → Callbacks → Testpoints
run_callbacks t finished = t
run_callbacks t (callback point_id inner next) =
    run_callbacks (leave_callback (run_callbacks (enter_callback t point_id).0 inner)) next

-- How many callbacks there are.
abbrev pub count : Callbacks → ℕ
count finished = 0
count (callback p inner next) = suc (count inner + count next)

-- How many of them are inside another one.
abbrev pub count_inner : Callbacks → ℕ
count_inner finished = 0
count_inner (callback p inner next) = count inner + count_inner next

abbrev pub height : Callbacks → ℕ
height finished = 0
height (callback p inner next) = max (suc (height inner)) (height next)

-- What callbacks do to the testpoints, where `recursive` of them were entered inside another.
pub record Ran (t u : Testpoints) (c : Callbacks) (recursive : ℕ) : Type 0 where
  pub depth : u.callback_current_depth ≡ t.callback_current_depth
  pub max_depth :
      u.callback_max_depth ≡ max t.callback_max_depth (t.callback_current_depth + height c)
  pub entries : u64 u.callback_entries ≡ u64 (t.callback_entries + count c)
  pub recursive_entries :
      u64 u.callback_recursive_entries ≡ u64 (t.callback_recursive_entries + recursive)
  pub calls : u.initialize_calls ≡ t.initialize_calls
  pub rejects : u.initialize_reentrant_rejects ≡ t.initialize_reentrant_rejects
  pub shutdowns : u.shutdown_calls ≡ t.shutdown_calls

abbrev pub expected_recursive : Testpoints → Callbacks → ℕ
expected_recursive t c = if t.callback_current_depth == 0 then count_inner c else count c

-- What entering a callback does.
record Entered (t u : Testpoints) : Type 0 where
  depth : u.callback_current_depth ≡ t.callback_current_depth + 1
  max_depth : u.callback_max_depth ≡ max t.callback_max_depth (t.callback_current_depth + 1)
  entries : u.callback_entries ≡ inc t.callback_entries
  recursive_entries : u.callback_recursive_entries ≡ (
      if t.callback_current_depth == 0
      then t.callback_recursive_entries
      else inc t.callback_recursive_entries)
  calls : u.initialize_calls ≡ t.initialize_calls
  rejects : u.initialize_reentrant_rejects ≡ t.initialize_reentrant_rejects
  shutdowns : u.shutdown_calls ≡ t.shutdown_calls

enter_callback-Entered :
    (t : Testpoints) (p : ℕ) → t.callback_current_depth < u32_max → Entered t (enter_callback t p).0
unfolding enter_callback raise_max_depth
enter_callback-Entered t p h = ground arith

leave_callback_inside :
    (t : Testpoints) (d : ℕ)
    → t.callback_current_depth ≡ d + 1
    → leave_callback t ≡ record t { callback_current_depth = d }
unfolding leave_callback
leave_callback_inside t d h = ground arith

-- The same callbacks, from a state of another depth.
expected_inside :
    (t : Testpoints) (c : Callbacks) (d : ℕ)
    → t.callback_current_depth ≡ d + 1
    → expected_recursive t c ≡ count c
expected_inside t c d h = ground arith

module _ (t e i u : Testpoints) (p : ℕ) (inner next : Callbacks) (entered : Entered t e)
    (ran : Ran e i inner (count inner)) where
  abbrev back : Testpoints
  back = record i { callback_current_depth = t.callback_current_depth }

  join-recursive :
      (r : ℕ)
      → u64 u.callback_recursive_entries ≡ u64 (back.callback_recursive_entries + r)
      → r ≡ expected_recursive t next
      → u64 u.callback_recursive_entries
        ≡ u64 (t.callback_recursive_entries + expected_recursive t (callback p inner next))
  join-recursive r later same =
      let rule = entered.recursive_entries in let inside = ran.recursive_entries in ground arith

  join-Ran :
      Ran back u next (expected_recursive back next)
      → Ran t u (callback p inner next) (expected_recursive t (callback p inner next))
  join-Ran later = record {
    depth = later.depth;
    max_depth = omega (arith, entered.max_depth, entered.depth, ran.max_depth, later.max_depth);
    entries = omega (arith, entered.entries, ran.entries, later.entries);
    recursive_entries = join-recursive (expected_recursive back next) later.recursive_entries refl;
    calls = later.calls ∙ ran.calls ∙ entered.calls;
    rejects = later.rejects ∙ ran.rejects ∙ entered.rejects;
    shutdowns = later.shutdowns ∙ ran.shutdowns ∙ entered.shutdowns;
  }

-- Callbacks that nest in any way leave the depth as it was, raise the maximum to the deepest level
-- reached, and count each entry, and apart those made inside another callback; the counts are up
-- to the wrap-around of the counters, and the depth is assumed to fit into 32 bits.
pub run_callbacks-Ran :
    (t : Testpoints) (c : Callbacks)
    → t.callback_current_depth + height c ≤ u32_max
    → t.callback_current_depth ≤ t.callback_max_depth
    → Ran t (run_callbacks t c) c (expected_recursive t c)
unfolding run_callbacks
run_callbacks-Ran t finished fits known = ground arith
run_callbacks-Ran t (callback p inner next) fits known =
    let e = (enter_callback t p).0 in
    let i = run_callbacks e inner in
    let entered = enter_callback-Entered t p (omega arith) in
    let ran : Ran e i inner (count inner) =
      rw (← expected_inside e inner t.callback_current_depth entered.depth) (
        run_callbacks-Ran e inner (omega (arith, entered.depth))
          (omega (arith, entered.depth, entered.max_depth))) in
    rw (leave_callback_inside i t.callback_current_depth (ran.depth ∙ entered.depth)) (
      join-Ran t e i
        (run_callbacks (record i { callback_current_depth = t.callback_current_depth }) next) p
        inner next entered ran
        (run_callbacks-Ran (record i { callback_current_depth = t.callback_current_depth }) next
          (omega arith) (omega (arith, ran.max_depth, entered.max_depth))))
