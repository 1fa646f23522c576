-- ===== src/Shim/Durations.antt =====
-- record_duration of native/dwrt-shim/dwrt_shadow_shim.cpp over many calls.
use dwrt.Prelude.{
  ℕ, suc, ◌+◌, ◌≡◌, ◌<◌, ◌∙◌, not, ◌&&◌, List, [], ◌∷◌, arith, leb, ◌==◌, if◌then◌else◌, max, u64,
}
use dwrt.Shim.Counters.{RouteTicks, no_ticks, record_duration}

-- The durations of calls that follow each other.
unfoldable pub record_durations : ℕ → RouteTicks → List ℕ → RouteTicks
record_durations threshold t [] = t
record_durations threshold t (d ∷ ds) =
    record_durations threshold (record_duration d threshold t) ds

unfoldable pub total : List ℕ → ℕ
total [] = 0
total (d ∷ ds) = d + total ds

unfoldable pub maximum : List ℕ → ℕ
maximum [] = 0
maximum (d ∷ ds) = max d (maximum ds)

-- How many durations reach a threshold that is set.
unfoldable pub slow : ℕ → List ℕ → ℕ
slow threshold [] = 0
slow threshold (d ∷ ds) =
    let rest = slow threshold ds in
    if not (threshold == 0) && leb threshold d then suc rest else rest

-- What the counters hold after the durations, from what they held before.
abbrev summary : ℕ → RouteTicks → List ℕ → RouteTicks
summary threshold t ds = record {
  total_ticks = u64 (t.total_ticks + total ds);
  max_ticks = max t.max_ticks (maximum ds);
  slow_calls = u64 (t.slow_calls + slow threshold ds);
}

summary_step :
    (threshold d : ℕ) (t : RouteTicks) (ds : List ℕ)
    → summary threshold (record_duration d threshold t) ds ≡ summary threshold t (d ∷ ds)
unfolding record_duration total maximum slow
summary_step threshold d t ds = ground arith

record_durations_from :
    (threshold : ℕ) (t : RouteTicks) (ds : List ℕ)
    → t.total_ticks < 18446744073709551616
    → t.slow_calls < 18446744073709551616
    → record_durations threshold t ds ≡ summary threshold t ds
unfolding record_durations
record_durations_from threshold t [] h k = unfold total maximum slow in ground arith
record_durations_from threshold t (d ∷ ds) h k =
    record_durations_from threshold (record_duration d threshold t) ds
      (unfold record_duration in omega arith) (unfold record_duration in ground arith)
    ∙ summary_step threshold d t ds

-- From counters at zero, the total is the sum up to the wrap-around, the maximum is the longest
-- duration, and a call is slow where the threshold is set and reached.
pub record_durations_lem :
    (threshold : ℕ) (ds : List ℕ)
    → record_durations threshold no_ticks ds ≡ record {
      total_ticks = u64 (total ds);
      max_ticks = maximum ds;
      slow_calls = u64 (slow threshold ds);
    }
record_durations_lem threshold ds =
    record_durations_from threshold no_ticks ds (omega arith) (omega arith) ∙ ground arith
