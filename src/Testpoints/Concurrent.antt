-- ===== src/Testpoints/Concurrent.antt =====
-- update_max_depth of native/dwrt-host/dwrt_host_testpoints.cpp while other threads raise the same
-- maximum or reset it, and the weak exchange fails at will.
use dwrt.Prelude.{
  ℕ, ◌≤◌, ◌≡◌, Bool, false, ◌&&◌, not, Option, none, some, List, [], ◌∷◌, arith, ltb, ◌==◌,
  if◌then◌else◌, max,
}
use dwrt.Testpoints.{raise_max_depth}

-- What happens before and at one exchange: the depth of another thread that gets in first (0 for
-- none), whether a `reset_testpoints` stored 0 before that, and whether the exchange fails although it
-- could be made.
pub record Attempt : Type 0 where
  pub other_depth : ℕ
  pub resets : Bool
  pub spurious : Bool

-- The maximum that the exchange finds.
abbrev seen_by : Attempt → ℕ → ℕ
seen_by a current = max (if a.resets then 0 else current) a.other_depth

-- The loop, with `previous` as last read and the current maximum; one attempt is one exchange.
-- `none`: the attempts end before the loop does.
unfoldable pub update_max_depth : ℕ → ℕ → ℕ → List Attempt → Option ℕ
update_max_depth depth previous current [] = if ltb previous depth then none else some current
update_max_depth depth previous current (a ∷ attempts) =
    let seen = seen_by a current in
    let retry = update_max_depth depth seen seen attempts in
    if ltb previous depth
    then (if seen == previous && not a.spurious then some depth else retry)
    else some current

-- An attempt without another thread and without failure.
abbrev pub quiet_attempt : Attempt
quiet_attempt = record { other_depth = 0; resets = false; spurious = false }

-- The depths that other threads brought in.
abbrev pub highest : List Attempt → ℕ
highest [] = 0
highest (a ∷ attempts) = max a.other_depth (highest attempts)

-- What stays of the maximum at the start: nothing, once it may have been reset.
abbrev pub lowest : ℕ → List Attempt → ℕ
lowest current [] = current
lowest current (a ∷ attempts) = if a.resets then 0 else lowest current attempts

-- The loop ended, with a maximum that is at least `depth` and between two bounds.
pub data Ended (depth low high : ℕ) : Option ℕ → Type 0 where
  ended : {r : ℕ} → depth ≤ r → low ≤ r → r ≤ high → Ended depth low high (some r)

-- An attempt without another thread and without failure ends the loop, as `raise_max_depth` says.
pub update_max_depth_quiet :
    (depth current : ℕ) (attempts : List Attempt)
    → update_max_depth depth current current (quiet_attempt ∷ attempts)
      ≡ some (raise_max_depth depth current)
unfolding update_max_depth raise_max_depth
update_max_depth_quiet depth current attempts = ground arith
