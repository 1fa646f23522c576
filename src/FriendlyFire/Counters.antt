-- ===== src/FriendlyFire/Counters.antt =====
-- native/dwrt-host/dwrt_friendly_fire.cpp: every damage callback is accounted for by one counter.
use dwrt.Prelude.{ℕ, ◌+◌, ◌≡◌, Bool, List, [], ◌∷◌, arith, u64, inc, Memory}
use dwrt.Environment.{GetVariable}
use dwrt.FriendlyFire.{
  FriendlyFireState, FriendlyFireDamageScope, apply_spoof, spoof_objective, inspect_victim,
  begin_friendly_fire_damage, end_friendly_fire_damage, reset_friendly_fire_counters,
  configure_friendly_fire_from_environment,
}

-- The callbacks are split by outcome, up to the wrap-around of the counters, and an attempt to
-- change a team never fails.
pub record IsAccounted (s : FriendlyFireState) : Type 0 where
  pub callbacks :
      s.damage_callbacks
      ≡ u64 (
          s.skipped_recursive
          + (s.missing_identity
              + (s.missing_designer_name + (s.non_objective_victims + s.objective_candidates))))
  pub attempts : s.team_spoof_attempts ≡ s.team_spoof_applied

-- One call of the component, with the memory that it runs on.
pub data Call : Type 0 where
  begins : Memory → ℕ → Bool → Call
  ends : Memory → FriendlyFireDamageScope → Call
  resets : Call
  configures : GetVariable → Call

unfoldable pub step : FriendlyFireState → Call → FriendlyFireState
step s (begins m entity recursive) = (begin_friendly_fire_damage s m entity recursive).state
step s (ends m d) = (end_friendly_fire_damage s m d).0
step s resets = reset_friendly_fire_counters s
step s (configures get) = configure_friendly_fire_from_environment get s

unfoldable pub run : FriendlyFireState → List Call → FriendlyFireState
run s [] = s
run s (c ∷ cs) = run (step s c) cs

spoof_objective-IsAccounted :
    (s : FriendlyFireState) (m : Memory) (entity : ℕ)
    → IsAccounted s
    → IsAccounted (spoof_objective s m entity).state
unfolding spoof_objective apply_spoof
spoof_objective-IsAccounted s m entity v = ground arith

-- A callback that is not accounted for yet.
record IsPending (s : FriendlyFireState) : Type 0 where
  callbacks :
      s.damage_callbacks
      ≡ u64 (
          1
          + (s.skipped_recursive
              + (s.missing_identity
                  + (s.missing_designer_name
                      + (s.non_objective_victims + s.objective_candidates)))))
  attempts : s.team_spoof_attempts ≡ s.team_spoof_applied

inspect_victim-IsAccounted :
    (s : FriendlyFireState) (m : Memory) (entity : ℕ)
    → IsPending s
    → IsAccounted (inspect_victim s m entity).state
unfolding inspect_victim
inspect_victim-IsAccounted s m entity v = ground (
  arith,
  spoof_objective-IsAccounted (record s { objective_candidates = inc s.objective_candidates }) m
      entity,
)

pub begin-IsAccounted :
    (s : FriendlyFireState) (m : Memory) (entity : ℕ) (recursive : Bool)
    → IsAccounted s
    → IsAccounted (begin_friendly_fire_damage s m entity recursive).state
unfolding begin_friendly_fire_damage
begin-IsAccounted s m entity recursive v = ground (
  arith,
  inspect_victim-IsAccounted (record s { damage_callbacks = inc s.damage_callbacks }) m entity,
)

step-IsAccounted : (s : FriendlyFireState) (c : Call) → IsAccounted s → IsAccounted (step s c)
unfolding step
step-IsAccounted s (begins m entity recursive) v = begin-IsAccounted s m entity recursive v
step-IsAccounted s (ends m d) v = unfold end_friendly_fire_damage in ground arith
step-IsAccounted s resets v = unfold reset_friendly_fire_counters in ground arith
step-IsAccounted s (configures get) v =
    unfold configure_friendly_fire_from_environment in ground arith

-- Any calls in any order keep the counters accounted for.
pub run-IsAccounted :
    (s : FriendlyFireState) (cs : List Call) → IsAccounted s → IsAccounted (run s cs)
unfolding run
run-IsAccounted s [] v = v
run-IsAccounted s (c ∷ cs) v = run-IsAccounted (step s c) cs (step-IsAccounted s c v)
