-- ===== src/Host/Detours/Nested.antt =====
-- native/dwrt-host/dwrt_host.cpp: detours that run inside one another, and the callback scopes of
-- native/dwrt-host/dwrt_host_testpoints.cpp that they open.
use dwrt.Prelude.{ℕ, suc, max, Bool, none, some, if◌then◌else◌, Memory}
use dwrt.Walker.Floats.{FloatApi}
use dwrt.Shim.Loader.{RuntimeApi}
use dwrt.TargetProbe.Entities.{Process}
use dwrt.Host.Detours.{
  DetourWorld, Original, OriginalTest, on_probe, detour_take_damage_old, detour_accept_input,
  detour_fire_output_internal, detour_target_friendly_fire_filter,
  detour_target_friendly_fire_caller, detour_target_secondary_friendly_fire_gate,
  detour_target_identity_classifier,
}

-- What the game does in order of time: it writes to the memory and calls functions that are hooked; each of
-- these does more inside, and so does the `Teleport` of the walker patrol. The Boolean `present` says that
-- the pointer to the original is not null, and `result` is what the original returns.
pub data Play : Type 0 where
  stops : Play
  writes : (Memory → Memory) → (next : Play) → Play
  damages : (event self info : ℕ) (present : Bool) (moved inner next : Play) → Play
  accepts : (event self activator caller : ℕ) (present result : Bool) (inner next : Play) → Play
  fires : (event self activator caller : ℕ) (present : Bool) (inner next : Play) → Play
  filters : (source target bitset classifier : ℕ) (present result : Bool) (inner next : Play) → Play
  asks : (source target : ℕ) (present result : Bool) (inner next : Play) → Play
  gates :
      (source maybe_attacker maybe_target : ℕ) (present result : Bool) (inner next : Play) → Play
  classifies : (target out : ℕ) (present : Bool) (inner next : Play) → Play

-- How deep the callback scopes of a play can nest.
unfoldable pub levels : Play → ℕ
levels stops = 0
levels (writes f next) = levels next
levels (damages event self info present moved inner next) =
    max (suc (max (levels moved) (levels inner))) (levels next)
levels (accepts event self activator caller present result inner next) =
    max (suc (levels inner)) (levels next)
levels (fires event self activator caller present inner next) =
    max (suc (levels inner)) (levels next)
levels (filters source target bitset classifier present result inner next) =
    max (suc (levels inner)) (levels next)
levels (asks source target present result inner next) = max (suc (levels inner)) (levels next)
levels (gates source attacker target present result inner next) =
    max (suc (levels inner)) (levels next)
levels (classifies target out present inner next) = max (levels inner) (levels next)

module _ (fl : FloatApi) (api : RuntimeApi) where
  abbrev pub original_of : Bool → (DetourWorld fl api → DetourWorld fl api) → Original fl api
  original_of present f = if present then some f else none

  abbrev pub test_of :
      (present result : Bool) → (DetourWorld fl api → DetourWorld fl api) → OriginalTest fl api
  test_of present result f = if present then some (λ w. (f w, result)) else none

  unfoldable pub run_play : Process → Play → DetourWorld fl api → DetourWorld fl api
  run_play p stops w = w
  run_play p (writes f next) w =
      run_play p next (on_probe fl api (λ v. record v { memory = f v.memory }) w)
  run_play p (damages event self info present moved inner next) w = run_play p next (
      detour_take_damage_old fl api p (λ t. run_play p moved)
        (original_of present (run_play p inner)) event self info w)
  run_play p (accepts event self activator caller present result inner next) w =
      run_play p next
        (detour_accept_input fl api p (test_of present result (run_play p inner)) event self
          activator caller w).0
  run_play p (fires event self activator caller present inner next) w = run_play p next (
      detour_fire_output_internal fl api p (original_of present (run_play p inner)) event self
        activator caller w)
  run_play p (filters source target bitset classifier present result inner next) w =
      run_play p next
        (detour_target_friendly_fire_filter fl api p (test_of present result (run_play p inner))
          source target bitset classifier w).0
  run_play p (asks source target present result inner next) w =
      run_play p next
        (detour_target_friendly_fire_caller fl api p (test_of present result (run_play p inner))
          source target w).0
  run_play p (gates source attacker target present result inner next) w =
      run_play p next
        (detour_target_secondary_friendly_fire_gate fl api p
          (test_of present result (run_play p inner)) source attacker target w).0
  run_play p (classifies target out present inner next) w = run_play p next (
      detour_target_identity_classifier fl api p (original_of present (run_play p inner)) target out
        w)
