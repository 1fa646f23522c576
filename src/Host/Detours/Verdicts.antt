-- ===== src/Host/Detours/Verdicts.antt =====
-- native/dwrt-host/dwrt_host.cpp: the results of the detours of the game's target tests.
use dwrt.Prelude.{ℕ, ◌≡◌, Bool, true, arith}
use dwrt.Walker.Floats.{FloatApi}
use dwrt.Shim.Loader.{RuntimeApi}
use dwrt.TargetProbe.Entities.{Process}
use dwrt.TargetProbe.Filter.{TargetFilterScope, finish_target_filter}
use dwrt.TargetProbe.Gates.{record_target_filter_caller, record_secondary_target_gate}
use dwrt.Host.Detours.{
  DetourWorld, OriginalTest, call_original_test, finish_filter, filter_in_scope,
  detour_target_friendly_fire_filter, finish_caller, detour_target_friendly_fire_caller,
  finish_gate, detour_target_secondary_friendly_fire_gate,
}

module _ (fl : FloatApi) (api : RuntimeApi) where
  finish_filter-true :
      (p : Process) (scope : TargetFilterScope) (r : DetourWorld fl api × Bool)
      → r.1 ≡ true
      → (finish_filter fl api p scope r).1 ≡ true
  unfolding finish_filter finish_target_filter
  finish_filter-true p scope (w, result) h = ground arith

  finish_caller-true :
      (p : Process) (source target : ℕ) (recursive : Bool) (r : DetourWorld fl api × Bool)
      → r.1 ≡ true
      → (finish_caller fl api p source target recursive r).1 ≡ true
  unfolding finish_caller record_target_filter_caller
  finish_caller-true p source target recursive (w, result) h = ground arith

  finish_gate-true :
      (p : Process) (source attacker target : ℕ) (recursive : Bool) (r : DetourWorld fl api × Bool)
      → r.1 ≡ true
      → (finish_gate fl api p source attacker target recursive r).1 ≡ true
  unfolding finish_gate record_secondary_target_gate
  finish_gate-true p source attacker target recursive (w, result) h = ground arith

  -- Where the game's target test allows, or is missing, the detours of the filter, of its caller and of the
  -- secondary gate allow as well, in any world and with any settings: the probe never turns an allowance
  -- into a denial.
  pub detours-allow :
      (p : Process) (original : OriginalTest fl api) (w : DetourWorld fl api)
      (source attacker target bitset classifier : ℕ)
      → ((v : DetourWorld fl api) → (call_original_test fl api original true v).1 ≡ true)
      → ((detour_target_friendly_fire_filter fl api p original source target bitset classifier w).1
          ≡ true)
        × ((detour_target_friendly_fire_caller fl api p original source target w).1 ≡ true)
        × ((detour_target_secondary_friendly_fire_gate fl api p original source attacker target w).1
            ≡ true)
  unfolding detour_target_friendly_fire_filter filter_in_scope detour_target_friendly_fire_caller
      detour_target_secondary_friendly_fire_gate
  detours-allow p original w source attacker target bitset classifier h = (
    finish_filter-true p _ _ (h _),
    finish_caller-true p source target _ _ (h _),
    finish_gate-true p source attacker target _ _ (h _),
  )
