-- ===== src/Shim/Kept.antt =====
-- native/dwrt-shim/dwrt_shadow_shim.cpp: the calls that leave the DLL, the runtime and
-- the bindings as they are.
use dwrt.Prelude.{ℕ, ◌≡◌, refl, ◌∙◌, inl, inr, not, ◌&&◌, List, ◌==◌, Bool-cases}
use dwrt.Shim.Counters.{DwrtShadowCounters}
use dwrt.Shim.Loader.{RuntimeApi, Export, DwrtShadowShim}
use dwrt.Shim.Routes.{
  call_runtime, start_timing, finish_timing, route_call, record_net_duration,
  record_usercmd_duration, record_probe_duration, count_net_route, count_usercmd_route,
  count_probe_route,
}

module _ (api : RuntimeApi) where
  open api use {World, call, free_library}

  -- Nothing that the invariant is about changes.
  pub record IsKept (s t : DwrtShadowShim api) : Type 0 where
    pub handle : t.handle ≡ s.handle
    pub bindings : t.bindings ≡ s.bindings
    pub runtime : t.runtime ≡ s.runtime
    pub loads : t.counters.runtime_loads ≡ s.counters.runtime_loads
    pub unloads : t.counters.runtime_unloads ≡ s.counters.runtime_unloads

  pub IsKept-trans : (s t u : DwrtShadowShim api) → IsKept s t → IsKept t u → IsKept s u
  IsKept-trans s t u a b = record {
    handle = b.handle ∙ a.handle;
    bindings = b.bindings ∙ a.bindings;
    runtime = b.runtime ∙ a.runtime;
    loads = b.loads ∙ a.loads;
    unloads = b.unloads ∙ a.unloads;
  }

  pub call_runtime-Kept :
      (s : DwrtShadowShim api) (e : Export) (arguments : List ℕ) (otherwise : ℕ)
      → IsKept s (call_runtime api s e arguments otherwise).0
  unfolding call_runtime
  call_runtime-Kept s e arguments otherwise =
      elim (Bool-cases (not (s.runtime == 0) && not (s.bindings e == 0))) [
        | inl y ↦ rw y (record {
          handle = refl;
          bindings = refl;
          runtime = refl;
          loads = refl;
          unloads = refl;
        })
        | inr n ↦ rw n (record {
          handle = refl;
          bindings = refl;
          runtime = refl;
          loads = refl;
          unloads = refl;
        })
      ]

  start_timing-Kept : (s : DwrtShadowShim api) → IsKept s (start_timing api s).0
  unfolding start_timing
  start_timing-Kept s = elim (Bool-cases s.timing_enabled) [
    | inl y ↦
        rw y
          (record { handle = refl; bindings = refl; runtime = refl; loads = refl; unloads = refl })
    | inr n ↦
        rw n
          (record { handle = refl; bindings = refl; runtime = refl; loads = refl; unloads = refl })
  ]

  -- A change of the counters that leaves the loads and unloads.
  unfoldable pub IsNeutral : (DwrtShadowCounters → DwrtShadowCounters) → Type 0
  IsNeutral f =
      (c : DwrtShadowCounters)
      → ((f c).runtime_loads ≡ c.runtime_loads) × ((f c).runtime_unloads ≡ c.runtime_unloads)

  counters-Kept :
      (s : DwrtShadowShim api) (f : DwrtShadowCounters → DwrtShadowCounters)
      → IsNeutral f
      → IsKept s (record s { counters = f s.counters })
  unfolding IsNeutral
  counters-Kept s f n = record {
    handle = refl;
    bindings = refl;
    runtime = refl;
    loads = (n s.counters).0;
    unloads = (n s.counters).1;
  }

  finish_timing-Kept :
      (f : ℕ → DwrtShadowCounters → DwrtShadowCounters) (start : ℕ) (s : DwrtShadowShim api)
      → ((n : ℕ) → IsNeutral (f n))
      → IsKept s (finish_timing api f start s)
  unfolding finish_timing IsNeutral
  finish_timing-Kept f start s neutral = elim (Bool-cases s.timing_enabled) [
    | inl y ↦ rw y (record {
      handle = refl;
      bindings = refl;
      runtime = refl;
      loads = (neutral _ s.counters).0;
      unloads = (neutral _ s.counters).1;
    })
    | inr n ↦
        rw n
          (record { handle = refl; bindings = refl; runtime = refl; loads = refl; unloads = refl })
  ]

  pub route_call-Kept :
      (e : Export) (arguments : List ℕ) (otherwise : ℕ)
      (count ticks : ℕ → DwrtShadowCounters → DwrtShadowCounters) (s : DwrtShadowShim api)
      → ((n : ℕ) → IsNeutral (count n))
      → ((n : ℕ) → IsNeutral (ticks n))
      → IsKept s (route_call api e arguments otherwise count ticks s).0
  unfolding route_call
  route_call-Kept e arguments otherwise count ticks s cn tn =
      IsKept-trans s _ _ (start_timing-Kept s) (
        IsKept-trans _ _ _ (call_runtime-Kept (start_timing api s).0 e arguments otherwise) (
          IsKept-trans _ _ _
            (counters-Kept (call_runtime api (start_timing api s).0 e arguments otherwise).0
              (count (call_runtime api (start_timing api s).0 e arguments otherwise).1) (cn _))
            (finish_timing-Kept ticks _ _ tn)))

  pub record_net-Kept :
      (e : Export) (arguments : List ℕ) (s : DwrtShadowShim api)
      → IsKept s (route_call api e arguments 0 count_net_route record_net_duration s).0
  unfolding IsNeutral count_net_route record_net_duration
  record_net-Kept e arguments s =
      route_call-Kept e arguments 0 count_net_route record_net_duration s (λ n c. (refl, refl))
        (λ n c. (refl, refl))

  pub record_usercmd-Kept :
      (e : Export) (arguments : List ℕ) (s : DwrtShadowShim api)
      → IsKept s (route_call api e arguments 0 count_usercmd_route record_usercmd_duration s).0
  unfolding IsNeutral count_usercmd_route record_usercmd_duration
  record_usercmd-Kept e arguments s =
      route_call-Kept e arguments 0 count_usercmd_route record_usercmd_duration s
        (λ n c. (refl, refl)) (λ n c. (refl, refl))

  pub record_probe-Kept :
      (e : Export) (arguments : List ℕ) (s : DwrtShadowShim api)
      → IsKept s (route_call api e arguments 0 count_probe_route record_probe_duration s).0
  unfolding IsNeutral count_probe_route record_probe_duration
  record_probe-Kept e arguments s =
      route_call-Kept e arguments 0 count_probe_route record_probe_duration s (λ n c. (refl, refl))
        (λ n c. (refl, refl))
