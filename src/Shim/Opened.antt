-- ===== src/Shim/Opened.antt =====
-- native/dwrt-shim/dwrt_shadow_shim.cpp: how many DLLs are open outside the shim, as LoadLibrary and
-- FreeLibrary count them.
use dwrt.Prelude.{
  ℕ, ◌+◌, ◌-◌, ◌≡◌, ◌≢◌, refl, ◌∙◌, inl, inr, not, ◌&&◌, Option, none, some, List, [], arith, ◌==◌,
  ==→eq, ==→ne, ne→==, Bool-cases,
}
use dwrt.Shim.Counters.{DwrtShadowCounters}
use dwrt.Shim.Loader.{
  RuntimeApi, Export, Bindings, bind_order, bind_all, DwrtShadowShim, destroy_runtime,
  release_module, unload, finish_load, load_unloaded, load, create_destroyed, create_runtime,
  dwrt_runtime_new, dwrt_runtime_free, dwrt_abi_version,
}
use dwrt.Shim.Routes.{call_runtime, start_timing, finish_timing, route_call, abi_version}
use dwrt.Shim.Loading.{unload-Empty}
use dwrt.Shim.Consistency.{open_modules}

module _ (api : RuntimeApi) (opened : api.World → ℕ) where
  open api use {World, call, free_library, load_library, query_performance_counter}

  -- The operating system's count of open DLLs: a load that gives a handle opens one, a load that
  -- fails none, FreeLibrary closes one, and neither the exports nor the clock change the count.
  pub record IsCounting : Type 0 where
    pub given :
        (w : World) (path : List ℕ)
        → (load_library w path).1 ≢ 0
        → opened (load_library w path).0 ≡ opened w + 1
    pub refused :
        (w : World) (path : List ℕ)
        → (load_library w path).1 ≡ 0
        → opened (load_library w path).0 ≡ opened w
    pub freed : (w : World) (h : ℕ) → h ≢ 0 → opened (free_library w h) ≡ opened w - 1
    pub called : (w : World) (f : ℕ) (arguments : List ℕ) → opened (call w f arguments).0 ≡ opened w
    pub queried : (w : World) → opened (query_performance_counter w).0 ≡ opened w

  -- The DLL of the shim is the only one that is open over the number `base` at the start.
  abbrev pub IsOpen : ℕ → DwrtShadowShim api → Type 0
  IsOpen base s = opened s.world ≡ base + open_modules api s.handle

  -- The same DLL, with as many open ones.
  pub record Same (s t : DwrtShadowShim api) : Type 0 where
    pub handle : t.handle ≡ s.handle
    pub count : opened t.world ≡ opened s.world

  pub Same-trans : (s t u : DwrtShadowShim api) → Same s t → Same t u → Same s u
  Same-trans s t u a b = record { handle = b.handle ∙ a.handle; count = b.count ∙ a.count }

  pub Same-Open : (base : ℕ) (s t : DwrtShadowShim api) → Same s t → IsOpen base s → IsOpen base t
  Same-Open base s t k o = rw (k.count, k.handle) o

  module _ (counting : IsCounting) where
    pub call_runtime-Same :
        (s : DwrtShadowShim api) (e : Export) (arguments : List ℕ) (otherwise : ℕ)
        → Same s (call_runtime api s e arguments otherwise).0
    unfolding call_runtime
    call_runtime-Same s e arguments otherwise =
        elim (Bool-cases (not (s.runtime == 0) && not (s.bindings e == 0))) [
          | inl y ↦ rw y (record { handle = refl; count = counting.called _ _ _ })
          | inr n ↦ rw n (record { handle = refl; count = refl })
        ]

    start_timing-Same : (s : DwrtShadowShim api) → Same s (start_timing api s).0
    unfolding start_timing
    start_timing-Same s = elim (Bool-cases s.timing_enabled) [
      | inl y ↦ rw y (record { handle = refl; count = counting.queried _ })
      | inr n ↦ rw n (record { handle = refl; count = refl })
    ]

    finish_timing-Same :
        (f : ℕ → DwrtShadowCounters → DwrtShadowCounters) (start : ℕ) (s : DwrtShadowShim api)
        → Same s (finish_timing api f start s)
    unfolding finish_timing
    finish_timing-Same f start s = elim (Bool-cases s.timing_enabled) [
      | inl y ↦ rw y (record { handle = refl; count = counting.queried _ })
      | inr n ↦ rw n (record { handle = refl; count = refl })
    ]

    pub route_call-Same :
        (e : Export) (arguments : List ℕ) (otherwise : ℕ)
        (count ticks : ℕ → DwrtShadowCounters → DwrtShadowCounters) (s : DwrtShadowShim api)
        → Same s (route_call api e arguments otherwise count ticks s).0
    unfolding route_call
    route_call-Same e arguments otherwise count ticks s = Same-trans s _ _ (start_timing-Same s) (
        Same-trans _ _ _ (call_runtime-Same (start_timing api s).0 e arguments otherwise) (
          Same-trans _ _ _ (record { handle = refl; count = refl }) (finish_timing-Same ticks _ _)))

    pub abi_version-Same : (s : DwrtShadowShim api) → Same s (abi_version api s).0
    unfolding abi_version
    abi_version-Same s = elim (Bool-cases (s.bindings dwrt_abi_version == 0)) [
      | inl e ↦ rw e (record { handle = refl; count = refl })
      | inr e ↦ rw e (record { handle = refl; count = counting.called _ _ _ })
    ]

    pub destroy_runtime-Same : (s : DwrtShadowShim api) → Same s (destroy_runtime api s)
    unfolding destroy_runtime
    destroy_runtime-Same s =
        elim (Bool-cases (not (s.runtime == 0) && not (s.bindings dwrt_runtime_free == 0))) [
          | inl y ↦ record { handle = refl; count = rw y (counting.called _ _ _) }
          | inr n ↦ record { handle = refl; count = rw n refl }
        ]

    create_destroyed-Same : (s : DwrtShadowShim api) → Same s (create_destroyed api s).0
    unfolding create_destroyed
    create_destroyed-Same s = elim (Bool-cases (s.bindings dwrt_runtime_new == 0)) [
      | inl e ↦ rw e (record { handle = refl; count = refl })
      | inr e ↦ elim (Bool-cases ((call s.world (s.bindings dwrt_runtime_new) []).1 == 0)) [
        | inl k ↦ rw (e, k) (record { handle = refl; count = counting.called _ _ _ })
        | inr k ↦ rw (e, k) (record { handle = refl; count = counting.called _ _ _ })
      ]
    ]

    pub create_runtime-Same : (s : DwrtShadowShim api) → Same s (create_runtime api s).0
    unfolding create_runtime
    create_runtime-Same s =
        Same-trans s _ _ (destroy_runtime-Same s) (create_destroyed-Same (destroy_runtime api s))

    release_module-Open :
        (base : ℕ) (s : DwrtShadowShim api) → IsOpen base s → IsOpen base (release_module api s)
    unfolding release_module
    release_module-Open base s o = elim (Bool-cases (s.handle == 0)) [
      | inl e ↦ rw e o
      | inr e ↦
          let one : opened s.world ≡ base + 1 = rw e at o in
          let less = counting.freed s.world s.handle (==→ne _ _ e) in rw e (omega arith)
    ]

    pub unload-Open :
        (base : ℕ) (s : DwrtShadowShim api) → IsOpen base s → IsOpen base (unload api s)
    unfolding unload
    unload-Open base s o =
        release_module-Open base (destroy_runtime api s)
          (Same-Open base s _ (destroy_runtime-Same s) o)

    -- A DLL whose exports are not all there is closed again.
    finish_load-Open :
        (base : ℕ) (s : DwrtShadowShim api) (h : ℕ) (b : Bindings × Option Export)
        → s.handle ≡ 0
        → h ≢ 0
        → opened s.world ≡ base + 1
        → IsOpen base (finish_load api s h b).0
    unfolding finish_load
    finish_load-Open base s h (b, none) z ne o = rw (ne→== h 0 ne) o
    finish_load-Open base s h (b, some e) z ne o =
        let less = counting.freed s.world h ne in rw z (omega arith)

    load_unloaded-Open :
        (base : ℕ) (s : DwrtShadowShim api) (path : List ℕ)
        → s.handle ≡ 0
        → IsOpen base s
        → IsOpen base (load_unloaded api s path).0
    unfolding load_unloaded
    load_unloaded-Open base s path z o =
        let none_open : opened s.world ≡ base + 0 = rw z at o in
        elim (Bool-cases ((load_library s.world path).1 == 0)) [
          | inl e ↦
              let same = counting.refused s.world path (==→eq _ _ e) in rw (e, z) (omega arith)
          | inr e ↦
              let more = counting.given s.world path (==→ne _ _ e) in
              rw e (
                finish_load-Open base (record s { world = (load_library s.world path).0 }) _
                  (bind_all api _ _ bind_order s.bindings) z (==→ne _ _ e) (omega arith))
        ]

    pub load-Open :
        (base : ℕ) (s : DwrtShadowShim api) (path : List ℕ)
        → IsOpen base s
        → IsOpen base (load api s path).0
    unfolding load
    load-Open base s path o =
        load_unloaded-Open base (unload api s) path (unload-Empty api s).handle
          (unload-Open base s o)
