-- ===== src/Shim/Consistency.antt =====
-- native/dwrt-shim/dwrt_shadow_shim.cpp: the invariant of the shim, and the calls that
-- change the DLL or the runtime.
use dwrt.Prelude.{
  ℕ, ◌+◌, ◌≡◌, ◌≢◌, refl, sym, ap, ◌∙◌, inl, inr, Option, none, some, List, [], arith, ◌==◌, ==→eq,
  eq→==, ne→==, Bool-cases, if◌then◌else◌, u64, inc,
}
use mathlib.Core.Bool.{true≢false}
use dwrt.Shim.Loader.{
  RuntimeApi, Export, Bindings, no_bindings, bind_order, DwrtShadowShim, destroy_runtime,
  release_module, unload, finish_load, load_unloaded, load, create_destroyed, create_runtime,
  dwrt_runtime_new, dwrt_abi_version,
}
use dwrt.Shim.Routes.{abi_version}
use dwrt.Shim.Loading.{
  Bound, all_bound, one_missing, bind_all-Bound, IsEmpty, unload-Empty, IsIn-all,
}
use dwrt.Shim.Kept.{IsKept}

module _ (api : RuntimeApi) where
  open api use {World, call, free_library, load_library}

  -- Whether a DLL is loaded, as a number.
  abbrev pub open_modules : ℕ → ℕ
  open_modules handle = if handle == 0 then 0 else 1

  -- The exports are bound exactly while a DLL is loaded, a runtime needs a DLL, and the loads
  -- are the unloads and what is still loaded.
  pub record IsConsistent (s : DwrtShadowShim api) : Type 0 where
    pub bound : s.handle ≢ 0 → (e : Export) → s.bindings e ≢ 0
    pub unbound : s.handle ≡ 0 → s.bindings ≡ no_bindings
    pub runtime : s.runtime ≢ 0 → s.handle ≢ 0
    pub balance :
        s.counters.runtime_loads ≡ u64 (s.counters.runtime_unloads + open_modules s.handle)

  pub IsKept-Consistent :
      (s t : DwrtShadowShim api) → IsKept api s t → IsConsistent s → IsConsistent t
  IsKept-Consistent s t k c = record {
    bound = λ h e. rw k.bindings (c.bound (rw k.handle at h) e);
    unbound = λ h. k.bindings ∙ c.unbound (sym k.handle ∙ h);
    runtime = λ h. rw k.handle (c.runtime (rw k.runtime at h));
    balance = rw (k.handle, k.loads, k.unloads) c.balance;
  }

  pub destroy_runtime-Consistent :
      (s : DwrtShadowShim api) → IsConsistent s → IsConsistent (destroy_runtime api s)
  unfolding destroy_runtime
  destroy_runtime-Consistent s v = record {
    bound = v.bound;
    unbound = v.unbound;
    runtime = λ h. absurd (h refl);
    balance = v.balance;
  }

  release_module-Consistent :
      (s : DwrtShadowShim api)
      → s.runtime ≡ 0
      → IsConsistent s
      → IsConsistent (release_module api s)
  unfolding release_module
  release_module-Consistent s r v = elim (Bool-cases (s.handle == 0)) [
    | inl e ↦
        let closed : IsConsistent (record s { bindings = no_bindings }) = record {
          bound = λ h. absurd (h (==→eq _ _ e));
          unbound = λ h. refl;
          runtime = v.runtime;
          balance = v.balance;
        } in
        rw e closed
    | inr e ↦
        let one : s.counters.runtime_loads ≡ u64 (s.counters.runtime_unloads + 1) =
          rw e at v.balance in
        rw e (record {
          bound = λ h. absurd (h refl);
          unbound = λ h. refl;
          runtime = λ h. absurd (h r);
          balance = omega arith;
        })
  ]

  pub unload-Consistent : (s : DwrtShadowShim api) → IsConsistent s → IsConsistent (unload api s)
  unfolding unload
  unload-Consistent s v =
      release_module-Consistent (destroy_runtime api s) (unfold destroy_runtime in refl)
        (destroy_runtime-Consistent s v)

  finish_load-Consistent :
      (s : DwrtShadowShim api) (h : ℕ) (b : Bindings × Option Export)
      → IsEmpty api s
      → h ≢ 0
      → Bound api s.world h b
      → IsConsistent s
      → IsConsistent (finish_load api s h b).0
  unfolding finish_load
  finish_load-Consistent s h (b, none) z ne (all_bound bound) v =
      let none_open : s.counters.runtime_loads ≡ u64 (s.counters.runtime_unloads + 0) =
        rw z.handle at v.balance in
      record {
        bound = λ k e. (bound e).present;
        unbound = λ k. absurd (ne k);
        runtime = λ k. ne;
        balance = rw (ne→== h 0 ne) (omega arith);
      }
  finish_load-Consistent s h (b, some e) z ne (one_missing e' p) v = record {
    bound = λ k. absurd (k z.handle);
    unbound = λ k. refl;
    runtime = v.runtime;
    balance = v.balance;
  }

  IsConsistent-world :
      (s : DwrtShadowShim api) (w : World) → IsConsistent s → IsConsistent (record s { world = w })
  IsConsistent-world s w v = record {
    bound = v.bound;
    unbound = v.unbound;
    runtime = v.runtime;
    balance = v.balance;
  }

  load_unloaded-Consistent :
      (s : DwrtShadowShim api) (path : List ℕ)
      → IsEmpty api s
      → IsConsistent s
      → IsConsistent (load_unloaded api s path).0
  unfolding load_unloaded
  load_unloaded-Consistent s path z v = elim (Bool-cases ((load_library s.world path).1 == 0)) [
    | inl e ↦ rw e (IsConsistent-world s _ v)
    | inr e ↦ rw e (
        finish_load-Consistent (record s { world = (load_library s.world path).0 }) _ _
          (record { handle = z.handle; bindings = z.bindings; runtime = z.runtime })
          (λ k. true≢false (sym (eq→== _ _ k) ∙ e))
          (bind_all-Bound api _ _ bind_order _ (λ x. inl (IsIn-all x))) (IsConsistent-world s _ v))
  ]

  pub load-Consistent :
      (s : DwrtShadowShim api) (path : List ℕ) → IsConsistent s → IsConsistent (load api s path).0
  unfolding load
  load-Consistent s path v =
      load_unloaded-Consistent (unload api s) path (unload-Empty api s) (unload-Consistent s v)

  -- A failure to create a runtime is only counted.
  IsConsistent-count :
      (s : DwrtShadowShim api) (w : World) (n : ℕ)
      → IsConsistent s
      → IsConsistent
          (record s { world = w; counters = record s.counters { runtime_create_failures = n } })
  IsConsistent-count s w n v = record {
    bound = v.bound;
    unbound = v.unbound;
    runtime = v.runtime;
    balance = v.balance;
  }

  create_destroyed-Consistent :
      (s : DwrtShadowShim api) → IsConsistent s → IsConsistent (create_destroyed api s).0
  unfolding create_destroyed
  create_destroyed-Consistent s v = elim (Bool-cases (s.bindings dwrt_runtime_new == 0)) [
    | inl e ↦ rw e (IsConsistent-count s s.world (inc s.counters.runtime_create_failures) v)
    | inr e ↦ elim (Bool-cases ((call s.world (s.bindings dwrt_runtime_new) []).1 == 0)) [
      | inl k ↦ rw (e, k) (IsConsistent-count s _ (inc s.counters.runtime_create_failures) v)
      | inr k ↦
          rw (e, k)
            (record {
              bound = v.bound;
              unbound = v.unbound;
              runtime = λ r h.
                  true≢false (sym (eq→== _ 0 (ap (λ b. b dwrt_runtime_new) (v.unbound h))) ∙ e);
              balance = v.balance;
            })
    ]
  ]

  pub create_runtime-Consistent :
      (s : DwrtShadowShim api) → IsConsistent s → IsConsistent (create_runtime api s).0
  unfolding create_runtime
  create_runtime-Consistent s v =
      create_destroyed-Consistent (destroy_runtime api s) (destroy_runtime-Consistent s v)

  pub abi_version-Consistent :
      (s : DwrtShadowShim api) → IsConsistent s → IsConsistent (abi_version api s).0
  unfolding abi_version
  abi_version-Consistent s v = elim (Bool-cases (s.bindings dwrt_abi_version == 0)) [
    | inl e ↦ rw e v
    | inr e ↦ rw e (IsConsistent-world s _ v)
  ]
