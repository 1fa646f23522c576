-- ===== src/Shim/Loading.antt =====
-- load of native/dwrt-shim/dwrt_shadow_shim.cpp: all exports are bound, or none is and nothing stays.
use dwrt.Prelude.{
  ℕ, zero, suc, ◌≡◌, ◌≢◌, refl, sym, ap, ◌∙◌, ◌⊎◌, inl, inr, Option, none, some, List, [], ◌∷◌,
  ◌++◌, arith, ◌==◌, ==→eq, eq→==, Bool-cases, codes, get_elem?,
}
use mathlib.Core.Bool.{true≢false}
use dwrt.Shim.Loader.{
  RuntimeApi, Export, export_index, export_name, bind_order, Bindings, no_bindings, write_binding,
  DwrtShadowShim, destroy_runtime, release_module, unload, bind_all, finish_load, load_unloaded,
  load, dwrt_abi_version, dwrt_runtime_new, dwrt_runtime_free, dwrt_net_add_serialized,
  dwrt_net_add_user_fast, dwrt_net_route, dwrt_usercmd_set_mount_mask, dwrt_usercmd_route,
  dwrt_probe_set_mount_mask, dwrt_probe_record_damage, dwrt_probe_record_entity_input,
  dwrt_probe_record_entity_output, dwrt_probe_record_entity_touch, dwrt_probe_snapshot,
  dwrt_probe_reset_counters,
}

export_at_index : (e : Export) → get_elem? bind_order (export_index e) ≡ some e
export_at_index dwrt_abi_version = refl
export_at_index dwrt_runtime_new = refl
export_at_index dwrt_runtime_free = refl
export_at_index dwrt_net_add_serialized = refl
export_at_index dwrt_net_add_user_fast = refl
export_at_index dwrt_net_route = refl
export_at_index dwrt_usercmd_set_mount_mask = refl
export_at_index dwrt_usercmd_route = refl
export_at_index dwrt_probe_set_mount_mask = refl
export_at_index dwrt_probe_record_damage = refl
export_at_index dwrt_probe_record_entity_input = refl
export_at_index dwrt_probe_record_entity_output = refl
export_at_index dwrt_probe_record_entity_touch = refl
export_at_index dwrt_probe_snapshot = refl
export_at_index dwrt_probe_reset_counters = refl

export_or : Option Export → Export
export_or none = dwrt_abi_version
export_or (some e) = e

export_index-injective : (e f : Export) → export_index e ≡ export_index f → e ≡ f
unfolding export_or
export_index-injective e f h =
    ap export_or (sym (export_at_index e) ∙ ap (λ i. get_elem? bind_order i) h ∙ export_at_index f)

abbrev pub IsIn : Export → List Export → Type 0
IsIn x [] = ⊥
IsIn x (e ∷ es) = (x ≡ e) ⊎ IsIn x es

IsIn-at : (x : Export) (es : List Export) (i : ℕ) → get_elem? es i ≡ some x → IsIn x es
IsIn-at x [] i h = absurd (ground (arith, h))
IsIn-at x (e ∷ es) zero h = inl (ground (arith, h))
IsIn-at x (e ∷ es) (suc i) h = inr (IsIn-at x es i h)

pub IsIn-all : (x : Export) → IsIn x bind_order
IsIn-all x = IsIn-at x bind_order (export_index x) (export_at_index x)

module _ (api : RuntimeApi) where
  open api use {World, load_library, free_library, last_error, get_proc_address}

  -- The export is bound to the address that the DLL gives, and that is not null.
  pub record IsBound (w : World) (h : ℕ) (b : Bindings) (e : Export) : Type 0 where
    pub address : b e ≡ get_proc_address w h (export_name e)
    pub present : b e ≢ 0

  write_binding-Bound :
      (w : World) (h : ℕ) (b : Bindings) (e x : Export)
      → get_proc_address w h (export_name e) ≢ 0
      → (x ≡ e) ⊎ IsBound w h b x
      → IsBound w h (write_binding b e (get_proc_address w h (export_name e))) x
  write_binding-Bound w h b e x ne o = elim (Bool-cases (export_index x == export_index e)) [
    | inl same ↦
        let q = export_index-injective x e (==→eq _ _ same) in
        record {
          address = rw same (ap (λ y. get_proc_address w h (export_name y)) (sym q));
          present = rw same ne;
        }
    | inr other ↦ elim o [
      | inl q ↦ absurd (true≢false (sym (eq→== _ _ (ap export_index q)) ∙ other))
      | inr bound ↦ record { address = rw other bound.address; present = rw other bound.present }
    ]
  ]

  -- What the chain of calls of `bind` did.
  pub data Bound (w : World) (h : ℕ) : Bindings × Option Export → Type 0 where
    all_bound : {b : Bindings} → ((e : Export) → IsBound w h b e) → Bound w h (b, none)
    one_missing :
        {b : Bindings} (e : Export)
        → get_proc_address w h (export_name e) ≡ 0
        → Bound w h (b, some e)

  pub bind_all-Bound :
      (w : World) (h : ℕ) (es : List Export) (b : Bindings)
      → ((x : Export) → IsIn x es ⊎ IsBound w h b x)
      → Bound w h (bind_all api w h es b)
  unfolding bind_all
  bind_all-Bound w h [] b o = all_bound (λ x. elim (o x) [ inl i ↦ absurd i | inr y ↦ y ])
  bind_all-Bound w h (e ∷ es) b o = elim (Bool-cases (get_proc_address w h (export_name e) == 0)) [
    | inl missing ↦ rw missing (one_missing e (==→eq _ _ missing))
    | inr present ↦
        let ne : get_proc_address w h (export_name e) ≢ 0 =
          λ z. true≢false (sym (eq→== _ _ z) ∙ present) in
        rw present (
          bind_all-Bound w h es _ (λ x. elim (o x) [
            | inl (inl q) ↦ inr (write_binding-Bound w h b e x ne (inl q))
            | inl (inr i) ↦ inl i
            | inr y ↦ inr (write_binding-Bound w h b e x ne (inr y))
          ]))
  ]

  -- How `load` ends, from the world of the shim after `unload`: the DLL is not loaded; or an export
  -- is missing, and the DLL is freed; or every export is bound.
  pub data Loaded (w : World) (h : ℕ) : DwrtShadowShim api × Option (List ℕ) → Type 0 where
    refused :
        {s : DwrtShadowShim api}
        → h ≡ 0
        → s.handle ≡ 0
        → s.bindings ≡ no_bindings
        → s.runtime ≡ 0
        → s.world ≡ w
        → Loaded w h (
          s,
          some (
              codes "failed to load DWRT runtime DLL (GetLastError="
              ++ (last_error w ++ codes ")")),
        )
    missing :
        {s : DwrtShadowShim api} (e : Export)
        → get_proc_address w h (export_name e) ≡ 0
        → s.handle ≡ 0
        → s.bindings ≡ no_bindings
        → s.runtime ≡ 0
        → s.world ≡ free_library w h
        → Loaded w h (s, some (codes "missing DWRT runtime export: " ++ export_name e))
    ready :
        {s : DwrtShadowShim api}
        → h ≢ 0
        → s.handle ≡ h
        → ((e : Export) → IsBound w h s.bindings e)
        → s.runtime ≡ 0
        → s.world ≡ w
        → Loaded w h (s, none)

  -- A shim without a DLL.
  pub record IsEmpty (s : DwrtShadowShim api) : Type 0 where
    pub handle : s.handle ≡ 0
    pub bindings : s.bindings ≡ no_bindings
    pub runtime : s.runtime ≡ 0

  pub unload-Empty : (s : DwrtShadowShim api) → IsEmpty (unload api s)
  unfolding unload release_module destroy_runtime
  unload-Empty s = elim (Bool-cases (s.handle == 0)) [
    | inl e ↦ rw e (record { handle = ==→eq _ _ e; bindings = refl; runtime = refl })
    | inr e ↦ rw e (record { handle = refl; bindings = refl; runtime = refl })
  ]

  finish_load-Loaded :
      (s : DwrtShadowShim api) (h : ℕ) (b : Bindings × Option Export)
      → IsEmpty s
      → h ≢ 0
      → Bound s.world h b
      → Loaded s.world h (finish_load api s h b)
  unfolding finish_load
  finish_load-Loaded s h (b, none) z ne (all_bound bound) = ready ne refl bound z.runtime refl
  finish_load-Loaded s h (b, some e) z ne (one_missing e' p) =
      missing e p z.handle refl z.runtime refl

  load_unloaded-Loaded :
      (s : DwrtShadowShim api) (runtime_path : List ℕ)
      → IsEmpty s
      → Loaded
          (load_library s.world runtime_path).0
          (load_library s.world runtime_path).1
          (load_unloaded api s runtime_path)
  unfolding load_unloaded
  load_unloaded-Loaded s runtime_path z =
      elim (Bool-cases ((load_library s.world runtime_path).1 == 0)) [
        | inl null_handle ↦
            rw null_handle (refused (==→eq _ _ null_handle) z.handle z.bindings z.runtime refl)
        | inr present ↦ rw present (
            finish_load-Loaded (record s { world = (load_library s.world runtime_path).0 })
              (load_library s.world runtime_path).1 _
              (record { handle = z.handle; bindings = z.bindings; runtime = z.runtime })
              (λ e. true≢false (sym (eq→== _ _ e) ∙ present))
              (bind_all-Bound _ _ bind_order _ (λ x. inl (IsIn-all x))))
      ]

  -- Whatever was loaded before, `load` unloads it and then ends in one of three ways: the new DLL could not
  -- be loaded, and the message is that of the operating system's error; or an export is missing, the new DLL
  -- is freed again, and the message names the export; or every export is bound to an address of the new DLL
  -- that is not null. In the first two cases no handle and no binding is left, and there is a runtime in none.
  pub load-Loaded :
      (s : DwrtShadowShim api) (runtime_path : List ℕ)
      → let opened = load_library (unload api s).world runtime_path in
        Loaded opened.0 opened.1 (load api s runtime_path)
  unfolding load
  load-Loaded s runtime_path = load_unloaded-Loaded (unload api s) runtime_path (unload-Empty s)
