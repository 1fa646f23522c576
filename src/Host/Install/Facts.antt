-- ===== src/Host/Install/Facts.antt =====
-- One call of `install` in native/dwrt-host/dwrt_host.cpp: a hook is added, or a failure counted.
use dwrt.Prelude.{
  ℕ, ◌+◌, ◌<◌, ◌≡◌, refl, sym, ap, ◌∙◌, ◌⊎◌, inl, inr, Bool, ◌||◌, none, some, List, [], ◌∷◌, ◌++◌,
  map, ◌==◌, not, arith, All, Bool-cases, ne→==, eq→==, length, length-append,
}
use mathlib.Core.Path.{ap₂}
use mathlib.Core.List.{map-append}
use dwrt.Hooks.{HookError, HookLibrary}
use dwrt.Hooks.Backend.{InlineHookRecord, Installed, keep_enabled, enable_created, install_inline}
use dwrt.Host.Install.{
  Slot, slot_index, Originals, write_original, hook_name, HookState, count_install,
}

module _ (lib : HookLibrary) where
  open lib use {World, Hook, create, enable}

  abbrev pub Records : Type 0
  Records = List (InlineHookRecord lib)

  -- Added: one record at the end, with its trampoline written out. Refused: the records stay.
  abbrev pub InstallOutcome : Records → List ℕ → Installed lib → Type 0
  InstallOutcome records name i =
      ((r : InlineHookRecord lib) × (i.outcome ≡ none)
        × (i.records ≡ records ++ (r ∷ []))
        × (r.name ≡ name)
        × (i.original_out ≡ some r.trampoline))
      ⊎ ((m : List ℕ) × (i.outcome ≡ some m) × (i.records ≡ records))

  keep_enabled_outcome :
      (records : Records) (name : List ℕ) (target detour : ℕ) (h : Hook)
      (e : World × (HookError ⊎ Hook))
      → InstallOutcome records name (keep_enabled lib records name target detour h e)
  unfolding keep_enabled
  keep_enabled_outcome records name target detour h (w, inl e) = inr (_, refl, refl)
  keep_enabled_outcome records name target detour h (w, inr k) = inl (_, refl, refl, refl, refl)

  enable_created_outcome :
      (records : Records) (name : List ℕ) (target detour : ℕ) (c : World × (HookError ⊎ Hook))
      → InstallOutcome records name (enable_created lib records name target detour c)
  unfolding enable_created
  enable_created_outcome records name target detour (w, inl e) = inr (_, refl, refl)
  enable_created_outcome records name target detour (w, inr h) =
      keep_enabled_outcome records name target detour h (enable w h)

  -- Every call of `install_inline` adds its hook or leaves the records as they were.
  pub install_inline_outcome :
      (w : World) (records : Records) (name : List ℕ) (target detour : ℕ) (has_out : Bool)
      → InstallOutcome records name (install_inline lib w records name target detour has_out)
  unfolding install_inline
  install_inline_outcome w records name target detour has_out =
      elim (Bool-cases (target == 0 || (detour == 0 || not has_out))) [
        | inl null ↦ rw null (inr (_, refl, refl))
        | inr given ↦
            rw given (enable_created_outcome records name target detour (create w target detour))
      ]

  abbrev record_name : InlineHookRecord lib → List ℕ
  record_name r = r.name

  abbrev record_trampoline : InlineHookRecord lib → ℕ
  record_trampoline r = r.trampoline

  -- The hooks so far, one for each of `done`: names and trampolines, in order.
  pub record Progress (st : HookState lib) (done : List Slot) : Type 0 where
    pub counted : st.hooks_installed + st.hook_install_failures ≡ length done
    pub attempts : st.hook_install_attempts ≡ 7
    pub names :
        st.hook_install_failures ≡ 0
        → map (λ (r : InlineHookRecord lib). r.name) st.records ≡ map hook_name done
    pub trampolines :
        st.hook_install_failures ≡ 0
        → map (λ (r : InlineHookRecord lib). r.trampoline) st.records ≡ map st.originals done

  -- A slot that comes after all that are done.
  abbrev pub Later : Slot → List Slot → Type 0
  Later s done = All (λ d. slot_index d < slot_index s) done

  write_original_self : (o : Originals) (s : Slot) (v : ℕ) → write_original o s (some v) s ≡ v
  write_original_self o s v = rw (eq→== (slot_index s) (slot_index s) refl)

  map-write_original :
      (o : Originals) (s : Slot) (v : ℕ) (done : List Slot)
      → Later s done
      → map (write_original o s (some v)) done ≡ map o done
  map-write_original o s v [] h = refl
  map-write_original o s v (d ∷ ds) h =
      ap₂ ◌∷◌ (rw (ne→== (slot_index d) (slot_index s) (λ e. absurd (omega (arith, h.0, e)))))
        (map-write_original o s v ds h.1)

  pub count_install-Progress :
      (st : HookState lib) (s : Slot) (done : List Slot) (i : Installed lib)
      → Later s done
      → InstallOutcome st.records (hook_name s) i
      → Progress st done
      → Progress (count_install lib st s i) (done ++ (s ∷ []))
  unfolding count_install
  count_install-Progress st s done i later (inl (r, ok, grown, name, out)) p = rw ok (record {
    counted = omega (arith, length-append done (s ∷ []), p.counted);
    attempts = p.attempts;
    names = λ z.
        ap (map record_name) grown
        ∙ map-append record_name st.records (r ∷ [])
        ∙ ap₂ ◌++◌ (p.names z) (ap (λ n. n ∷ []) name)
        ∙ sym (map-append hook_name done (s ∷ []));
    trampolines = λ z.
        ap (map record_trampoline) grown
        ∙ map-append record_trampoline st.records (r ∷ [])
        ∙ ap₂ ◌++◌
            (p.trampolines z ∙ sym (map-write_original st.originals s r.trampoline done later))
            (ap (λ n. n ∷ []) (sym (write_original_self st.originals s r.trampoline)))
        ∙ sym (map-append (write_original st.originals s (some r.trampoline)) done (s ∷ []))
        ∙ ap (λ out. map (write_original st.originals s out) (done ++ (s ∷ []))) (sym out);
  })
  count_install-Progress st s done i later (inr (m, failed, same)) p = rw failed (record {
    counted = omega (arith, length-append done (s ∷ []), p.counted);
    attempts = p.attempts;
    names = λ z. absurd (omega (arith, z));
    trampolines = λ z. absurd (omega (arith, z));
  })
