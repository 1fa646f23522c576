-- ===== src/Host/Install/AllOrNothing.antt =====
-- install_probe_hooks of native/dwrt-host/dwrt_host.cpp installs all of its hooks or none.
use dwrt.Prelude.{
  ℕ, ◌+◌, ◌≡◌, ◌≢◌, ◌⊎◌, refl, sym, ◌∙◌, inl, inr, List, [], ◌∷◌, ◌++◌, map, append_assoc, ap, true,
  eq→==, arith, ◌==◌, Bool-cases, ==→eq,
}
use mathlib.Core.Bool.{false≢true}
use mathlib.Core.List.{append-nil}
use dwrt.Hooks.{HookLibrary}
use dwrt.Hooks.Backend.{InlineHookRecord, reset}
use dwrt.Scanner.Module.{PeModuleView}
use dwrt.Host.Signatures.{HostResolvedSignature}
use dwrt.Host.Install.{
  Slot, Originals, no_originals, hook_name, install_order, HookState, install, install_all,
  clear_hooks, begin_install, finish_install, install_probe_hooks, ok_status,
  error_hook_install_failed, resolved_target_address,
}
use dwrt.Host.Install.Facts.{
  Records, Progress, Later, install_inline_outcome, count_install-Progress,
}

-- All hooks stand, in the order of installation, and each original is the trampoline of its hook;
-- or none stands, no original is left, and some installation failed. All seven were tried.
abbrev pub AllOrNothing : (lib : HookLibrary) → HookState lib → ℕ → Type 0
AllOrNothing lib st status =
    (st.hooks_installed + st.hook_install_failures ≡ 7)
    × (st.hook_install_attempts ≡ 7)
    × (((status ≡ ok_status)
          × (st.hook_install_failures ≡ 0)
          × (map (λ (r : InlineHookRecord lib). r.name) st.records ≡ map hook_name install_order)
          × (map (λ (r : InlineHookRecord lib). r.trampoline) st.records
              ≡ map st.originals install_order))
        ⊎ ((status ≡ error_hook_install_failed)
            × (st.hook_install_failures ≢ 0)
            × (st.records ≡ [])
            × (st.originals ≡ no_originals)))

module _ (lib : HookLibrary) where
  open lib use {World}

  reset_nil : (w : World) (rs : Records lib) → (reset lib w rs).1 ≡ []
  unfolding reset
  reset_nil w [] = refl
  reset_nil w (r ∷ rs) = reset_nil (lib.destroy w r.hook) rs

  clear_hooks_records : (st : HookState lib) → (clear_hooks lib st).records ≡ []
  unfolding clear_hooks
  clear_hooks_records st = reset_nil st.world st.records

  -- Each slot comes after those before it.
  abbrev Fresh : List Slot → List Slot → Type 0
  Fresh done [] = Unit
  Fresh done (s ∷ ss) = Later lib s done × Fresh (done ++ (s ∷ [])) ss

  begin_install-Progress : (st : HookState lib) → Progress lib (begin_install lib st) []
  unfolding begin_install clear_hooks
  begin_install-Progress st =
      let none_left = reset_nil st.world st.records in
      record {
        counted = omega arith;
        attempts = refl;
        names = λ z. ap (map (λ (r : InlineHookRecord lib). r.name)) none_left;
        trampolines = λ z. ap (map (λ (r : InlineHookRecord lib). r.trampoline)) none_left;
      }

  module _ (m : PeModuleView) (signatures : List HostResolvedSignature) (detours : Originals) where
    install_all-Progress :
        (ss done : List Slot) (st : HookState lib)
        → Fresh done ss
        → Progress lib st done
        → Progress lib (install_all lib m signatures detours ss st) (done ++ ss)
    unfolding install_all install
    install_all-Progress [] done st f p = rw append-nil p
    install_all-Progress (s ∷ ss) done st f p = rw (← append_assoc done (s ∷ []) ss) (
        install_all-Progress ss (done ++ (s ∷ [])) (install lib m signatures detours st s) f.1 (
          count_install-Progress lib st s done _ f.0
            (install_inline_outcome lib st.world st.records (hook_name s)
              (resolved_target_address m signatures (hook_name s)) (detours s) true)
            p))

    install_order-Fresh : Fresh [] install_order
    install_order-Fresh = omega arith

  decided :
      (st : HookState lib)
      → Progress lib st install_order
      → let (done, status) = finish_install lib st in AllOrNothing lib done status
  unfolding finish_install
  decided st p = elim (Bool-cases (st.hook_install_failures == 0)) [
    | inl z ↦
        let zero_failures = ==→eq st.hook_install_failures 0 z in
        rw z (
          p.counted,
          p.attempts,
          inl (refl, zero_failures, p.names zero_failures, p.trampolines zero_failures),
        )
    | inr nz ↦
        let cleared = clear_hooks_records st in
        rw nz (
          unfold clear_hooks in
          (
            p.counted,
            p.attempts,
            inr (refl, λ e. false≢true (sym nz ∙ eq→== _ 0 e), cleared, refl),
          ))
  ]

-- Whatever the hook library answers, the installation leaves all seven hooks or none.
pub install_probe_hooks-AllOrNothing :
    (lib : HookLibrary) (m : PeModuleView) (signatures : List HostResolvedSignature)
    (detours : Originals) (st : HookState lib)
    → let (done, status) = install_probe_hooks lib m signatures detours st in
      AllOrNothing lib done status
unfolding install_probe_hooks
install_probe_hooks-AllOrNothing lib m signatures detours st =
    decided lib (install_all lib m signatures detours install_order (begin_install lib st)) (
      install_all-Progress lib m signatures detours install_order [] (begin_install lib st)
        (install_order-Fresh lib m signatures detours) (begin_install-Progress lib st))
