-- ===== src/Host/Signatures/Validation.antt =====
-- What resolve_server_signatures of native/dwrt-host/dwrt_host.cpp has established when no required
-- signature failed.
use dwrt.Prelude.{
  ℕ, suc, ◌≤◌, ◌≡◌, ◌≢◌, ◌⊎◌, inl, inr, refl, sym, ◌∙◌, true, not, ◌&&◌, List, [], ◌∷◌, ◌++◌, arith,
  u32_max, Memory, ok, All, map, append-nil, append_assoc, Bool-cases,
}
use dwrt.Manifest.{SignatureDescriptor}
use dwrt.Scanner.Compile.{CompiledPattern, compile_pattern}
use dwrt.Scanner.Module.{PeModuleView}
use dwrt.Scanner.Module.AllRvas.{all_rvas}
use dwrt.Host.Signatures.{
  HostResolvedSignature, resolve_mapped_signature, has_flag, is_acceptable, check_signatures,
  flag_allow_expected_rva_drift,
}
use dwrt.Host.Signatures.Unique.{Verdict, resolve_mapped_signature-Verdict}

-- The pattern stands at one place only, which is the expected one unless none is or it may drift.
abbrev pub Located : ℕ → SignatureDescriptor → List ℕ → Type 0
Located flags d places =
    (r : ℕ) × (places ≡ r ∷ [])
    × ((d.expected_rva ≡ 0)
        ⊎ ((r ≡ d.expected_rva) ⊎ (has_flag flags flag_allow_expected_rva_drift ≡ true)))

Verdict-Located :
    (flags : ℕ) (d : SignatureDescriptor) (places : List ℕ) (s : HostResolvedSignature)
    → Verdict d places s
    → is_acceptable flags s ≡ true
    → Located flags d places
unfolding is_acceptable
Verdict-Located flags d [] s v h = ground arith
Verdict-Located flags d (r ∷ []) s v h = (r, refl, ground arith)
Verdict-Located flags d (r ∷ q ∷ rs) s v h = ground arith

module _ (memory : Memory) (m : PeModuleView) (flags : ℕ) where
  abbrev Passes : SignatureDescriptor → Type 0
  Passes d = d.required ≡ true → is_acceptable flags (resolve_mapped_signature memory m d) ≡ true

  failures-le :
      (ds : List SignatureDescriptor) (done : List HostResolvedSignature) (n : ℕ)
      → n ≤ (check_signatures memory m flags ds (done, n)).1
  unfolding check_signatures
  failures-le [] done n = omega arith
  failures-le (d ∷ ds) done n =
      let s = resolve_mapped_signature memory m d in
      elim (Bool-cases (d.required && not (is_acceptable flags s))) [
        | inl failed ↦
            rw (failed, check_signatures) (omega (arith, failures-le ds (done ++ (s ∷ [])) (suc n)))
        | inr fine ↦ rw (fine, check_signatures) (failures-le ds (done ++ (s ∷ [])) n)
      ]

  check_signatures-Passes :
      (ds : List SignatureDescriptor) (done : List HostResolvedSignature)
      → (check_signatures memory m flags ds (done, 0)).1 ≡ 0
      → All Passes ds
  unfolding check_signatures
  check_signatures-Passes [] done h = tt
  check_signatures-Passes (d ∷ ds) done h =
      let s = resolve_mapped_signature memory m d in
      elim (Bool-cases (d.required && not (is_acceptable flags s))) [
        | inl failed ↦
            absurd (
              omega
                (arith, failures-le ds (done ++ (s ∷ [])) 1, rw (failed, check_signatures) at h))
        | inr fine ↦ (
          λ r. ground arith,
          check_signatures-Passes ds (done ++ (s ∷ [])) (rw (fine, check_signatures) at h),
        )
      ]

  signatures-resolved :
      (ds : List SignatureDescriptor) (done : List HostResolvedSignature) (n : ℕ)
      → (check_signatures memory m flags ds (done, n)).0
        ≡ done ++ map (resolve_mapped_signature memory m) ds
  unfolding check_signatures
  signatures-resolved [] done n = sym (append-nil done)
  signatures-resolved (d ∷ ds) done n =
      signatures-resolved ds (done ++ (resolve_mapped_signature memory m d ∷ [])) _
      ∙ append_assoc done (resolve_mapped_signature memory m d ∷ []) _

All-Located :
    (memory : Memory) (m : PeModuleView) (flags : ℕ) (ds : List SignatureDescriptor)
    → m.image_size ≤ u32_max
    → m.base ≢ 0
    → All (Passes memory m flags) ds
    → All
        (λ d.
          (pattern : CompiledPattern)
          → d.required ≡ true
          → compile_pattern d.pattern ≡ ok pattern
          → Located flags d (all_rvas memory m pattern m.sections))
        ds
All-Located memory m flags [] small based h = tt
All-Located memory m flags (d ∷ ds) small based h = (
  λ pattern required compiled.
      Verdict-Located flags d _ _
        (resolve_mapped_signature-Verdict memory m d pattern small based compiled) (h.0 required),
  All-Located memory m flags ds small based h.1,
)

-- The loop resolves every descriptor in order, and when it counts no failure then each required
-- pattern stands at exactly one place of the module's code: the expected one, unless no place is
-- expected or the flags let it drift.
pub check_signatures-Located :
    (memory : Memory) (m : PeModuleView) (flags : ℕ) (ds : List SignatureDescriptor)
    → m.image_size ≤ u32_max
    → m.base ≢ 0
    → let checked = check_signatures memory m flags ds ([], 0) in
      (checked.0 ≡ map (resolve_mapped_signature memory m) ds)
      × (checked.1 ≡ 0
          → All
              (λ d.
                (pattern : CompiledPattern)
                → d.required ≡ true
                → compile_pattern d.pattern ≡ ok pattern
                → Located flags d (all_rvas memory m pattern m.sections))
              ds)
check_signatures-Located memory m flags ds small based = (
  signatures-resolved memory m flags ds [] 0,
  λ e. All-Located memory m flags ds small based (check_signatures-Passes memory m flags ds [] e),
)
