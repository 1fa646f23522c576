-- ===== src/Host/Signatures/Unique.antt =====
-- resolve_mapped_signature of native/dwrt-host/dwrt_host.cpp: its search stops at three matches,
-- and still tells a unique signature from any other.
use dwrt.Prelude.{
  ℕ, ◌≤◌, ◌≡◌, ◌≢◌, refl, sym, ◌∙◌, true, false, none, some, List, [], ◌∷◌, take, ◌==◌, ◌||◌,
  u32_max, Memory, Result, ok, err,
}
use dwrt.Manifest.{SignatureDescriptor}
use dwrt.Scanner.Compile.{CompiledPattern, compile_pattern, refuse_empty}
use dwrt.Scanner.Compile.Tokens.{tokens, compile_tokens, compile_pattern-tokens}
use dwrt.Scanner.Module.{PeModuleView}
use dwrt.Scanner.Module.AllRvas.{all_rvas, find_pattern_rvas-all_rvas}
use dwrt.Host.Signatures.{
  HostResolvedSignature, judge_matches, resolve_mapped_signature, not_found_error, ambiguous_error,
}

-- How a signature is judged when the places of its pattern are all known.
abbrev pub Verdict : SignatureDescriptor → List ℕ → HostResolvedSignature → Type 0
Verdict d [] s = (s.unique ≡ false) × (s.rva ≡ none) × (s.error ≡ not_found_error)
Verdict d (r ∷ []) s =
    (s.unique ≡ true)
    × (s.rva ≡ some r)
    × (s.expected_rva_ok ≡ ((d.expected_rva == 0) || (r == d.expected_rva)))
    × (s.error ≡ [])
Verdict d (r ∷ q ∷ rs) s = (s.unique ≡ false) × (s.rva ≡ none) × (s.error ≡ ambiguous_error)

judge_matches-Verdict :
    (d : SignatureDescriptor) (places : List ℕ) → Verdict d places (judge_matches d (take 3 places))
unfolding judge_matches
judge_matches-Verdict d [] = (refl, refl, refl)
judge_matches-Verdict d (r ∷ []) = (refl, refl, refl, refl)
judge_matches-Verdict d (r ∷ q ∷ rs) = (refl, refl, refl)

refuse_empty_ne :
    (r : Result CompiledPattern) (p : CompiledPattern) → refuse_empty r ≡ ok p → p ≢ []
unfolding refuse_empty
refuse_empty_ne (err e) p h = cc
refuse_empty_ne (ok []) p h = cc
refuse_empty_ne (ok (b ∷ bs)) p h = λ e. cc

-- A compiled pattern has at least one byte.
compile_pattern_ne : (text : List ℕ) (p : CompiledPattern) → compile_pattern text ≡ ok p → p ≢ []
compile_pattern_ne text p e =
    refuse_empty_ne (compile_tokens (tokens text)) p (sym (compile_pattern-tokens text) ∙ e)

-- The verdict on a signature is that of all its places in the module's code: it is unique, with
-- that address, exactly when it stands at one place.
pub resolve_mapped_signature-Verdict :
    (memory : Memory) (m : PeModuleView) (d : SignatureDescriptor) (pattern : CompiledPattern)
    → m.image_size ≤ u32_max
    → m.base ≢ 0
    → compile_pattern d.pattern ≡ ok pattern
    → Verdict d (all_rvas memory m pattern m.sections) (resolve_mapped_signature memory m d)
unfolding resolve_mapped_signature
resolve_mapped_signature-Verdict memory m d pattern small based e =
    rw (e, resolve_mapped_signature)
      (rw
        (find_pattern_rvas-all_rvas memory m pattern 3 small
          (compile_pattern_ne d.pattern pattern e) based)
        (judge_matches-Verdict d (all_rvas memory m pattern m.sections)))
