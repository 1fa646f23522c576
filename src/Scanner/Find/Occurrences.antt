-- ===== src/Scanner/Find/Occurrences.antt =====
-- find_pattern of native/dwrt-host/dwrt_signature_scanner.cpp against the list of all places.
use dwrt.Prelude.{
  ℕ, zero, suc, ◌+◌, ◌-◌, ◌<◌, ◌≡◌, ◌≢◌, refl, sym, ap, ◌∙◌, inl, inr, List, [], ◌∷◌, ◌++◌,
  append-nil, append_assoc, arith, leb, if◌then◌else◌, length, length-append, take, take-all, keep,
  Bool-cases, ne→==, leb→ltb, leb→ltb_short, leb→le, leb→lt,
}
use dwrt.Scanner.Compile.{CompiledPattern}
use dwrt.Scanner.Find.{match_loop, scan_from, find_pattern}

-- The `n` numbers from `a` on.
abbrev pub range_from : ℕ → ℕ → List ℕ
range_from a zero = []
range_from a (suc n) = a ∷ range_from (a + 1) n

-- How many offsets leave room for the pattern.
abbrev pub places : List ℕ → CompiledPattern → ℕ
places haystack pattern =
    if leb (length pattern) (length haystack) then suc (length haystack - length pattern) else 0

-- Every offset at which the pattern stands, in ascending order.
unfoldable pub occurrences : List ℕ → CompiledPattern → List ℕ
occurrences haystack pattern =
    keep (λ offset. match_loop haystack offset 0 pattern) (range_from 0 (places haystack pattern))

take-append_full : (xs ys : List ℕ) (n : ℕ) → n ≡ length xs → take n (xs ++ ys) ≡ xs
take-append_full [] ys zero e = refl
take-append_full [] ys (suc n) e = absurd (omega arith)
take-append_full (x ∷ xs) ys zero e = absurd (omega arith)
take-append_full (x ∷ xs) ys (suc n) e = ap (λ t. x ∷ t) (take-append_full xs ys n (omega arith))

module _ (haystack : List ℕ) (pattern : CompiledPattern) (max_matches : ℕ) where
  abbrev hits : ℕ → ℕ → List ℕ
  hits offset rounds =
      keep (λ offset. match_loop haystack offset 0 pattern) (range_from offset rounds)

  scan_from-take :
      (rounds offset : ℕ) (matches : List ℕ)
      → length matches < max_matches
      → scan_from haystack pattern max_matches rounds offset matches
        ≡ take max_matches (matches ++ hits offset rounds)
  unfolding scan_from
  scan_from-take zero offset matches h =
      rw (append-nil matches) (sym (take-all max_matches matches (omega arith)))
  scan_from-take (suc rounds) offset matches h =
      elim (Bool-cases (match_loop haystack offset 0 pattern)) [
        | inl hit ↦
            let found = matches ++ (offset ∷ []) in
            let later = hits (offset + 1) rounds in
            let grown = length-append matches (offset ∷ []) in
            let regroup = ap (take max_matches) (append_assoc matches (offset ∷ []) later) in
            rw hit (elim (Bool-cases (leb max_matches (length found))) [
              | inl full ↦ rw full (
                  sym (
                    take-append_full found later max_matches
                      (omega (arith, leb→le max_matches (length found) full, grown, h)))
                  ∙ regroup)
              | inr more ↦ rw more (
                  scan_from-take rounds (offset + 1) found (leb→lt max_matches (length found) more)
                  ∙ regroup)
            ])
        | inr miss ↦ rw miss (scan_from-take rounds (offset + 1) matches h)
      ]

-- find_pattern gives the first `max_matches` places of a pattern, in ascending order.
pub find_pattern-occurrences :
    (haystack : List ℕ) (pattern : CompiledPattern) (max_matches : ℕ)
    → pattern ≢ []
    → find_pattern haystack pattern max_matches ≡ take max_matches (occurrences haystack pattern)
unfolding find_pattern occurrences
find_pattern-occurrences haystack [] max_matches h = absurd (h refl)
find_pattern-occurrences haystack (b ∷ bs) zero h = ground arith
find_pattern-occurrences haystack (b ∷ bs) (suc k) h =
    elim (Bool-cases (leb (suc (length bs)) (length haystack))) [
      | inl room ↦
          rw (room, leb→ltb (suc (length bs)) (length haystack) room, ne→== (suc k) 0 (omega arith))
            (scan_from-take haystack (b ∷ bs) (suc k) (suc (length haystack - suc (length bs))) 0 []
              (omega arith))
      | inr short ↦ rw (short, leb→ltb_short (suc (length bs)) (length haystack) short) refl
    ]
