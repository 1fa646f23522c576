-- ===== src/Scanner/Find/Exact.antt =====
-- What the offsets of find_pattern of native/dwrt-host/dwrt_signature_scanner.cpp mean: byte by
-- byte, and none left out below the limit.
use dwrt.Prelude.{
  ℕ, zero, suc, ◌+◌, ◌≤◌, ◌<◌, ◌≡◌, ◌≢◌, ◌↔◌, ◌⊎◌, refl, sym, subst, Bool, true, inl, inr, List, [],
  ◌∷◌, some, arith, length, take, take-all, length-take, keep, get_elem?, get_or, All, Bool-cases,
}
use mathlib.Core.Path.{subst₂}
use mathlib.Core.Option.{some-injective}
use native.Mathlib.Decide.{dec_lt}
use dwrt.Scanner.Compile.{PatternByte, CompiledPattern}
use dwrt.Scanner.Find.{match_loop, find_pattern}
use dwrt.Scanner.Find.Occurrences.{range_from, places, occurrences, find_pattern-occurrences}

-- Each byte of the pattern is a wildcard or stands in the range at its place.
abbrev pub MatchesAt : List ℕ → CompiledPattern → ℕ → Type 0
MatchesAt haystack pattern offset =
    (i : ℕ) (b : PatternByte)
    → get_elem? pattern i ≡ some b
    → (b.wildcard ≡ true) ⊎ (get_elem? haystack (offset + i) ≡ some b.value)

abbrev pub Member : ℕ → List ℕ → Type 0
Member a [] = ⊥
Member a (x ∷ xs) = (a ≡ x) ⊎ Member a xs

-- The pattern stands at `offset`, inside the range.
abbrev pub StandsAt : List ℕ → CompiledPattern → ℕ → Type 0
StandsAt haystack pattern offset =
    (offset + length pattern ≤ length haystack) × MatchesAt haystack pattern offset

get_elem?-get_or : (xs : List ℕ) (i : ℕ) → i < length xs → get_elem? xs i ≡ some (get_or xs i 0)
get_elem?-get_or [] i h = absurd (omega arith)
get_elem?-get_or (x ∷ xs) zero h = refl
get_elem?-get_or (x ∷ xs) (suc i) h = get_elem?-get_or xs i (omega arith)

add-zero_place : (a b : ℕ) → a + b ≡ a + (b + 0)
add-zero_place a b = omega arith

add-suc_place : (a b i : ℕ) → a + ((b + 1) + i) ≡ a + (b + suc i)
add-suc_place a b i = omega arith

from-zero : (a i : ℕ) → a + (0 + i) ≡ a + i
from-zero a i = omega arith

module _ (haystack : List ℕ) where
  -- As `MatchesAt`, for the part of a pattern that starts at its byte `index`.
  abbrev Suffix : ℕ → ℕ → CompiledPattern → Type 0
  Suffix offset index pattern =
      (i : ℕ) (b : PatternByte)
      → get_elem? pattern i ≡ some b
      → (b.wildcard ≡ true) ⊎ (get_elem? haystack (offset + (index + i)) ≡ some b.value)

  -- The test of one byte of a pattern.
  abbrev Fits : ℕ → PatternByte → Type 0
  Fits place b = (b.wildcard ≡ true) ⊎ (get_elem? haystack place ≡ some b.value)

  match_loop_split :
      (offset index : ℕ) (c : PatternByte) (cs : CompiledPattern)
      → offset + (index + suc (length cs)) ≤ length haystack
      → match_loop haystack offset index (c ∷ cs) ≡ true
      → Fits (offset + index) c × (match_loop haystack offset (index + 1) cs ≡ true)
  unfolding match_loop
  match_loop_split offset index c cs h e =
      ground (arith, get_elem?-get_or haystack (offset + index) (omega arith))

  match_loop_join :
      (offset index : ℕ) (c : PatternByte) (cs : CompiledPattern)
      → offset + (index + suc (length cs)) ≤ length haystack
      → Fits (offset + index) c
      → match_loop haystack offset (index + 1) cs ≡ true
      → match_loop haystack offset index (c ∷ cs) ≡ true
  unfolding match_loop
  match_loop_join offset index c cs h f e =
      ground (arith, get_elem?-get_or haystack (offset + index) (omega arith))

  match_loop→Suffix :
      (offset index : ℕ) (pattern : CompiledPattern)
      → offset + (index + length pattern) ≤ length haystack
      → match_loop haystack offset index pattern ≡ true
      → Suffix offset index pattern
  match_loop→Suffix offset index [] h e i b g = cc
  match_loop→Suffix offset index (c ∷ cs) h e zero b g =
      subst₂ Fits (add-zero_place offset index) (some-injective c b g)
        (match_loop_split offset index c cs h e).0
  match_loop→Suffix offset index (c ∷ cs) h e (suc i) b g =
      subst (λ k. Fits k b) (add-suc_place offset index i)
        (match_loop→Suffix offset (index + 1) cs (omega arith)
          (match_loop_split offset index c cs h e).1 i b g)

  Suffix→match_loop :
      (offset index : ℕ) (pattern : CompiledPattern)
      → offset + (index + length pattern) ≤ length haystack
      → Suffix offset index pattern
      → match_loop haystack offset index pattern ≡ true
  Suffix→match_loop offset index [] h s = unfold match_loop in refl
  Suffix→match_loop offset index (c ∷ cs) h s =
      match_loop_join offset index c cs h
        (subst (λ k. Fits k c) (sym (add-zero_place offset index)) (s 0 c refl))
        (Suffix→match_loop offset (index + 1) cs (omega arith)
          (λ i b g. subst (λ k. Fits k b) (sym (add-suc_place offset index i)) (s (suc i) b g)))

  match_loop_iff :
      (offset : ℕ) (pattern : CompiledPattern)
      → offset + length pattern ≤ length haystack
      → (match_loop haystack offset 0 pattern ≡ true) ↔ MatchesAt haystack pattern offset
  match_loop_iff offset pattern h = (
    λ e i b g.
        subst (λ k. Fits k b) (from-zero offset i)
          (match_loop→Suffix offset 0 pattern (omega arith) e i b g),
    λ s.
        Suffix→match_loop offset 0 pattern (omega arith)
          (λ i b g. subst (λ k. Fits k b) (sym (from-zero offset i)) (s i b g)),
  )

All-keep-range :
    (P : ℕ → Type 0) (p : ℕ → Bool) (a n : ℕ)
    → ((k : ℕ) → k < a + n → p k ≡ true → P k)
    → All P (keep p (range_from a n))
All-keep-range P p a zero h = tt
All-keep-range P p a (suc n) h =
    let rest : All P (keep p (range_from (a + 1) n)) =
      All-keep-range P p (a + 1) n (λ k below. h k (omega arith)) in
    elim (Bool-cases (p a)) [ inl e ↦ rw e (h a (omega arith) e, rest) | inr e ↦ rw e rest ]

Member-keep-range :
    (p : ℕ → Bool) (a n k : ℕ) → a ≤ k → k < a + n → p k ≡ true → Member k (keep p (range_from a n))
Member-keep-range p a zero k lo hi e = absurd (omega arith)
Member-keep-range p a (suc n) k lo hi e = elim (dec_lt a k) [
  | yes above ↦
      let rest : Member k (keep p (range_from (a + 1) n)) =
        Member-keep-range p (a + 1) n k (omega arith) (omega arith) e in
      elim (Bool-cases (p a)) [ inl t ↦ rw t (inr rest) | inr f ↦ rw f rest ]
  | no not_above ↦ let here : k ≡ a = omega arith in rw (subst (λ t. p t ≡ true) here e) (inl here)
]

All-take : (P : ℕ → Type 0) (n : ℕ) (xs : List ℕ) → All P xs → All P (take n xs)
All-take P zero xs h = tt
All-take P (suc n) [] h = tt
All-take P (suc n) (x ∷ xs) h = (h.0, All-take P n xs h.1)

take_below : (n : ℕ) (xs : List ℕ) → length (take n xs) < n → take n xs ≡ xs
take_below n xs h = take-all n xs (omega (arith, length-take n xs))

-- Every offset that find_pattern returns is a place of the pattern, inside the range.
pub find_pattern-StandsAt :
    (haystack : List ℕ) (pattern : CompiledPattern) (max_matches : ℕ)
    → pattern ≢ []
    → All (StandsAt haystack pattern) (find_pattern haystack pattern max_matches)
unfolding occurrences
find_pattern-StandsAt haystack pattern max_matches h =
    rw (find_pattern-occurrences haystack pattern max_matches h) (
      All-take (StandsAt haystack pattern) max_matches (occurrences haystack pattern) (
        All-keep-range (StandsAt haystack pattern) _ 0 (places haystack pattern) (λ k below e.
          let room : k + length pattern ≤ length haystack = ground arith in
          (room, (match_loop_iff haystack k pattern room).0 e))))

-- Below its limit, find_pattern leaves out no place of the pattern.
pub find_pattern_complete :
    (haystack : List ℕ) (pattern : CompiledPattern) (max_matches offset : ℕ)
    → pattern ≢ []
    → StandsAt haystack pattern offset
    → length (find_pattern haystack pattern max_matches) < max_matches
    → Member offset (find_pattern haystack pattern max_matches)
unfolding occurrences
find_pattern_complete haystack pattern max_matches offset h s short =
    let all = find_pattern-occurrences haystack pattern max_matches h in
    rw (all, take_below max_matches (occurrences haystack pattern) (rw all at short))
      (Member-keep-range (λ o. match_loop haystack o 0 pattern) 0 (places haystack pattern) offset
        (omega arith) (let room = s.0 in ground arith)
        ((match_loop_iff haystack offset pattern s.0).1 s.1))
