-- ===== src/Scanner/Module/AllRvas.antt =====
-- find_pattern_rvas of native/dwrt-host/dwrt_signature_scanner.cpp against the list of all places
-- of a pattern in the code of a module.
use dwrt.Prelude.{
  ℕ, zero, suc, ◌+◌, ◌-◌, ◌≤◌, ◌<◌, ◌≡◌, ◌≢◌, refl, sym, ap, ◌∙◌, true, false, inl, inr, List, [],
  ◌∷◌, ◌++◌, append-nil, append_assoc, arith, leb, if◌then◌else◌, length, length-append,
  length-take, take, take-all, take-append, take-append_le, map, All, Bool-cases, leb→le, leb→lt,
  lt→leb, u32, u32_max, Memory, ne→==,
}
use mathlib.Core.Path.{ap₂}
use dwrt.Scanner.Compile.{CompiledPattern}
use dwrt.Scanner.Find.{find_pattern}
use dwrt.Scanner.Find.Occurrences.{occurrences, find_pattern-occurrences}
use dwrt.Scanner.Find.Exact.{find_pattern-StandsAt}
use dwrt.Scanner.Module.{
  SectionRange, PeModuleView, read_span, scan_size, is_skipped, push_matches, section_bytes,
  scan_section, scan_sections, find_pattern_rvas,
}

pub length-read_span : (memory : Memory) (address n : ℕ) → length (read_span memory address n) ≡ n
unfolding read_span
length-read_span memory address zero = refl
length-read_span memory address (suc n) = ap suc (length-read_span memory (address + 1) n)

-- The addresses, relative to the module, at which the pattern stands in one section.
abbrev pub section_rvas : Memory → PeModuleView → CompiledPattern → SectionRange → List ℕ
section_rvas memory m pattern s =
    if is_skipped m pattern s
    then []
    else map (λ offset. s.virtual_address + offset) (occurrences (section_bytes memory m s) pattern)

-- Those of all sections, in the order of the section table.
unfoldable pub all_rvas : Memory → PeModuleView → CompiledPattern → List SectionRange → List ℕ
all_rvas memory m pattern [] = []
all_rvas memory m pattern (s ∷ ss) = section_rvas memory m pattern s ++ all_rvas memory m pattern ss

push_one :
    (va offset : ℕ)
    → va + offset ≤ u32_max
    → (leb offset (u32_max - va) ≡ true) × (u32 (va + offset) ≡ va + offset)
push_one va offset h = (ground arith, omega arith)

length-snoc : (xs : List ℕ) (x : ℕ) → length (xs ++ (x ∷ [])) ≡ length xs + 1
length-snoc xs x = length-append xs (x ∷ [])

-- One round, at an address that fits into 32 bits.
push_matches_step :
    (va max_matches : ℕ) (matches : List ℕ) (offset : ℕ) (offsets : List ℕ)
    → va + offset ≤ u32_max
    → push_matches va max_matches matches (offset ∷ offsets) ≡ (
        if leb max_matches (length matches + 1)
        then (matches ++ ((va + offset) ∷ []), true)
        else push_matches va max_matches (matches ++ ((va + offset) ∷ [])) offsets)
unfolding push_matches
push_matches_step va max_matches matches offset offsets small =
    rw (
      (push_one va offset small).0,
      (push_one va offset small).1,
      length-snoc matches (va + offset),
    )

push_matches-All :
    (va max_matches : ℕ) (matches offsets : List ℕ)
    → All (λ offset. va + offset ≤ u32_max) offsets
    → length matches < max_matches
    → length matches + length offsets ≤ max_matches
    → push_matches va max_matches matches offsets ≡ (
      matches ++ map (λ offset. va + offset) offsets,
      leb max_matches (length matches + length offsets),
    )
push_matches-All va max_matches matches [] small h room =
    unfold push_matches in
    rw (append-nil matches, lt→leb max_matches (length matches + 0) (omega arith))
push_matches-All va max_matches matches (offset ∷ []) small h room =
    push_matches_step va max_matches matches offset [] small.0
    ∙ elim (Bool-cases (leb max_matches (length matches + 1))) [
      | inl full ↦ rw full
      | inr more ↦ rw more (unfold push_matches in refl)
    ]
push_matches-All va max_matches matches (offset ∷ o ∷ os) small h room =
    push_matches_step va max_matches matches offset (o ∷ os) small.0
    ∙ rw (lt→leb max_matches (length matches + 1) (omega arith)) (
        push_matches-All va max_matches (matches ++ ((va + offset) ∷ [])) (o ∷ os) small.1
          (omega (arith, length-snoc matches (va + offset)))
          (omega (arith, length-snoc matches (va + offset)))
        ∙ rw (length-snoc matches (va + offset)) (
            rw (append_assoc matches ((va + offset) ∷ []) (map (λ k. va + k) (o ∷ os))) (
              ap (λ k. (matches ++ map (λ k. va + k) (offset ∷ o ∷ os), leb max_matches k))
                {x = length matches + 1 + suc (length os)} (omega arith))))

All-weaken : {P Q : ℕ → Type 0} (xs : List ℕ) → ((x : ℕ) → P x → Q x) → All P xs → All Q xs
All-weaken [] f h = tt
All-weaken (x ∷ xs) f h = (f x h.0, All-weaken xs f h.1)

length-map : (f : ℕ → ℕ) (xs : List ℕ) → length (map f xs) ≡ length xs
length-map f [] = refl
length-map f (x ∷ xs) = ap suc (length-map f xs)

map-take : (f : ℕ → ℕ) (n : ℕ) (xs : List ℕ) → map f (take n xs) ≡ take n (map f xs)
map-take f zero xs = refl
map-take f (suc n) [] = refl
map-take f (suc n) (x ∷ xs) = ap (λ t. f x ∷ t) (map-take f n xs)

-- The first `n` of `xs ++ more`, where `xs` is shorter and the rest comes from `ys` alone.
take-append-full :
    (n : ℕ) (xs ys zs : List ℕ)
    → length xs ≤ n
    → n - length xs ≤ length ys
    → take n (xs ++ (ys ++ zs)) ≡ xs ++ take (n - length xs) ys
take-append-full n xs ys zs h k =
    take-append n xs (ys ++ zs)
    ∙ ap₂ ◌++◌ (take-all n xs h) (take-append_le (n - length xs) ys zs k)

module _ (memory : Memory) (m : PeModuleView) (pattern : CompiledPattern) (max_matches : ℕ)
    (small : m.image_size ≤ u32_max) (some_bytes : pattern ≢ []) where
  abbrev section_occurrences : SectionRange → List ℕ
  section_occurrences s = occurrences (section_bytes memory m s) pattern

  nonempty : (p : CompiledPattern) → p ≢ [] → 0 < length p
  nonempty [] h = absurd (h refl)
  nonempty (b ∷ bs) h = omega arith

  -- Nothing that is found wraps around.
  matches_fit :
      (s : SectionRange) (limit : ℕ)
      → is_skipped m pattern s ≡ false
      → All
          (λ offset. s.virtual_address + offset ≤ u32_max)
          (find_pattern (section_bytes memory m s) pattern limit)
  unfolding is_skipped
  matches_fit s limit scanned =
      All-weaken _
        (λ offset stands.
          let size = length-read_span memory (m.base + s.virtual_address) (scan_size m s) in
          let some = nonempty pattern some_bytes in
          let room = stands.0 in
          let inside : s.virtual_address < m.image_size = ground arith in
          omega (arith, size, some, room, inside))
        (find_pattern-StandsAt (section_bytes memory m s) pattern limit some_bytes)

  scan_section_lem :
      (s : SectionRange) (matches : List ℕ)
      → is_skipped m pattern s ≡ false
      → length matches < max_matches
      → let found = take (max_matches - length matches) (section_occurrences s) in
        scan_section memory m pattern max_matches s matches ≡ (
          matches ++ map (λ offset. s.virtual_address + offset) found,
          leb max_matches (length matches + length found),
        )
  unfolding scan_section
  scan_section_lem s matches scanned h =
      let limit = max_matches - length matches in
      let found = find_pattern-occurrences (section_bytes memory m s) pattern limit some_bytes in
      let count = length-take limit (section_occurrences s) in
      rw found (
        push_matches-All s.virtual_address max_matches matches (take limit (section_occurrences s))
          (rw found at (matches_fit s limit scanned)) h (omega (arith, count, h)))

  scan_sections_step :
      (s : SectionRange) (ss : List SectionRange) (matches : List ℕ)
      → is_skipped m pattern s ≡ false
      → length matches < max_matches
      → ((more : List ℕ)
          → length more < max_matches
          → scan_sections memory m pattern max_matches ss more
            ≡ take max_matches (more ++ all_rvas memory m pattern ss))
      → scan_sections memory m pattern max_matches (s ∷ ss) matches
        ≡ take max_matches (matches ++ all_rvas memory m pattern (s ∷ ss))
  unfolding scan_sections all_rvas
  scan_sections_step s ss matches scanned h later =
      let limit = max_matches - length matches in
      let occ = section_occurrences s in
      let shift = λ (offset : ℕ). s.virtual_address + offset in
      let count = length-take limit occ in
      let mapped = length-map shift occ in
      rw (scanned, scan_section_lem s matches scanned h)
        (elim (Bool-cases (leb max_matches (length matches + length (take limit occ)))) [
          | inl full ↦
              let enough = leb→le max_matches (length matches + length (take limit occ)) full in
              rw full (
                ap (λ t. matches ++ t) (map-take shift limit occ)
                ∙ sym (
                    take-append-full max_matches matches (map shift occ)
                      (all_rvas memory m pattern ss) (omega (arith, h))
                      (omega (arith, enough, count, mapped, h))))
          | inr more ↦
              let short = leb→lt max_matches (length matches + length (take limit occ)) more in
              let whole = take-all limit occ (omega (arith, short, count, h)) in
              let grown = length-append matches (map shift occ) in
              rw more (
                rw whole (
                  later (matches ++ map shift occ)
                    (omega (arith, short, count, mapped, grown, ap length whole))
                  ∙ ap (take max_matches)
                      (append_assoc matches (map shift occ) (all_rvas memory m pattern ss))))
        ])

  scan_sections-take :
      (ss : List SectionRange) (matches : List ℕ)
      → length matches < max_matches
      → scan_sections memory m pattern max_matches ss matches
        ≡ take max_matches (matches ++ all_rvas memory m pattern ss)
  unfolding scan_sections all_rvas
  scan_sections-take [] matches h =
      rw (append-nil matches) (sym (take-all max_matches matches (omega arith)))
  scan_sections-take (s ∷ ss) matches h = elim (Bool-cases (is_skipped m pattern s)) [
    | inl skipped ↦ rw skipped (scan_sections-take ss matches h)
    | inr scanned ↦ scan_sections_step s ss matches scanned h (scan_sections-take ss)
  ]

-- The search of a module gives the first `max_matches` addresses at which the pattern stands in a
-- code section, in the order of the section table; no address wraps around.
pub find_pattern_rvas-all_rvas :
    (memory : Memory) (m : PeModuleView) (pattern : CompiledPattern) (max_matches : ℕ)
    → m.image_size ≤ u32_max
    → pattern ≢ []
    → m.base ≢ 0
    → find_pattern_rvas memory m pattern max_matches
      ≡ take max_matches (all_rvas memory m pattern m.sections)
unfolding find_pattern_rvas
find_pattern_rvas-all_rvas memory m [] max_matches small bytes based = absurd (bytes refl)
find_pattern_rvas-all_rvas memory m (b ∷ bs) zero small bytes based = refl
find_pattern_rvas-all_rvas memory m (b ∷ bs) (suc k) small bytes based =
    rw (ne→== m.base 0 based, ne→== (suc k) 0 (omega arith))
      (scan_sections-take memory m (b ∷ bs) (suc k) small bytes m.sections [] (omega arith))
