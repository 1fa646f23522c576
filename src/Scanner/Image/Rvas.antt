-- ===== src/Scanner/Image/Rvas.antt =====
-- rva_from_file_offset of native/dwrt-host/dwrt_signature_scanner.cpp.
use dwrt.Prelude.{
  ℕ, ◌+◌, ◌-◌, ◌≡◌, ◌<◌, ◌≤◌, refl, sym, inl, inr, true, false, Option, none, some, List, [], ◌∷◌,
  ◌++◌, arith, ltb, u32_max, All, Bool-cases, append-nil, append_assoc,
}
use dwrt.Scanner.Module.{SectionRange}
use dwrt.Scanner.Image.{is_raw_in, first_raw_offset, rva_in_sections, rva_from_file_offset}

-- The file offset lies in the raw data of the section.
pub record IsRawIn (offset : ℕ) (s : SectionRange) : Type 0 where
  pub begins : s.raw_offset ≤ offset
  pub ends : offset < s.raw_offset + s.raw_size

-- What becomes of a file offset: one above 32 bits has no address, and for any other the first section that
-- holds it decides.
pub data Placed (sections : List SectionRange) (offset : ℕ) : Option ℕ → Type 0 where
  too_large : u32_max < offset → Placed sections offset none
  in_section :
      (before after : List SectionRange) (s : SectionRange)
      → sections ≡ before ++ (s ∷ after)
      → All (λ t. IsRawIn offset t → ⊥) before
      → IsRawIn offset s
      → offset ≤ u32_max
      → s.virtual_address + (offset - s.raw_offset) ≤ u32_max
      → Placed sections offset (some (s.virtual_address + (offset - s.raw_offset)))
  wraps :
      (before after : List SectionRange) (s : SectionRange)
      → sections ≡ before ++ (s ∷ after)
      → All (λ t. IsRawIn offset t → ⊥) before
      → IsRawIn offset s
      → offset ≤ u32_max
      → u32_max < s.virtual_address + (offset - s.raw_offset)
      → Placed sections offset none
  in_headers :
      All (λ t. IsRawIn offset t → ⊥) sections
      → offset < first_raw_offset sections
      → offset ≤ u32_max
      → Placed sections offset (some offset)
  nowhere :
      All (λ t. IsRawIn offset t → ⊥) sections
      → first_raw_offset sections ≤ offset
      → offset ≤ u32_max
      → Placed sections offset none

is_raw_in-true : (offset : ℕ) (s : SectionRange) → is_raw_in offset s ≡ true → IsRawIn offset s
is_raw_in-true offset s h = record { begins = ground (arith, h); ends = ground (arith, h) }

is_raw_in-false :
    (offset : ℕ) (s : SectionRange) → is_raw_in offset s ≡ false → IsRawIn offset s → ⊥
is_raw_in-false offset s h i = ground (arith, h, i.begins, i.ends)

none_holds-snoc :
    (offset : ℕ) (ss : List SectionRange) (s : SectionRange)
    → All (λ t. IsRawIn offset t → ⊥) ss
    → (IsRawIn offset s → ⊥)
    → All (λ t. IsRawIn offset t → ⊥) (ss ++ (s ∷ []))
none_holds-snoc offset [] s a p = (p, tt)
none_holds-snoc offset (t ∷ ss) s (q, a) p = (q, none_holds-snoc offset ss s a p)

-- The section loop, past some sections that do not hold the offset.
rva_in_sections-Placed :
    (offset : ℕ) (before ss : List SectionRange) (outside : Option ℕ)
    → offset ≤ u32_max
    → All (λ t. IsRawIn offset t → ⊥) before
    → All (λ t. t.virtual_address ≤ u32_max) ss
    → (All (λ t. IsRawIn offset t → ⊥) (before ++ ss) → Placed (before ++ ss) offset outside)
    → Placed (before ++ ss) offset (rva_in_sections offset ss outside)
unfolding rva_in_sections
rva_in_sections-Placed offset before [] outside fits none_before narrow place =
    place (rw (append-nil before) none_before)
rva_in_sections-Placed offset before (s ∷ ss) outside fits none_before (small, narrow) place =
    elim (Bool-cases (is_raw_in offset s)) [
      | inl holds ↦ elim (Bool-cases (ltb (u32_max - s.virtual_address) (offset - s.raw_offset))) [
        | inl over ↦
            rw (holds, over)
              (wraps before ss s refl none_before (is_raw_in-true offset s holds) fits
                (ground (arith, over)))
        | inr within ↦
            rw (holds, within)
              (in_section before ss s refl none_before (is_raw_in-true offset s holds) fits
                (ground (arith, within, small)))
      ]
      | inr other ↦
          let same : before ++ (s ∷ ss) ≡ (before ++ (s ∷ [])) ++ ss =
            sym (append_assoc before (s ∷ []) ss) in
          rw (other, same)
            (rva_in_sections-Placed offset (before ++ (s ∷ [])) ss outside fits
              (none_holds-snoc offset before s none_before (is_raw_in-false offset s other)) narrow
              (rw (sym same) place))
    ]

-- A file offset above 32 bits has no relative address, whatever section holds it. Any other offset gets the
-- address that the first section which holds it gives, or none if that does not fit 32 bits; an offset in no
-- section stands for itself before the first section's data and has no address elsewhere. Sections start
-- at addresses of 32 bits.
pub rva_from_file_offset-Placed :
    (sections : List SectionRange) (offset : ℕ)
    → All (λ s. s.virtual_address ≤ u32_max) sections
    → Placed sections offset (rva_from_file_offset sections offset)
unfolding rva_from_file_offset
rva_from_file_offset-Placed sections offset narrow = elim (Bool-cases (ltb u32_max offset)) [
  | inl large ↦ rw large (too_large (ground (arith, large)))
  | inr small ↦
      let fits : offset ≤ u32_max = ground (arith, small) in
      rw small (
        rva_in_sections-Placed offset [] sections _ fits tt narrow (λ none_holds.
          elim (Bool-cases (ltb offset (first_raw_offset sections))) [
            | inl head ↦ rw head (in_headers none_holds (ground (arith, head)) fits)
            | inr past ↦ rw past (nowhere none_holds (ground (arith, past)) fits)
          ]))
]
