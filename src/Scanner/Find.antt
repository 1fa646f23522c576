-- ===== src/Scanner/Find.antt =====
-- find_pattern of native/dwrt-host/dwrt_signature_scanner.cpp: the offsets at which a pattern
-- stands in a range of bytes.
pub mod Occurrences
pub mod Exact
use dwrt.Prelude.{
  ℕ, zero, suc, ◌+◌, ◌-◌, Bool, true, false, not, ◌&&◌, ◌||◌, List, [], ◌∷◌, ◌++◌, leb, ltb, ◌==◌,
  if◌then◌else◌, length, get_or, null,
}
use dwrt.Scanner.Compile.{CompiledPattern}

-- The inner loop: the bytes of the pattern from `index` on, at `offset`. The scan never reads past
-- the end, where `get_or` would give 0.
unfoldable pub match_loop : List ℕ → ℕ → ℕ → CompiledPattern → Bool
match_loop haystack offset index [] = true
match_loop haystack offset index (b ∷ bs) =
    if not b.wildcard && not (get_or haystack (offset + index) 0 == b.value)
    then false
    else match_loop haystack offset (index + 1) bs

-- The outer loop, with the number of offsets that are left to try.
unfoldable pub scan_from :
    List ℕ → CompiledPattern → ℕ → (rounds : ℕ) (offset : ℕ) (matches : List ℕ) → List ℕ
scan_from haystack pattern max_matches zero offset matches = matches
scan_from haystack pattern max_matches (suc rounds) offset matches =
    let found = matches ++ (offset ∷ []) in
    let after_match = scan_from haystack pattern max_matches rounds (offset + 1) found in
    let after_miss = scan_from haystack pattern max_matches rounds (offset + 1) matches in
    if match_loop haystack offset 0 pattern
    then (if leb max_matches (length found) then found else after_match)
    else after_miss

unfoldable pub find_pattern : List ℕ → CompiledPattern → ℕ → List ℕ
find_pattern haystack pattern max_matches =
    if null pattern || (ltb (length haystack) (length pattern) || max_matches == 0)
    then []
    else scan_from haystack pattern max_matches (suc (length haystack - length pattern)) 0 []
