-- ===== src/Scanner/Module.antt =====
-- PeModuleView and find_pattern_rvas of native/dwrt-host/dwrt_signature_scanner.cpp and .hpp: the
-- search of the code sections of a loaded module. Addresses are numbers and 0 is the null pointer.
pub mod AllRvas
use Prim.Native.Nat.{bit_and}
use dwrt.Prelude.{
  ℕ, zero, suc, ◌+◌, ◌-◌, Bool, true, false, not, ◌||◌, List, [], ◌∷◌, ◌++◌, leb, ltb, ◌==◌,
  if◌then◌else◌, length, null, min, u32, u32_max, Memory,
}
use dwrt.Scanner.Compile.{CompiledPattern}
use dwrt.Scanner.Find.{find_pattern}

-- `SectionRange`
pub record SectionRange : Type 0 where
  pub name : List ℕ
  pub virtual_address : ℕ
  pub virtual_size : ℕ
  pub raw_offset : ℕ
  pub raw_size : ℕ
  pub characteristics : ℕ

-- `PeModuleView`; the path is kept for messages only.
pub record PeModuleView : Type 0 where
  pub path : List ℕ
  pub base : ℕ
  pub image_base : ℕ
  pub image_size : ℕ
  pub timestamp : ℕ
  pub sections : List SectionRange

-- `IMAGE_SCN_CNT_CODE | IMAGE_SCN_MEM_EXECUTE`
abbrev pub code_or_execute : ℕ
code_or_execute = 0x20000020

-- `std::span(address, n)`, read out of the memory.
unfoldable pub read_span : Memory → ℕ → ℕ → List ℕ
read_span memory address zero = []
read_span memory address (suc n) = memory address ∷ read_span memory (address + 1) n

-- `section.virtual_size != 0 ? section.virtual_size : section.raw_size`
abbrev pub section_size : SectionRange → ℕ
section_size s = if s.virtual_size == 0 then s.raw_size else s.virtual_size

-- `scan_size`; the subtraction is made only where the section starts inside the image.
abbrev pub scan_size : PeModuleView → SectionRange → ℕ
scan_size m s = min (section_size s) (m.image_size - s.virtual_address)

-- The three tests of the section loop that go on to the next section.
unfoldable pub is_skipped : PeModuleView → CompiledPattern → SectionRange → Bool
is_skipped m pattern s =
    (bit_and s.characteristics code_or_execute == 0)
    || ((section_size s == 0 || leb m.image_size s.virtual_address)
        || ltb (scan_size m s) (length pattern))

-- The loop over the matches of one section; the flag tells that it returned.
unfoldable pub push_matches : ℕ → ℕ → List ℕ → List ℕ → List ℕ × Bool
push_matches virtual_address max_matches matches [] = (matches, false)
push_matches virtual_address max_matches matches (offset ∷ offsets) =
    let matches' =
      (if leb offset (u32_max - virtual_address)
        then matches ++ (u32 (virtual_address + offset) ∷ [])
        else matches) in
    let rest = push_matches virtual_address max_matches matches' offsets in
    if leb max_matches (length matches') then (matches', true) else rest

-- The bytes of a section that are searched.
abbrev pub section_bytes : Memory → PeModuleView → SectionRange → List ℕ
section_bytes memory m s = read_span memory (m.base + s.virtual_address) (scan_size m s)

-- The body of the section loop past its tests.
unfoldable pub scan_section :
    Memory → PeModuleView → CompiledPattern → ℕ → SectionRange → List ℕ → List ℕ × Bool
scan_section memory m pattern max_matches s matches =
    push_matches s.virtual_address max_matches matches
      (find_pattern (section_bytes memory m s) pattern (max_matches - length matches))

-- The section loop.
unfoldable pub scan_sections :
    Memory → PeModuleView → CompiledPattern → ℕ → List SectionRange → List ℕ → List ℕ
scan_sections memory m pattern max_matches [] matches = matches
scan_sections memory m pattern max_matches (s ∷ ss) matches =
    let skip = scan_sections memory m pattern max_matches ss matches in
    let scanned = scan_section memory m pattern max_matches s matches in
    let go_on = scan_sections memory m pattern max_matches ss scanned.0 in
    if is_skipped m pattern s then skip else if scanned.1 then scanned.0 else go_on

unfoldable pub find_pattern_rvas : Memory → PeModuleView → CompiledPattern → ℕ → List ℕ
find_pattern_rvas memory m pattern max_matches =
    if null pattern || (max_matches == 0 || m.base == 0)
    then []
    else scan_sections memory m pattern max_matches m.sections []
