-- ===== src/Scanner/Image.antt =====
-- PeImageFile::load, PeImageFile::rva_from_file_offset and PeModuleView::from_module_handle of
-- native/dwrt-host/dwrt_signature_scanner.cpp. The structures of windows.h are read by their
-- documented offsets.
pub mod Rvas
mod Tests
use dwrt.Prelude.{
  ℕ, zero, suc, ◌+◌, ◌-◌, ◌*◌, Bool, true, false, not, ◌&&◌, ◌||◌, Option, none, some, List, [],
  ◌∷◌, ◌++◌, leb, ltb, ◌==◌, if◌then◌else◌, codes, u32_max, Memory, load_le, Result, ok, err,
}
use dwrt.Scanner.Module.{SectionRange, PeModuleView}

abbrev pub image_dos_signature : ℕ
image_dos_signature = 0x5a4d

abbrev pub image_nt_signature : ℕ
image_nt_signature = 0x4550

abbrev pub image_nt_optional_hdr64_magic : ℕ
image_nt_optional_hdr64_magic = 0x20b

-- `sizeof(IMAGE_DOS_HEADER)` and `sizeof(IMAGE_NT_HEADERS64)`.
abbrev pub dos_header_size : ℕ
dos_header_size = 64

abbrev pub nt_headers64_size : ℕ
nt_headers64_size = 264

abbrev pub e_magic : Memory → ℕ → ℕ
e_magic m dos = load_le m dos 2

-- `e_lfanew` is a signed number of 32 bits, here by its bits.
abbrev pub e_lfanew : Memory → ℕ → ℕ
e_lfanew m dos = load_le m (dos + 60) 4

abbrev pub is_negative : ℕ → Bool
is_negative n = leb 2147483648 n

abbrev pub nt_signature : Memory → ℕ → ℕ
nt_signature m nt = load_le m nt 4

abbrev pub number_of_sections : Memory → ℕ → ℕ
number_of_sections m nt = load_le m (nt + 6) 2

abbrev pub time_date_stamp : Memory → ℕ → ℕ
time_date_stamp m nt = load_le m (nt + 8) 4

abbrev pub optional_magic : Memory → ℕ → ℕ
optional_magic m nt = load_le m (nt + 24) 2

abbrev pub optional_image_base : Memory → ℕ → ℕ
optional_image_base m nt = load_le m (nt + 48) 8

abbrev pub size_of_image : Memory → ℕ → ℕ
size_of_image m nt = load_le m (nt + 80) 4

-- `IMAGE_FIRST_SECTION`
abbrev pub first_section : Memory → ℕ → ℕ
first_section m nt = nt + 24 + load_le m (nt + 20) 2

-- At most `n` bytes, up to the first zero.
unfoldable pub read_name : Memory → ℕ → ℕ → List ℕ
read_name m address zero = []
read_name m address (suc n) =
    let rest = read_name m (address + 1) n in if m address == 0 then [] else m address ∷ rest

unfoldable pub section_name : Memory → ℕ → List ℕ
section_name m section = read_name m section 8

-- The members of one section header.
unfoldable pub section_range : Memory → ℕ → SectionRange
section_range m section = record {
  name = section_name m section;
  virtual_address = load_le m (section + 12) 4;
  virtual_size = load_le m (section + 8) 4;
  raw_offset = load_le m (section + 20) 4;
  raw_size = load_le m (section + 16) 4;
  characteristics = load_le m (section + 36) 4;
}

-- The loop over the section headers, of 40 bytes each.
unfoldable pub read_sections : Memory → ℕ → ℕ → List SectionRange
read_sections m section zero = []
read_sections m section (suc n) = section_range m section ∷ read_sections m (section + 40) n

unfoldable pub view_of_headers : Memory → ℕ → ℕ → List ℕ → PeModuleView
view_of_headers m base nt path_hint = record {
  path = path_hint;
  base = base;
  image_base = base;
  image_size = size_of_image m nt;
  timestamp = time_date_stamp m nt;
  sections = read_sections m (first_section m nt) (number_of_sections m nt);
}

unfoldable pub from_module_handle :
    Memory → (module_handle : ℕ) → (path_hint : List ℕ) → Result PeModuleView
from_module_handle m base path_hint =
    let nt = base + e_lfanew m base in
    if base == 0
    then err (codes "module handle is null")
    else if not (e_magic m base == image_dos_signature)
    then err (codes "loaded module missing MZ signature")
    else if is_negative (e_lfanew m base)
    then err (codes "loaded module has invalid NT header offset")
    else if not (nt_signature m nt == image_nt_signature)
    then err (codes "loaded module missing NT signature")
    else if not (optional_magic m nt == image_nt_optional_hdr64_magic)
    then err (codes "loaded module is not PE32+")
    else ok (view_of_headers m base nt path_hint)

-- `PeImageFile`; the file's bytes are those of the memory from `bytes` on, `size` of them.
pub record PeImageFile : Type 0 where
  pub path : List ℕ
  pub bytes : ℕ
  pub size : ℕ
  pub image_base : ℕ
  pub image_size : ℕ
  pub timestamp : ℕ
  pub sections : List SectionRange

-- What the file stream says: that it opens, the position of its end, and that it reads the bytes.
pub record FileStream : Type 0 where
  pub opens : Bool
  pub end : ℕ
  pub reads : Bool

unfoldable pub image_of_headers : Memory → List ℕ → (bytes size nt : ℕ) → PeImageFile
image_of_headers m path bytes size nt = record {
  path = path;
  bytes = bytes;
  size = size;
  image_base = optional_image_base m nt;
  image_size = size_of_image m nt;
  timestamp = time_date_stamp m nt;
  sections = read_sections m (first_section m nt) (number_of_sections m nt);
}

-- The part of `PeImageFile::load` that follows the reading of the bytes.
unfoldable pub parse_image : Memory → List ℕ → (bytes size : ℕ) → Result PeImageFile
parse_image m path bytes size =
    let nt = bytes + e_lfanew m bytes in
    if ltb size dos_header_size
    then err (codes "PE image too small for DOS header")
    else if not (e_magic m bytes == image_dos_signature)
    then err (codes "PE image missing MZ signature")
    else if is_negative (e_lfanew m bytes) || ltb size (e_lfanew m bytes + nt_headers64_size)
    then err (codes "PE image has invalid NT header offset")
    else if not (nt_signature m nt == image_nt_signature)
    then err (codes "PE image missing NT signature")
    else if not (optional_magic m nt == image_nt_optional_hdr64_magic)
    then err (codes "PE image is not PE32+")
    else ok (image_of_headers m path bytes size nt)

-- The bytes are read to the address `bytes` of the memory.
unfoldable pub load_image : Memory → List ℕ → FileStream → (bytes : ℕ) → Result PeImageFile
load_image m path file bytes =
    if not file.opens
    then err (codes "failed to open PE image: " ++ path)
    else if file.end == 0 || ltb u32_max file.end
    then err (codes "PE image has invalid size")
    else if not file.reads
    then err (codes "failed to read PE image")
    else parse_image m path bytes file.end

-- `offset >= raw_begin && offset < raw_end`
abbrev pub is_raw_in : ℕ → SectionRange → Bool
is_raw_in offset s = leb s.raw_offset offset && ltb offset (s.raw_offset + s.raw_size)

abbrev pub first_raw_offset : List SectionRange → ℕ
first_raw_offset [] = 0
first_raw_offset (s ∷ ss) = s.raw_offset

-- The section loop; `outside` is what follows it.
unfoldable pub rva_in_sections : ℕ → List SectionRange → (outside : Option ℕ) → Option ℕ
rva_in_sections offset [] outside = outside
rva_in_sections offset (s ∷ ss) outside =
    let rest = rva_in_sections offset ss outside in
    if is_raw_in offset s
    then (if ltb (u32_max - s.virtual_address) (offset - s.raw_offset)
        then none
        else some (s.virtual_address + (offset - s.raw_offset)))
    else rest

unfoldable pub rva_from_file_offset : List SectionRange → ℕ → Option ℕ
rva_from_file_offset sections offset =
    if ltb u32_max offset
    then none
    else rva_in_sections offset sections
        (if ltb offset (first_raw_offset sections) then some offset else none)
