-- ===== src/Scanner/Image/Tests.antt =====
-- A small image, for native/dwrt-host/dwrt_signature_scanner.cpp.
use dwrt.Prelude.{◌≡◌, refl, some, [], ◌∷◌, arith, codes, Memory, memory_of, load_le, ok, err}
use dwrt.Scanner.Module.{SectionRange}
use dwrt.Scanner.Image.{
  read_name, section_name, section_range, read_sections, view_of_headers, from_module_handle,
  rva_in_sections, rva_from_file_offset,
}
use dwrt.Scanner.Image.Rvas.{Placed, rva_from_file_offset-Placed}

-- The headers at 4096, with one section.
abbrev headers : Memory
headers = memory_of (
    (4096, 0x4d ∷ 0x5a ∷ [])
    ∷ (4156, 64 ∷ [])
    ∷ (4160, 0x50 ∷ 0x45 ∷ [])
    ∷ (4166, 1 ∷ [])
    ∷ (4180, 240 ∷ [])
    ∷ (4184, 0x0b ∷ 2 ∷ [])
    ∷ (4241, 0x20 ∷ [])
    ∷ (4424, codes ".text")
    ∷ (4432, 0x40 ∷ [])
    ∷ (4437, 0x10 ∷ [])
    ∷ (4441, 2 ∷ [])
    ∷ (4445, 4 ∷ [])
    ∷ (4460, 0x20 ∷ 0 ∷ 0 ∷ 0x60 ∷ [])
    ∷ [])

abbrev text_section : SectionRange
text_section = record {
  name = codes ".text";
  virtual_address = 4096;
  virtual_size = 64;
  raw_offset = 1024;
  raw_size = 512;
  characteristics = 0x60000020;
}

headers_read :
    from_module_handle headers 4096 (codes "server.dll")
    ≡ ok (record {
      path = codes "server.dll";
      base = 4096;
      image_base = 4096;
      image_size = 8192;
      timestamp = 0;
      sections = text_section ∷ [];
    })
unfolding from_module_handle view_of_headers read_sections section_range section_name read_name
    load_le
headers_read = refl

no_headers :
    from_module_handle headers 4097 (codes "server.dll")
    ≡ err (codes "loaded module missing MZ signature")
unfolding from_module_handle load_le
no_headers = refl

rva_of_text : rva_from_file_offset (text_section ∷ []) 1040 ≡ some 4112
unfolding rva_from_file_offset rva_in_sections
rva_of_text = refl

rva_from_file_offset-Placed_example :
    Placed (text_section ∷ []) 1040 (rva_from_file_offset (text_section ∷ []) 1040)
rva_from_file_offset-Placed_example =
    rva_from_file_offset-Placed (text_section ∷ []) 1040 (omega arith, tt)
