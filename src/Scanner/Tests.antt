-- ===== src/Scanner/Tests.antt =====
-- Small patterns and a small module, for native/dwrt-host/dwrt_signature_scanner.cpp.
use dwrt.Prelude.{
  ℕ, ◌≡◌, refl, some, List, [], ◌∷◌, arith, take, codes, Memory, memory_of, ok, err, All,
}
use dwrt.Scanner.Compile.{
  CompiledPattern, wildcard_byte, literal_byte, is_space, is_hex_digit, nibble, parse_hex_byte,
  skip_space, take_token, is_wildcard_token, compile_token, compile_from, compile_pattern,
  invalid_token_error, empty_pattern_error,
}
use dwrt.Scanner.Compile.RoundTrip.{hex_char, render_byte, render, compile_pattern-render}
use dwrt.Scanner.Compile.Tokens.{tokens_from, tokens, compile_tokens, compile_pattern-tokens}
use dwrt.Scanner.Compile.{refuse_empty}
use dwrt.Scanner.Text.{fnv_from, fnv1a64, json_escape, plain, read_string, read_string-json_escape}
use dwrt.Scanner.Find.{match_loop, scan_from, find_pattern}
use dwrt.Scanner.Find.Occurrences.{occurrences, find_pattern-occurrences}
use dwrt.Scanner.Find.Exact.{StandsAt, Member, find_pattern-StandsAt, find_pattern_complete}
use dwrt.Scanner.Module.{
  SectionRange, PeModuleView, read_span, is_skipped, push_matches, scan_section, scan_sections,
  find_pattern_rvas,
}
use dwrt.Scanner.Module.AllRvas.{all_rvas, find_pattern_rvas-all_rvas}

-- "48 ?? 8b"
abbrev sample : CompiledPattern
sample = literal_byte 0x48 ∷ wildcard_byte ∷ literal_byte 0x8b ∷ []

compile_sample : compile_pattern (codes " 48 ?  8b\n") ≡ ok sample
unfolding compile_pattern compile_from skip_space take_token compile_token is_space is_hex_digit
    nibble parse_hex_byte is_wildcard_token
compile_sample = refl

compile_bad : compile_pattern (codes "48 4 8b") ≡ err (invalid_token_error (codes "4"))
unfolding compile_pattern compile_from skip_space take_token compile_token is_space is_hex_digit
    nibble parse_hex_byte is_wildcard_token
compile_bad = refl

compile_nothing : compile_pattern (codes "  ") ≡ err empty_pattern_error
unfolding compile_pattern compile_from skip_space take_token compile_token is_space
compile_nothing = refl

compile_pattern-tokens_example :
    compile_pattern (codes " 48 ?  8b\n")
    ≡ refuse_empty (compile_tokens (codes "48" ∷ codes "?" ∷ codes "8b" ∷ []))
unfolding tokens tokens_from is_space
compile_pattern-tokens_example = compile_pattern-tokens (codes " 48 ?  8b\n")

compile_pattern-render_example : compile_pattern (codes "48 ?? 8B ") ≡ ok sample
unfolding render render_byte hex_char
compile_pattern-render_example =
    compile_pattern-render (literal_byte 0x48) (wildcard_byte ∷ literal_byte 0x8b ∷ [])
      ((omega arith, λ e. cc), ((omega arith, λ e. refl), ((omega arith, λ e. cc), tt)))

abbrev code : List ℕ
code = 0x48 ∷ 1 ∷ 0x8b ∷ 0x48 ∷ 2 ∷ 0x8b ∷ 0x48 ∷ []

find_sample : find_pattern code sample 3 ≡ 0 ∷ 3 ∷ []
unfolding find_pattern scan_from match_loop
find_sample = refl

sample_nonempty : sample ≡ [] → ⊥
sample_nonempty e = cc

find_pattern-occurrences_example : find_pattern code sample 1 ≡ 0 ∷ []
unfolding occurrences match_loop
find_pattern-occurrences_example = find_pattern-occurrences code sample 1 sample_nonempty

find_pattern-StandsAt_example : All (StandsAt code sample) (find_pattern code sample 2)
find_pattern-StandsAt_example = find_pattern-StandsAt code sample 2 sample_nonempty

second_place : StandsAt code sample 3
unfolding find_pattern scan_from match_loop
second_place = (find_pattern-StandsAt code sample 3 sample_nonempty).1.0

find_pattern_complete_example : Member 3 (find_pattern code sample 3)
unfolding find_pattern scan_from match_loop
find_pattern_complete_example =
    find_pattern_complete code sample 3 3 sample_nonempty second_place (omega arith)

abbrev text_section : SectionRange
text_section = record {
  name = codes ".text";
  virtual_address = 16;
  virtual_size = 7;
  raw_offset = 8;
  raw_size = 8;
  characteristics = 0x60000020;
}

abbrev data_section : SectionRange
data_section = record {
  name = codes ".data";
  virtual_address = 32;
  virtual_size = 7;
  raw_offset = 16;
  raw_size = 8;
  characteristics = 0x40000040;
}

abbrev small_module : PeModuleView
small_module = record {
  path = codes "server.dll";
  base = 4096;
  image_base = 4096;
  image_size = 64;
  timestamp = 0;
  sections = data_section ∷ text_section ∷ [];
}

-- The code stands in both sections, and the second alone is searched.
abbrev loaded : Memory
loaded = memory_of ((4112, code) ∷ (4128, code) ∷ [])

sample_rvas : find_pattern_rvas loaded small_module sample 3 ≡ 16 ∷ 19 ∷ []
unfolding find_pattern_rvas scan_sections scan_section push_matches is_skipped read_span
    find_pattern scan_from match_loop
sample_rvas = refl

find_pattern_rvas-all_rvas_example :
    find_pattern_rvas loaded small_module sample 1
    ≡ take 1 (all_rvas loaded small_module sample small_module.sections)
find_pattern_rvas-all_rvas_example =
    find_pattern_rvas-all_rvas loaded small_module sample 1 (omega arith) sample_nonempty
      (λ e. absurd (omega (arith, e)))

-- A quote, a new line and a control character.
read_string-json_escape_example :
    read_string plain (json_escape (34 ∷ 65 ∷ 10 ∷ 27 ∷ [])) ≡ some (34 ∷ 65 ∷ 10 ∷ 27 ∷ [])
read_string-json_escape_example = read_string-json_escape (34 ∷ 65 ∷ 10 ∷ 27 ∷ [])

-- The published hash of the text "a".
hash_of_a : fnv1a64 (codes "a") ≡ 0xaf63dc4c8601ec8c
unfolding fnv1a64 fnv_from
hash_of_a = refl
