-- ===== src/Host/Tests.antt =====
-- Small modules and hook libraries, for native/dwrt-host/dwrt_host.cpp.
use dwrt.Prelude.{
  ℕ, ◌+◌, ◌≡◌, ◌≢◌, refl, ◌⊎◌, inl, inr, true, List, [], ◌∷◌, arith, codes, Memory, memory_of, ok,
  All, ◌==◌, if◌then◌else◌, map,
}
use dwrt.Hooks.{HookError, HookLibrary, not_enough_space}
use dwrt.Manifest.{SignatureDescriptor}
use dwrt.Scanner.Compile.{
  CompiledPattern, compile_pattern, literal_byte, wildcard_byte, compile_from, skip_space,
  take_token, compile_token, is_space, is_hex_digit, nibble, parse_hex_byte, is_wildcard_token,
}
use dwrt.Scanner.Find.{match_loop}
use dwrt.Scanner.Find.Occurrences.{occurrences}
use dwrt.Scanner.Module.{PeModuleView, is_skipped, read_span}
use dwrt.Scanner.Module.AllRvas.{all_rvas}
use dwrt.Host.Signatures.{resolve_mapped_signature, check_signatures}
use dwrt.Host.Signatures.Unique.{Verdict, resolve_mapped_signature-Verdict}
use dwrt.Host.Signatures.Validation.{Located, check_signatures-Located}
use dwrt.Host.Install.{Originals, slot_index, HookState, install_probe_hooks}
use dwrt.Host.Install.AllOrNothing.{AllOrNothing, install_probe_hooks-AllOrNothing}

abbrev sample : SignatureDescriptor
sample = record {
  name = codes "CBaseEntity::TakeDamageOld";
  module_name = codes "server.dll";
  surface = codes "Damage";
  pattern = codes "48 ?? 8B";
  expected_rva = 17;
  required = true;
  reference = codes "test";
}

abbrev sample_pattern : CompiledPattern
sample_pattern = literal_byte 0x48 ∷ wildcard_byte ∷ literal_byte 0x8b ∷ []

sample_compiles : compile_pattern sample.pattern ≡ ok sample_pattern
unfolding compile_pattern compile_from skip_space take_token compile_token is_space is_hex_digit
    nibble parse_hex_byte is_wildcard_token
sample_compiles = refl

abbrev server : PeModuleView
server = record {
  path = codes "server.dll";
  base = 4096;
  image_base = 4096;
  image_size = 64;
  timestamp = 0;
  sections =
      record {
        name = codes ".text";
        virtual_address = 16;
        virtual_size = 6;
        raw_offset = 8;
        raw_size = 8;
        characteristics = 0x60000020;
      }
      ∷ [];
}

abbrev loaded : Memory
loaded = memory_of ((4112, 0x40 ∷ 0x48 ∷ 1 ∷ 0x8b ∷ 2 ∷ 3 ∷ []) ∷ [])

server_based : server.base ≢ 0
server_based e = absurd (omega (arith, e))

one_place : all_rvas loaded server sample_pattern server.sections ≡ 17 ∷ []
unfolding all_rvas is_skipped read_span occurrences match_loop
one_place = refl

resolve_mapped_signature-Verdict_example :
    Verdict sample
      (all_rvas loaded server sample_pattern server.sections)
      (resolve_mapped_signature loaded server sample)
resolve_mapped_signature-Verdict_example =
    resolve_mapped_signature-Verdict loaded server sample sample_pattern (omega arith) server_based
      sample_compiles

check_signatures-Located_example :
    let checked = check_signatures loaded server 0 (sample ∷ []) ([], 0) in
    (checked.0 ≡ map (resolve_mapped_signature loaded server) (sample ∷ []))
    × (checked.1 ≡ 0
        → All
            (λ d.
              (pattern : CompiledPattern)
              → d.required ≡ true
              → compile_pattern d.pattern ≡ ok pattern
              → Located 0 d (all_rvas loaded server pattern server.sections))
            (sample ∷ []))
check_signatures-Located_example =
    check_signatures-Located loaded server 0 (sample ∷ []) (omega arith) server_based

-- A library that keeps the live hooks in a list, and cannot enable a hook at one address.
abbrev create_hook : List ℕ → ℕ → ℕ → List ℕ × (HookError ⊎ ℕ)
create_hook w target detour = (target ∷ w, inr target)

abbrev enable_hook : List ℕ → ℕ → List ℕ × (HookError ⊎ ℕ)
enable_hook w h =
    if h == 4113 then (w, inl (record { error_type = not_enough_space; ip = h })) else (w, inr h)

abbrev remove_hook : List ℕ → ℕ → List ℕ
remove_hook [] h = []
remove_hook (x ∷ w) h = if x == h then w else x ∷ remove_hook w h

abbrev listing : HookLibrary
listing = record {
  World = List ℕ;
  Hook = ℕ;
  create = create_hook;
  original = λ h. h + 1000;
  enable = enable_hook;
  destroy = remove_hook;
  show_pointer = λ p. [];
}

abbrev before : HookState listing
before = record {
  world = [];
  records = [];
  originals = λ s. 0;
  hook_install_attempts = 0;
  hooks_installed = 0;
  hook_install_failures = 0;
  last_error = [];
}

abbrev detour_table : Originals
detour_table s = slot_index s + 1

install_probe_hooks-AllOrNothing_example :
    let (done, status) =
      install_probe_hooks listing server
        (resolve_mapped_signature loaded server sample ∷ [])
        detour_table
        before in
    AllOrNothing listing done status
install_probe_hooks-AllOrNothing_example =
    install_probe_hooks-AllOrNothing listing server
      (resolve_mapped_signature loaded server sample ∷ []) detour_table before
