-- ===== src/Host/Signatures.antt =====
-- resolve_mapped_signature and the validation loop of resolve_server_signatures in
-- native/dwrt-host/dwrt_host.cpp.
pub mod Unique
pub mod Validation
use Prim.Native.Nat.{bit_and}
use dwrt.Prelude.{
  ℕ, suc, ◌+◌, Bool, true, false, not, ◌&&◌, ◌||◌, Option, none, some, List, [], ◌∷◌, ◌++◌, ◌==◌,
  if◌then◌else◌, length, codes, Memory, Result, ok, err,
}
use dwrt.Manifest.{SignatureDescriptor}
use dwrt.Scanner.Compile.{CompiledPattern, compile_pattern}
use dwrt.Scanner.Module.{PeModuleView, find_pattern_rvas}

-- `HostResolvedSignature`
pub record HostResolvedSignature : Type 0 where
  pub descriptor : SignatureDescriptor
  pub rvas : List ℕ
  pub rva : Option ℕ
  pub error : List ℕ
  pub unique : Bool
  pub expected_rva_ok : Bool

abbrev pub not_found_error : List ℕ
not_found_error = codes "signature not found in mapped module"

abbrev pub ambiguous_error : List ℕ
ambiguous_error = codes "signature matched more than once in mapped module"

-- The default members, with the descriptor set.
abbrev unresolved : SignatureDescriptor → HostResolvedSignature
unresolved d = record {
  descriptor = d;
  rvas = [];
  rva = none;
  error = [];
  unique = false;
  expected_rva_ok = false;
}

-- What follows the search: the addresses that were found decide the rest.
unfoldable pub judge_matches : SignatureDescriptor → List ℕ → HostResolvedSignature
judge_matches d [] = record (unresolved d) { error = not_found_error }
judge_matches d (r ∷ []) = record (unresolved d) {
  rvas = r ∷ [];
  rva = some r;
  unique = true;
  expected_rva_ok = (d.expected_rva == 0) || (r == d.expected_rva);
}
judge_matches d (r ∷ q ∷ rs) = record (unresolved d) { rvas = r ∷ q ∷ rs; error = ambiguous_error }

unfoldable pub resolve_mapped_signature :
    Memory → PeModuleView → SignatureDescriptor → HostResolvedSignature
unfolding judge_matches
resolve_mapped_signature memory m d = elim (compile_pattern d.pattern) [
  | err e ↦ record (unresolved d) { error = e }
  | ok pattern ↦ judge_matches d (find_pattern_rvas memory m pattern 3)
]

abbrev pub flag_require_runtime : ℕ
flag_require_runtime = 1

abbrev pub flag_require_signatures : ℕ
flag_require_signatures = 2

abbrev pub flag_allow_mapped_file_fallback : ℕ
flag_allow_mapped_file_fallback = 4

abbrev pub flag_allow_expected_rva_drift : ℕ
flag_allow_expected_rva_drift = 8

abbrev pub flag_install_probe_hooks : ℕ
flag_install_probe_hooks = 16

-- `(flags & flag) != 0`
unfoldable pub has_flag : ℕ → ℕ → Bool
has_flag flags flag = not (bit_and flags flag == 0)

abbrev pub has_value : Option ℕ → Bool
has_value none = false
has_value (some r) = true

-- `sig.unique && sig.rva.has_value() && acceptable_rva`
unfoldable pub is_acceptable : ℕ → HostResolvedSignature → Bool
is_acceptable flags s =
    s.unique
    && (has_value s.rva && (s.expected_rva_ok || has_flag flags flag_allow_expected_rva_drift))

-- The loop over the manifest: the signatures, and how many required ones are not acceptable.
unfoldable pub check_signatures :
    Memory
    → PeModuleView
    → ℕ
    → List SignatureDescriptor
    → List HostResolvedSignature × ℕ
    → List HostResolvedSignature × ℕ
check_signatures memory m flags [] done = done
check_signatures memory m flags (d ∷ ds) (signatures, failures) =
    let s = resolve_mapped_signature memory m d in
    check_signatures memory m flags ds (
      signatures ++ (s ∷ []),
      (if d.required && not (is_acceptable flags s) then suc failures else failures),
    )
