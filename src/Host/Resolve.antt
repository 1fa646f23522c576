-- ===== src/Host/Resolve.antt =====
-- resolve_server_signatures of native/dwrt-host/dwrt_host.cpp: the server module is found or mapped, its
-- signatures are checked and, if it is live, the hooks are installed.
pub mod Fallback
pub mod Tests
use dwrt.Prelude.{
  ℕ, ◌+◌, Bool, true, false, not, ◌&&◌, ◌||◌, Option, none, some, List, [], ◌∷◌, ◌++◌, ◌==◌,
  if◌then◌else◌, null, codes, Memory, ok, err, Result,
}
use dwrt.Hooks.{HookLibrary}
use dwrt.Manifest.{SignatureDescriptor}
use dwrt.Scanner.Module.{PeModuleView}
use dwrt.Scanner.Image.{from_module_handle}
use dwrt.Host.Signatures.{
  HostResolvedSignature, check_signatures, has_flag, flag_require_signatures,
  flag_allow_mapped_file_fallback, flag_install_probe_hooks,
}
use dwrt.Host.Install.{
  Originals, HookState, install_probe_hooks, ok_status, error_hook_install_failed,
}

abbrev pub error_server_module_not_found : ℕ
error_server_module_not_found = 7

abbrev pub error_signature_validation_failed : ℕ
error_signature_validation_failed = 8

-- The loader of the operating system, with its state and the memory that it maps.
pub record ModuleApi : Type 1 where
  pub Modules : Type 0
  pub get_module_handle : Modules → List ℕ → ℕ
  pub load_library_ex : Modules → List ℕ → Modules × ℕ
  pub free_library : Modules → ℕ → Modules
  pub last_error : Modules → List ℕ
  pub memory : Modules → Memory

-- The members of `DwrtHostConfig` that are read; `none` is a null pointer.
pub record ServerConfig : Type 0 where
  pub flags : ℕ
  pub server_module_name : Option (List ℕ)
  pub server_path : Option (List ℕ)

unfoldable pub config_string_or : Option (List ℕ) → List ℕ → List ℕ
config_string_or none fallback = fallback
config_string_or (some value) fallback = if null value then fallback else value

-- The path of the fallback, where the flag allows one and it is not empty.
unfoldable pub fallback_path : ServerConfig → Option (List ℕ) → Option (List ℕ)
fallback_path config none = none
fallback_path config (some path) =
    if has_flag config.flags flag_allow_mapped_file_fallback && not (null path)
    then some path
    else none

module _ (lib : HookLibrary) (api : ModuleApi) where
  open api use {Modules, get_module_handle, load_library_ex, free_library, last_error, memory}

  -- The members of `HostState` that the function writes; the hooks have `last_error`.
  pub record ServerState : Type 0 where
    pub modules : Modules
    pub hooks : HookState lib
    pub signatures_checked : Bool
    pub used_live_server_module : Bool
    pub used_mapped_file_fallback : Bool
    pub signature_required_failures : ℕ
    pub signatures : List HostResolvedSignature

  abbrev fail : ServerState → List ℕ → ℕ → ServerState × ℕ
  fail s message status = (record s { hooks = record s.hooks { last_error = message } }, status)

  -- `if (mapped_fallback != nullptr) FreeLibrary(mapped_fallback);`
  unfoldable pub free_fallback : ℕ → ServerState → ServerState
  free_fallback mapped s =
      if mapped == 0 then s else record s { modules = free_library s.modules mapped }

  -- The signature loop, from an empty list on.
  unfoldable pub check_manifest :
      List SignatureDescriptor → ℕ → PeModuleView → ServerState → ServerState
  check_manifest manifest flags m s =
      let (signatures, failures) = check_signatures (memory s.modules) m flags manifest ([], 0) in
      record s {
        signatures = signatures;
        signature_required_failures = failures;
        signatures_checked = true;
      }

  -- The installation, into a module that is not a mapped file.
  unfoldable pub install_live : PeModuleView → Originals → ServerState → ServerState × ℕ
  install_live m detours s =
      let (hooks, status) = install_probe_hooks lib m s.signatures detours s.hooks in
      (record s { hooks = hooks }, status)

  abbrev free_after : ℕ → ServerState × ℕ → ServerState × ℕ
  free_after mapped (s, status) =
      if status == ok_status then (free_fallback mapped s, ok_status) else (s, status)

  -- From the signature loop's end on.
  unfoldable pub use_signatures :
      ℕ → PeModuleView → Originals → (mapped : ℕ) → ServerState → ServerState × ℕ
  use_signatures flags m detours mapped s =
      let refused =
        fail s (codes "required signature validation failed") error_signature_validation_failed in
      let unsafe_target =
        fail s (codes "refusing to install hooks into mapped-file fallback")
          error_hook_install_failed in
      if has_flag flags flag_require_signatures && not (s.signature_required_failures == 0)
      then (free_fallback mapped refused.0, refused.1)
      else if has_flag flags flag_install_probe_hooks
      then (if not (mapped == 0)
          then (free_fallback mapped unsafe_target.0, unsafe_target.1)
          else free_after mapped (install_live m detours s))
      else (free_fallback mapped s, ok_status)

  unfoldable pub view_module :
      List SignatureDescriptor
      → ℕ
      → Originals
      → (mapped : ℕ) → ServerState
      → Result PeModuleView
      → ServerState × ℕ
  view_module manifest flags detours mapped s (err message) =
      let failed = fail s message error_server_module_not_found in
      (free_fallback mapped failed.0, failed.1)
  view_module manifest flags detours mapped s (ok m) =
      use_signatures flags m detours mapped (check_manifest manifest flags m s)

  unfoldable pub map_fallback :
      List SignatureDescriptor → ℕ → Originals → ServerState → Option (List ℕ) → ServerState × ℕ
  map_fallback manifest flags detours s none =
      fail s (codes "server.dll is not loaded and no mapped file fallback was allowed")
        error_server_module_not_found
  map_fallback manifest flags detours s (some path) =
      let (w, mapped) = load_library_ex s.modules path in
      let mapped_state = record s { modules = w; used_mapped_file_fallback = true } in
      if mapped == 0
      then fail (record s { modules = w })
          (codes "failed to map server.dll fallback (GetLastError=" ++ (last_error w ++ codes ")"))
          error_server_module_not_found
      else view_module manifest flags detours mapped mapped_state
          (from_module_handle (memory w) mapped path)

  unfoldable pub resolve_server_signatures :
      List SignatureDescriptor → Originals → ServerConfig → ServerState → ServerState × ℕ
  resolve_server_signatures manifest detours config s =
      let module_name = config_string_or config.server_module_name (codes "server.dll") in
      let live = get_module_handle s.modules module_name in
      if live == 0
      then map_fallback manifest config.flags detours s (fallback_path config config.server_path)
      else view_module manifest config.flags detours 0 (record s { used_live_server_module = true })
          (from_module_handle (memory s.modules) live module_name)
