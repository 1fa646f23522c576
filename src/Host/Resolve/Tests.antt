-- ===== src/Host/Resolve/Tests.antt =====
-- A server file that is mapped and read, for native/dwrt-host/dwrt_host.cpp.
use dwrt.Prelude.{ℕ, ◌+◌, refl, inr, false, some, none, List, [], ◌∷◌, codes, Memory, memory_of}
use dwrt.Hooks.{HookLibrary}
use dwrt.Host.Resolve.{
  ModuleApi, ServerConfig, fallback_path, ServerState, resolve_server_signatures,
}
use dwrt.Host.Resolve.Fallback.{Mapped, resolve_server_signatures-Mapped}

-- The headers of an image without sections.
abbrev pub headers : Memory
headers = memory_of (
    (4096, 0x4d ∷ 0x5a ∷ [])
    ∷ (4156, 64 ∷ [])
    ∷ (4160, 0x50 ∷ 0x45 ∷ [])
    ∷ (4184, 0x0b ∷ 2 ∷ [])
    ∷ [])

-- No module is loaded, and every file is mapped at 4096; the state is the list of mapped handles.
abbrev pub mapping_api : ModuleApi
mapping_api = record {
  Modules = List ℕ;
  get_module_handle = λ w name. 0;
  load_library_ex = λ w path. (4096 ∷ w, 4096);
  free_library = λ w h. [];
  last_error = λ w. codes "126";
  memory = λ w. headers;
}

abbrev pub no_hooks : HookLibrary
no_hooks = record {
  World = ℕ;
  Hook = ℕ;
  create = λ w target detour. (w + 1, inr target);
  original = λ h. h;
  enable = λ w h. (w, inr h);
  destroy = λ w h. w;
  show_pointer = λ p. [];
}

abbrev pub idle : ServerState no_hooks mapping_api
idle = record {
  modules = [];
  hooks = record {
    world = 0;
    records = [];
    originals = λ s. 0;
    hook_install_attempts = 0;
    hooks_installed = 0;
    hook_install_failures = 0;
    last_error = [];
  };
  signatures_checked = false;
  used_live_server_module = false;
  used_mapped_file_fallback = false;
  signature_required_failures = 0;
  signatures = [];
}

-- The fallback is allowed, and the hooks are asked for.
abbrev hooking_config : ServerConfig
hooking_config = record {
  flags = 20;
  server_module_name = none;
  server_path = some (codes "server.dll");
}

resolve_server_signatures-Mapped_example :
    Mapped no_hooks mapping_api idle
      (resolve_server_signatures no_hooks mapping_api [] (λ s. 1) hooking_config idle).0
      (fallback_path hooking_config (some (codes "server.dll")))
resolve_server_signatures-Mapped_example =
    resolve_server_signatures-Mapped no_hooks mapping_api [] (λ s. 1) hooking_config idle refl
