-- ===== src/Host/Resolve/Fallback.antt =====
-- native/dwrt-host/dwrt_host.cpp: what resolve_server_signatures does with a mapped server file.
use dwrt.Prelude.{
  ℕ, ◌≡◌, ◌≢◌, refl, true, not, ◌&&◌, inl, inr, Option, none, some, List, ◌==◌, ==→eq, ==→ne, ne→==,
  Bool-cases, Result, ok, err, codes,
}
use dwrt.Hooks.{HookLibrary}
use dwrt.Manifest.{SignatureDescriptor}
use dwrt.Scanner.Module.{PeModuleView}
use dwrt.Scanner.Image.{from_module_handle}
use dwrt.Host.Signatures.{has_flag, flag_require_signatures, flag_install_probe_hooks}
use dwrt.Host.Install.{Originals, HookState}
use dwrt.Host.Resolve.{
  ModuleApi, ServerConfig, config_string_or, fallback_path, ServerState, free_fallback,
  check_manifest, use_signatures, view_module, map_fallback, resolve_server_signatures,
}

module _ (lib : HookLibrary) (api : ModuleApi) where
  open api use {Modules, get_module_handle, load_library_ex, free_library}

  -- The hooks are those of before, but for the message.
  pub record IsUnhooked (h k : HookState lib) : Type 0 where
    pub world : k.world ≡ h.world
    pub records : k.records ≡ h.records
    pub originals : k.originals ≡ h.originals

  -- With a file that is mapped at a handle: it is unmapped, and no hook is touched.
  record IsUnmapped (mapped : ℕ) (s t : ServerState lib api) : Type 0 where
    modules : t.modules ≡ free_library s.modules mapped
    hooks : IsUnhooked s.hooks t.hooks

  use_signatures-Unmapped :
      (flags : ℕ) (m : PeModuleView) (detours : Originals) (mapped : ℕ) (s : ServerState lib api)
      → mapped ≢ 0
      → IsUnmapped mapped s (use_signatures lib api flags m detours mapped s).0
  unfolding use_signatures free_fallback
  use_signatures-Unmapped flags m detours mapped s ne =
      rw (ne→== mapped 0 ne)
        (elim (Bool-cases
          (has_flag flags flag_require_signatures && not (s.signature_required_failures == 0))) [
            | inl e ↦ rw e (record {
              modules = refl;
              hooks = record { world = refl; records = refl; originals = refl };
            })
            | inr e ↦ elim (Bool-cases (has_flag flags flag_install_probe_hooks)) [
              | inl i ↦
                  rw (e, i)
                    (record {
                      modules = refl;
                      hooks = record { world = refl; records = refl; originals = refl };
                    })
              | inr i ↦
                  rw (e, i)
                    (record {
                      modules = refl;
                      hooks = record { world = refl; records = refl; originals = refl };
                    })
            ]
          ])

  check_manifest-Unmapped :
      (manifest : List SignatureDescriptor) (flags : ℕ) (m : PeModuleView) (mapped : ℕ)
      (s t : ServerState lib api)
      → IsUnmapped mapped (check_manifest lib api manifest flags m s) t
      → IsUnmapped mapped s t
  unfolding check_manifest
  check_manifest-Unmapped manifest flags m mapped s t u = record {
    modules = u.modules;
    hooks = record {
      world = u.hooks.world;
      records = u.hooks.records;
      originals = u.hooks.originals;
    };
  }

  view_module-Unmapped :
      (manifest : List SignatureDescriptor) (flags : ℕ) (detours : Originals) (mapped : ℕ)
      (s : ServerState lib api) (r : Result PeModuleView)
      → mapped ≢ 0
      → IsUnmapped mapped s (view_module lib api manifest flags detours mapped s r).0
  unfolding view_module
  view_module-Unmapped manifest flags detours mapped s (err message) ne =
      unfold free_fallback in
      rw (ne→== mapped 0 ne) (record {
        modules = refl;
        hooks = record { world = refl; records = refl; originals = refl };
      })
  view_module-Unmapped manifest flags detours mapped s (ok m) ne =
      check_manifest-Unmapped manifest flags m mapped s _ (
        use_signatures-Unmapped flags m detours mapped (check_manifest lib api manifest flags m s)
          ne)

  -- What happens to the server file, by the state before: no file is allowed; the file cannot be
  -- mapped; or it is mapped and unmapped again. No hook is installed in any case.
  pub data Mapped (s t : ServerState lib api) : Option (List ℕ) → Type 0 where
    not_allowed : t.modules ≡ s.modules → IsUnhooked s.hooks t.hooks → Mapped s t none
    not_mapped :
        {path : List ℕ}
        → (load_library_ex s.modules path).1 ≡ 0
        → t.modules ≡ (load_library_ex s.modules path).0
        → IsUnhooked s.hooks t.hooks
        → Mapped s t (some path)
    unmapped :
        {path : List ℕ}
        → (load_library_ex s.modules path).1 ≢ 0
        → t.modules
          ≡ free_library (load_library_ex s.modules path).0 (load_library_ex s.modules path).1
        → IsUnhooked s.hooks t.hooks
        → Mapped s t (some path)

  map_fallback-Mapped :
      (manifest : List SignatureDescriptor) (flags : ℕ) (detours : Originals)
      (s : ServerState lib api) (o : Option (List ℕ))
      → Mapped s (map_fallback lib api manifest flags detours s o).0 o
  unfolding map_fallback
  map_fallback-Mapped manifest flags detours s none =
      not_allowed refl (record { world = refl; records = refl; originals = refl })
  map_fallback-Mapped manifest flags detours s (some path) =
      elim (Bool-cases ((load_library_ex s.modules path).1 == 0)) [
        | inl e ↦ rw e (
            not_mapped (==→eq _ _ e) refl
              (record { world = refl; records = refl; originals = refl }))
        | inr e ↦
            let u =
              view_module-Unmapped manifest flags detours (load_library_ex s.modules path).1
                (record s {
                  modules = (load_library_ex s.modules path).0;
                  used_mapped_file_fallback = true;
                })
                (from_module_handle (api.memory (load_library_ex s.modules path).0)
                  (load_library_ex s.modules path).1 path)
                (==→ne _ _ e) in
            rw e (
              unmapped (==→ne _ _ e) u.modules (record {
                world = u.hooks.world;
                records = u.hooks.records;
                originals = u.hooks.originals;
              }))
      ]

  -- Where the server module is not loaded, the fallback leaves nothing behind: a file that was mapped
  -- is unmapped on every path, with or without an error, and no hook is created, kept or removed,
  -- whatever the flags ask for.
  pub resolve_server_signatures-Mapped :
      (manifest : List SignatureDescriptor) (detours : Originals) (config : ServerConfig)
      (s : ServerState lib api)
      → get_module_handle s.modules
          (config_string_or config.server_module_name (codes "server.dll"))
        ≡ 0
      → Mapped s
          (resolve_server_signatures lib api manifest detours config s).0
          (fallback_path config config.server_path)
  unfolding resolve_server_signatures
  resolve_server_signatures-Mapped manifest detours config s h = rw h (
      map_fallback-Mapped manifest config.flags detours s (fallback_path config config.server_path))
