-- ===== src/Hooks/Backend.antt =====
-- HookBackend of native/dwrt-host/dwrt_hook_backend.cpp and .hpp.
use dwrt.Prelude.{
  ℕ, ◌⊎◌, inl, inr, Bool, ◌||◌, Option, none, some, List, [], ◌∷◌, ◌++◌, ◌==◌, not, ◌&&◌,
  if◌then◌else◌, length, codes, text_eq,
}
use dwrt.Hooks.{HookError, HookLibrary, safetyhook_inline_error_to_string}

abbrev pub null_argument_error : List ℕ
null_argument_error = codes "inline hook target/detour/original_out is null"

module _ (lib : HookLibrary) where
  open lib use {World, Hook, create, original, enable, destroy, show_pointer}

  -- `InlineHookRecord`; its `error` member is never set.
  pub record InlineHookRecord : Type 0 where
    pub name : List ℕ
    pub target : ℕ
    pub detour : ℕ
    pub trampoline : ℕ
    pub hook : Hook

  -- What `install_inline` returns: `true`, or `false` with its message. Beside it what it writes
  -- through `original_out`, if it writes.
  pub record Installed : Type 0 where
    pub world : World
    pub records : List InlineHookRecord
    pub original_out : Option ℕ
    pub outcome : Option (List ℕ)

  abbrev message : HookError → List ℕ
  message = safetyhook_inline_error_to_string show_pointer

  -- The record of a hook that could be enabled is kept; else it is destroyed with its scope.
  unfoldable pub keep_enabled :
      List InlineHookRecord
      → (name : List ℕ) (target detour : ℕ) (created : Hook) → World × (HookError ⊎ Hook)
      → Installed
  keep_enabled records name target detour created (w, inl e) = record {
    world = destroy w created;
    records = records;
    original_out = some 0;
    outcome = some (message e);
  }
  keep_enabled records name target detour created (w, inr h) = record {
    world = w;
    records =
        records
        ++ (record {
          name = name;
          target = target;
          detour = detour;
          trampoline = original created;
          hook = h;
        }
            ∷ []);
    original_out = some (original created);
    outcome = none;
  }

  unfoldable pub enable_created :
      List InlineHookRecord
      → (name : List ℕ) (target detour : ℕ) → World × (HookError ⊎ Hook)
      → Installed
  enable_created records name target detour (w, inl e) = record {
    world = w;
    records = records;
    original_out = none;
    outcome = some (message e);
  }
  enable_created records name target detour (w, inr h) =
      keep_enabled records name target detour h (enable w h)

  -- `original_out` is tested for null; the flag says that it is not.
  unfoldable pub install_inline :
      World
      → List InlineHookRecord
      → (name : List ℕ) (target detour : ℕ) (has_out : Bool) → Installed
  install_inline w records name target detour has_out =
      if target == 0 || (detour == 0 || not has_out)
      then record {
        world = w;
        records = records;
        original_out = none;
        outcome = some null_argument_error;
      }
      else enable_created records name target detour (create w target detour)

  -- `records_.clear()`, which runs the destructors.
  unfoldable pub reset : World → List InlineHookRecord → World × List InlineHookRecord
  reset w [] = (w, [])
  reset w (r ∷ rs) = reset (destroy w r.hook) rs

  unfoldable pub installed_count : List InlineHookRecord → ℕ
  installed_count = length

  -- `original<Fn>(name)`; 0 is `nullptr`.
  unfoldable pub original_of : List InlineHookRecord → List ℕ → ℕ
  original_of [] name = 0
  original_of (r ∷ rs) name =
      if text_eq r.name name && not (r.trampoline == 0) then r.trampoline else original_of rs name
