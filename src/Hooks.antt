-- ===== src/Hooks.antt =====
-- native/dwrt-host/dwrt_hook_backend.cpp and .hpp: the owner of the inline hooks. The hook library
-- under native/vendor is the parameter `lib`; a pointer is a number and 0 is null.
pub mod Backend
use dwrt.Prelude.{ℕ, ◌⊎◌, List, ◌++◌, codes}

-- `SafetyHookInline::Error::type`
pub data ErrorType : Type 0 where
  bad_allocation failed_to_decode_instruction short_jump_in_trampoline : ErrorType
  ip_relative_instruction_out_of_range unsupported_instruction_in_trampoline : ErrorType
  failed_to_unprotect not_enough_space : ErrorType

-- `SafetyHookInline::Error`
pub record HookError : Type 0 where
  pub error_type : ErrorType
  pub ip : ℕ

-- What the backend calls of the hook library: the machine that it patches, a hook, its creation
-- without effect on the target, its trampoline, its activation and its destructor; and how a
-- stream prints a pointer.
pub record HookLibrary : Type 1 where
  pub World : Type 0
  pub Hook : Type 0
  pub create : World → (target detour : ℕ) → World × (HookError ⊎ Hook)
  pub original : Hook → ℕ
  pub enable : World → Hook → World × (HookError ⊎ Hook)
  pub destroy : World → Hook → World
  pub show_pointer : ℕ → List ℕ

abbrev pub kind_of : ErrorType → List ℕ
kind_of bad_allocation = codes "bad allocation"
kind_of failed_to_decode_instruction = codes "failed to decode instruction"
kind_of short_jump_in_trampoline = codes "short jump in trampoline"
kind_of ip_relative_instruction_out_of_range = codes "ip-relative instruction out of range"
kind_of unsupported_instruction_in_trampoline = codes "unsupported instruction in trampoline"
kind_of failed_to_unprotect = codes "failed to unprotect"
kind_of not_enough_space = codes "not enough space"

unfoldable pub safetyhook_inline_error_to_string : (ℕ → List ℕ) → HookError → List ℕ
safetyhook_inline_error_to_string show e = elim e.error_type [
  | bad_allocation ↦ kind_of bad_allocation
  | t ↦ kind_of t ++ (codes " at " ++ show e.ip)
]
