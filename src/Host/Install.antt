-- ===== src/Host/Install.antt =====
-- install_probe_hooks and its helpers in native/dwrt-host/dwrt_host.cpp. The hook library is the
-- parameter `lib`, and `detours` gives the address of the detour of each hook.
pub mod Facts
pub mod AllOrNothing
use dwrt.Prelude.{
  ℕ, suc, ◌+◌, Bool, true, false, Option, none, some, List, [], ◌∷◌, ◌++◌, ◌==◌, if◌then◌else◌,
  length, codes, null, text_eq,
}
use dwrt.Hooks.{HookLibrary}
use dwrt.Hooks.Backend.{InlineHookRecord, Installed, install_inline, reset}
use dwrt.Manifest.{SignatureDescriptor}
use dwrt.Scanner.Module.{PeModuleView}
use dwrt.Host.Signatures.{HostResolvedSignature}

abbrev pub ok_status : ℕ
ok_status = 0

abbrev pub error_hook_install_failed : ℕ
error_hook_install_failed = 10

-- The pointers `g_original_…`, one for each hook.
pub data Slot : Type 0 where
  take_damage_old accept_input fire_output_internal : Slot
  target_friendly_fire_filter target_friendly_fire_caller : Slot
  target_secondary_friendly_fire_gate target_identity_classifier : Slot

abbrev pub slot_index : Slot → ℕ
slot_index take_damage_old = 0
slot_index accept_input = 1
slot_index fire_output_internal = 2
slot_index target_friendly_fire_filter = 3
slot_index target_friendly_fire_caller = 4
slot_index target_secondary_friendly_fire_gate = 5
slot_index target_identity_classifier = 6

abbrev pub Originals : Type 0
Originals = Slot → ℕ

abbrev pub no_originals : Originals
no_originals s = 0

-- A write through `original_out`, if there is one.
abbrev pub write_original : Originals → Slot → Option ℕ → Originals
write_original o s none = o
write_original o s (some v) = λ t. if slot_index t == slot_index s then v else o t

-- The name that each hook is resolved by.
unfoldable pub hook_name : Slot → List ℕ
hook_name take_damage_old = codes "CBaseEntity::TakeDamageOld"
hook_name accept_input = codes "CEntityInstance::AcceptInput"
hook_name fire_output_internal = codes "CEntityIOOutput::FireOutputInternal"
hook_name target_friendly_fire_filter = codes "CitadelTargetFilter::FriendlyFire"
hook_name target_friendly_fire_caller = codes "CitadelTargetFilter::FriendlyFireCaller"
hook_name target_secondary_friendly_fire_gate =
    codes "CitadelTargetFilter::SecondaryFriendlyFireGate"
hook_name target_identity_classifier = codes "CEntityIdentity::IndexForEntityInstance"

-- The calls of `install`, in order.
abbrev pub install_order : List Slot
install_order =
    take_damage_old ∷ accept_input ∷ fire_output_internal ∷ target_friendly_fire_filter
    ∷ target_friendly_fire_caller ∷ target_secondary_friendly_fire_gate ∷ target_identity_classifier
    ∷ []

unfoldable pub find_resolved_signature :
    List HostResolvedSignature → List ℕ → Option HostResolvedSignature
find_resolved_signature [] name = none
find_resolved_signature (s ∷ ss) name =
    if text_eq name s.descriptor.name then some s else find_resolved_signature ss name

abbrev address_of : PeModuleView → Option ℕ → ℕ
address_of m none = 0
address_of m (some rva) = m.base + rva

-- The address of a resolved function, and 0 for none.
unfoldable pub resolved_target_address : PeModuleView → List HostResolvedSignature → List ℕ → ℕ
resolved_target_address m signatures name = elim (find_resolved_signature signatures name) [
  | none ↦ 0
  | some s ↦ address_of m s.rva
]

module _ (lib : HookLibrary) where
  open lib use {World}

  -- The members of `HostState` and the globals that the installation reads and writes.
  pub record HookState : Type 0 where
    pub world : World
    pub records : List (InlineHookRecord lib)
    pub originals : Originals
    pub hook_install_attempts : ℕ
    pub hooks_installed : ℕ
    pub hook_install_failures : ℕ
    pub last_error : List ℕ

  -- `if (!state.last_error.empty()) state.last_error += "; ";` and the message.
  abbrev pub append_error : List ℕ → List ℕ → List ℕ → List ℕ
  append_error last name message =
      (if null last then [] else last ++ codes "; ") ++ (name ++ (codes ": " ++ message))

  -- What the lambda `install` does with the result of `install_inline`.
  unfoldable pub count_install : HookState → Slot → Installed lib → HookState
  count_install st s i =
      let written = record st {
        world = i.world;
        records = i.records;
        originals = write_original st.originals s i.original_out;
      } in
      elim i.outcome [
        | none ↦ record written { hooks_installed = st.hooks_installed + 1 }
        | some message ↦ record written {
          hook_install_failures = st.hook_install_failures + 1;
          last_error = append_error st.last_error (hook_name s) message;
        }
      ]

  -- The lambda `install`.
  unfoldable pub install :
      PeModuleView → List HostResolvedSignature → Originals → HookState → Slot → HookState
  install m signatures detours st s = count_install st s (
      install_inline lib st.world st.records (hook_name s)
        (resolved_target_address m signatures (hook_name s)) (detours s) true)

  unfoldable pub install_all :
      PeModuleView → List HostResolvedSignature → Originals → List Slot → HookState → HookState
  install_all m signatures detours [] st = st
  install_all m signatures detours (s ∷ ss) st =
      install_all m signatures detours ss (install m signatures detours st s)

  -- `hooks.reset()` and the assignments of `nullptr`.
  unfoldable pub clear_hooks : HookState → HookState
  clear_hooks st =
      let (w, rs) = reset lib st.world st.records in
      record st { world = w; records = rs; originals = no_originals }

  unfoldable pub begin_install : HookState → HookState
  begin_install st =
      clear_hooks
        (record st { hook_install_attempts = 7; hook_install_failures = 0; hooks_installed = 0 })

  -- The end of `install_probe_hooks`: one failure undoes everything.
  unfoldable pub finish_install : HookState → HookState × ℕ
  finish_install st =
      if st.hook_install_failures == 0
      then (st, ok_status)
      else (clear_hooks st, error_hook_install_failed)

  unfoldable pub install_probe_hooks :
      PeModuleView → List HostResolvedSignature → (detours : Originals) → HookState → HookState × ℕ
  install_probe_hooks m signatures detours st =
      finish_install (install_all m signatures detours install_order (begin_install st))
