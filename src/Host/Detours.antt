-- ===== src/Host/Detours.antt =====
-- The detours of native/dwrt-host/dwrt_host.cpp: the functions that the hooks run in place of the game's.
-- A detour takes the game's function, with its arguments, as a function on the world, which may run detours
-- in turn; it is `none` where the pointer to it is null.
use dwrt.Prelude.{ℕ, Bool, true, false, not, Option, none, some, if◌then◌else◌, Memory}
use dwrt.Testpoints.{Testpoints, CallbackScope, enter_callback, leave_callback}
use dwrt.Walker.Floats.{FloatApi}
use dwrt.Walker.Patrol.{WalkerPatrolState, Teleport, maybe_apply_walker_patrol_on_damage}
use dwrt.FriendlyFire.{
  FriendlyFireState, FriendlyFireDamageScope, begin_friendly_fire_damage, end_friendly_fire_damage,
}
use dwrt.Shim.Loader.{RuntimeApi, DwrtShadowShim}
use dwrt.Shim.Routes.{probe_record_damage, probe_record_entity_input, probe_record_entity_output}
use dwrt.TargetProbe.State.{ProbeWorld}
use dwrt.TargetProbe.Entities.{Process}
use dwrt.TargetProbe.Neutralize.{maybe_global_neutralize_entity}
use dwrt.TargetProbe.Filter.{TargetFilterScope, begin_target_filter, finish_target_filter}
use dwrt.TargetProbe.Gates.{record_target_filter_caller, record_secondary_target_gate}
use dwrt.TargetProbe.Classifier.{
  maybe_allow_target_bitset, begin_target_classifier_spoof_scope, end_target_classifier_spoof_scope,
  finish_target_identity_classifier,
}
use dwrt.TargetProbe.Damage.{record_damage_victim}
pub mod Nested
pub mod Scopes
pub mod Opens
pub mod Depth
pub mod Events
pub mod Answers
pub mod Plays
pub mod Restores
pub mod Verdicts
pub mod Tests

module _ (fl : FloatApi) (api : RuntimeApi) where
  -- The globals that the detours use. The memory of the process is that of the target probe.
  pub record DetourWorld : Type 0 where
    pub testpoints : Testpoints
    pub probe : ProbeWorld
    pub walker : WalkerPatrolState fl
    pub friendly_fire : FriendlyFireState
    pub runtime : DwrtShadowShim api

  -- A call of a function of the game without a result, and of one with it.
  abbrev pub Original : Type 0
  Original = Option (DetourWorld → DetourWorld)

  abbrev pub OriginalTest : Type 0
  OriginalTest = Option (DetourWorld → DetourWorld × Bool)

  abbrev pub call_original : Original → DetourWorld → DetourWorld
  call_original none w = w
  call_original (some f) w = f w

  -- `bool result = otherwise; if (original != nullptr) result = original(…);`
  abbrev pub call_original_test :
      OriginalTest → (otherwise : Bool) → DetourWorld → DetourWorld × Bool
  call_original_test none otherwise w = (w, otherwise)
  call_original_test (some f) otherwise w = f w

  -- `CallbackScope scope(point_id);`
  abbrev pub enter : ℕ → DetourWorld → DetourWorld
  enter point_id w = record w { testpoints = (enter_callback w.testpoints point_id).0 }

  abbrev pub is_recursive : ℕ → DetourWorld → Bool
  is_recursive point_id w = (enter_callback w.testpoints point_id).1.recursive

  -- The end of the scope.
  abbrev pub leave : DetourWorld → DetourWorld
  leave w = record w { testpoints = leave_callback w.testpoints }

  abbrev pub on_probe : (ProbeWorld → ProbeWorld) → DetourWorld → DetourWorld
  on_probe f w = record w { probe = f w.probe }

  abbrev pub run_teleport :
      (Teleport fl → DetourWorld → DetourWorld) → Option (Teleport fl) → DetourWorld → DetourWorld
  run_teleport teleport none w = w
  run_teleport teleport (some t) w = teleport t w

  -- The walker patrol, and the call of `Teleport` that it makes. The patrol counts the call before it is
  -- made, and the source after it; nothing reads that counter in between.
  unfoldable pub apply_patrol :
      Process
      → (Teleport fl → DetourWorld → DetourWorld)
      → (entity : ℕ) (recursive : Bool) → DetourWorld
      → DetourWorld
  apply_patrol p teleport entity recursive w =
      let (s, t) =
        maybe_apply_walker_patrol_on_damage fl w.walker p.can_read w.probe.memory entity
          recursive in
      run_teleport teleport t (record w { walker = s })

  unfoldable pub begin_friendly_fire :
      (entity : ℕ) (recursive : Bool) → DetourWorld → DetourWorld × FriendlyFireDamageScope
  begin_friendly_fire entity recursive w =
      let b = begin_friendly_fire_damage w.friendly_fire w.probe.memory entity recursive in
      (
        record w { friendly_fire = b.state; probe = record w.probe { memory = b.memory } },
        b.damage_scope,
      )

  unfoldable pub end_friendly_fire : FriendlyFireDamageScope → DetourWorld → DetourWorld
  end_friendly_fire scope w =
      let (s, m) = end_friendly_fire_damage w.friendly_fire w.probe.memory scope in
      record w { friendly_fire = s; probe = record w.probe { memory = m } }

  -- The shim gets the address of an event that is all zeroes.
  unfoldable pub record_damage : (event : ℕ) (recursive : Bool) → DetourWorld → DetourWorld
  record_damage event recursive w =
      if recursive then w else record w { runtime = (probe_record_damage api w.runtime event).0 }

  -- From the scope of the friendly fire on.
  unfoldable pub damage_in_scope :
      (event : ℕ) (recursive : Bool)
      → Original
      → DetourWorld × FriendlyFireDamageScope
      → DetourWorld
  damage_in_scope event recursive original (w, scope) =
      end_friendly_fire scope (call_original original (record_damage event recursive w))

  unfoldable pub detour_take_damage_old :
      Process
      → (Teleport fl → DetourWorld → DetourWorld)
      → Original
      → (event self info : ℕ) → DetourWorld
      → DetourWorld
  detour_take_damage_old p teleport original event self info w =
      let recursive = is_recursive 1 w in
      leave (
        damage_in_scope event recursive original (
          begin_friendly_fire self recursive (
            apply_patrol p teleport self recursive
              (on_probe (λ v. record_damage_victim p v self info recursive) (enter 1 w)))))

  abbrev pub neutralize_three : Process → (self activator caller : ℕ) → ProbeWorld → ProbeWorld
  neutralize_three p self activator caller v =
      maybe_global_neutralize_entity p
        (maybe_global_neutralize_entity p (maybe_global_neutralize_entity p v self) activator)
        caller

  unfoldable pub record_input :
      Process → (event self activator caller : ℕ) (recursive : Bool) → DetourWorld → DetourWorld
  record_input p event self activator caller recursive w = if recursive then w else record w {
    probe = neutralize_three p self activator caller w.probe;
    runtime = (probe_record_entity_input api w.runtime event).0;
  }

  unfoldable pub detour_accept_input :
      Process → OriginalTest → (event self activator caller : ℕ) → DetourWorld → DetourWorld × Bool
  detour_accept_input p original event self activator caller w =
      let (v, result) =
        call_original_test original false
          (record_input p event self activator caller (is_recursive 2 w) (enter 2 w)) in
      (leave v, result)

  unfoldable pub record_output :
      Process → (event self activator caller : ℕ) (recursive : Bool) → DetourWorld → DetourWorld
  record_output p event self activator caller recursive w = if recursive then w else record w {
    probe = neutralize_three p self activator caller w.probe;
    runtime = (probe_record_entity_output api w.runtime event).0;
  }

  unfoldable pub detour_fire_output_internal :
      Process → Original → (event self activator caller : ℕ) → DetourWorld → DetourWorld
  detour_fire_output_internal p original event self activator caller w = leave (
      call_original original
        (record_output p event self activator caller (is_recursive 3 w) (enter 3 w)))

  -- From the game's result on.
  unfoldable pub finish_filter :
      Process → TargetFilterScope → DetourWorld × Bool → DetourWorld × Bool
  finish_filter p scope (w, result) =
      let (v, final_result) =
        finish_target_filter p (end_target_classifier_spoof_scope w.probe) scope result in
      (leave (record w { probe = v }), final_result)

  -- From the scope of the filter on; `classifier` is the address of the game's classifier.
  unfoldable pub filter_in_scope :
      Process
      → OriginalTest
      → (target bitset classifier : ℕ) → DetourWorld
      → ProbeWorld × TargetFilterScope
      → DetourWorld × Bool
  filter_in_scope p original target bitset classifier w (v, scope) =
      let (allowed, _) = maybe_allow_target_bitset p v scope target bitset classifier in
      finish_filter p scope (
        call_original_test original true
          (record w { probe = begin_target_classifier_spoof_scope allowed scope }))

  unfoldable pub detour_target_friendly_fire_filter :
      Process
      → OriginalTest
      → (source target bitset classifier : ℕ) → DetourWorld
      → DetourWorld × Bool
  detour_target_friendly_fire_filter p original source target bitset classifier w =
      filter_in_scope p original target bitset classifier (enter 4 w)
        (begin_target_filter p w.probe source target false)

  unfoldable pub finish_caller :
      Process → (source target : ℕ) (recursive : Bool) → DetourWorld × Bool → DetourWorld × Bool
  finish_caller p source target recursive (w, result) =
      let (v, final_result) = record_target_filter_caller p w.probe source target result in
      if recursive then (leave w, result) else (leave (record w { probe = v }), final_result)

  unfoldable pub detour_target_friendly_fire_caller :
      Process → OriginalTest → (source target : ℕ) → DetourWorld → DetourWorld × Bool
  detour_target_friendly_fire_caller p original source target w =
      finish_caller p source target (is_recursive 5 w)
        (call_original_test original true (enter 5 w))

  unfoldable pub finish_gate :
      Process
      → (source maybe_attacker maybe_target : ℕ) (recursive : Bool) → DetourWorld × Bool
      → DetourWorld × Bool
  finish_gate p source maybe_attacker maybe_target recursive (w, result) =
      let (v, final_result) =
        record_secondary_target_gate p w.probe source maybe_attacker maybe_target result in
      if recursive then (leave w, result) else (leave (record w { probe = v }), final_result)

  unfoldable pub detour_target_secondary_friendly_fire_gate :
      Process
      → OriginalTest
      → (source maybe_attacker maybe_target : ℕ) → DetourWorld
      → DetourWorld × Bool
  detour_target_secondary_friendly_fire_gate p original source maybe_attacker maybe_target w =
      finish_gate p source maybe_attacker maybe_target (is_recursive 6 w)
        (call_original_test original true (enter 6 w))

  -- It returns what the game's function returns, or `out`; only the world is here.
  unfoldable pub detour_target_identity_classifier :
      Process → Original → (target out : ℕ) → DetourWorld → DetourWorld
  detour_target_identity_classifier p original target out w =
      on_probe (λ v. finish_target_identity_classifier p v target out) (call_original original w)
