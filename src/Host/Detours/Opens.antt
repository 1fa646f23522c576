-- ===== src/Host/Detours/Opens.antt =====
-- native/dwrt-host/dwrt_host.cpp: the callback scope that each detour opens.
use dwrt.Prelude.{ℕ, ◌≡◌, refl, suc, Bool, true, false, Option, none, some}
use dwrt.Testpoints.{leave_callback}
use dwrt.Testpoints.Nesting.{}
use dwrt.Walker.Floats.{FloatApi}
use dwrt.Walker.Patrol.{Teleport}
use dwrt.Shim.Loader.{RuntimeApi}
use dwrt.TargetProbe.Entities.{Process}
use dwrt.FriendlyFire.{FriendlyFireDamageScope}
use dwrt.Host.Detours.{
  detour_target_identity_classifier, DetourWorld, run_teleport, call_original, call_original_test,
  enter, apply_patrol, begin_friendly_fire, end_friendly_fire, record_damage, damage_in_scope,
  detour_take_damage_old, record_input, detour_accept_input, record_output,
  detour_fire_output_internal, finish_filter, filter_in_scope, detour_target_friendly_fire_filter,
  finish_caller, detour_target_friendly_fire_caller, finish_gate,
  detour_target_secondary_friendly_fire_gate,
}
use dwrt.Host.Detours.Nested.{original_of, test_of}
use dwrt.Host.Detours.Scopes.{Nests, Nests-none, Nests-then, Nests-scope, Nests-from, Nests-to}

module _ (fl : FloatApi) (api : RuntimeApi) where
  -- A function on the world that opens nested scopes only.
  abbrev pub Nesting : ℕ → (DetourWorld fl api → DetourWorld fl api) → Type 0
  Nesting n f = (w : DetourWorld fl api) → Nests n w.testpoints (f w).testpoints

  teleport-Nests :
      (n : ℕ) (teleport : Teleport fl → DetourWorld fl api → DetourWorld fl api)
      (o : Option (Teleport fl)) (w : DetourWorld fl api)
      → ((t : Teleport fl) → Nesting n (teleport t))
      → Nests n w.testpoints (run_teleport fl api teleport o w).testpoints
  teleport-Nests n teleport none w h = Nests-none n _
  teleport-Nests n teleport (some t) w h = h t w

  patrol-Nests :
      (n : ℕ) (p : Process) (teleport : Teleport fl → DetourWorld fl api → DetourWorld fl api)
      (entity : ℕ) (recursive : Bool)
      → ((t : Teleport fl) → Nesting n (teleport t))
      → Nesting n (apply_patrol fl api p teleport entity recursive)
  unfolding apply_patrol
  patrol-Nests n p teleport entity recursive h w = teleport-Nests n teleport _ _ h

  damage_in_scope-Nests :
      (n event : ℕ) (recursive present : Bool) (f : DetourWorld fl api → DetourWorld fl api)
      (w : DetourWorld fl api) (scope : FriendlyFireDamageScope)
      → Nesting n f
      → Nests n w.testpoints
          (damage_in_scope fl api event recursive
            (original_of fl api present f)
            (w, scope)).testpoints
  unfolding damage_in_scope end_friendly_fire
  damage_in_scope-Nests n event true true f w scope h = unfold record_damage in h w
  damage_in_scope-Nests n event false true f w scope h = unfold record_damage in h _
  damage_in_scope-Nests n event true false f w scope h = unfold record_damage in Nests-none n _
  damage_in_scope-Nests n event false false f w scope h = unfold record_damage in Nests-none n _

  pub damage-Nests :
      (n : ℕ) (p : Process) (teleport : Teleport fl → DetourWorld fl api → DetourWorld fl api)
      (present : Bool) (f : DetourWorld fl api → DetourWorld fl api) (event self info : ℕ)
      → ((t : Teleport fl) → Nesting n (teleport t))
      → Nesting n f
      → Nesting
          (suc n)
          (detour_take_damage_old fl api p teleport (original_of fl api present f) event self info)
  unfolding detour_take_damage_old begin_friendly_fire
  damage-Nests n p teleport present f event self info ht hf w = Nests-scope n 1 w.testpoints _ (
      Nests-then n _ _ _ (patrol-Nests n p teleport self _ ht _)
        (damage_in_scope-Nests n event _ present f _ _ hf))

  call-Nests :
      (n : ℕ) (present : Bool) (f : DetourWorld fl api → DetourWorld fl api)
      (w : DetourWorld fl api)
      → Nesting n f
      → Nests n w.testpoints (call_original fl api (original_of fl api present f) w).testpoints
  call-Nests n true f w h = h w
  call-Nests n false f w h = Nests-none n _

  call_test-Nests :
      (n : ℕ) (present result otherwise : Bool) (f : DetourWorld fl api → DetourWorld fl api)
      (w : DetourWorld fl api)
      → Nesting n f
      → Nests n w.testpoints
          (call_original_test fl api (test_of fl api present result f) otherwise w).0.testpoints
  call_test-Nests n true result otherwise f w h = h w
  call_test-Nests n false result otherwise f w h = Nests-none n _

  record_input-testpoints :
      (p : Process) (event self activator caller : ℕ) (recursive : Bool) (w : DetourWorld fl api)
      → (record_input fl api p event self activator caller recursive w).testpoints ≡ w.testpoints
  unfolding record_input
  record_input-testpoints p event self activator caller true w = refl
  record_input-testpoints p event self activator caller false w = refl

  record_output-testpoints :
      (p : Process) (event self activator caller : ℕ) (recursive : Bool) (w : DetourWorld fl api)
      → (record_output fl api p event self activator caller recursive w).testpoints ≡ w.testpoints
  unfolding record_output
  record_output-testpoints p event self activator caller true w = refl
  record_output-testpoints p event self activator caller false w = refl

  pub input-Nests :
      (n : ℕ) (p : Process) (present result : Bool) (f : DetourWorld fl api → DetourWorld fl api)
      (event self activator caller : ℕ)
      → Nesting n f
      → Nesting (suc n) (λ w.
        (detour_accept_input fl api p
          (test_of fl api present result f)
          event
          self
          activator
          caller
          w).0)
  unfolding detour_accept_input
  input-Nests n p present result f event self activator caller h w =
      Nests-scope n 2 w.testpoints _ (
        Nests-from n _ _ _
          (record_input-testpoints p event self activator caller _ (enter fl api 2 w))
          (call_test-Nests n present result false f _ h))

  pub output-Nests :
      (n : ℕ) (p : Process) (present : Bool) (f : DetourWorld fl api → DetourWorld fl api)
      (event self activator caller : ℕ)
      → Nesting n f
      → Nesting (suc n) (
          detour_fire_output_internal fl api p
            (original_of fl api present f)
            event
            self
            activator
            caller)
  unfolding detour_fire_output_internal
  output-Nests n p present f event self activator caller h w = Nests-scope n 3 w.testpoints _ (
      Nests-from n _ _ _
        (record_output-testpoints p event self activator caller _ (enter fl api 3 w))
        (call-Nests n present f _ h))

  pub filter-Nests :
      (n : ℕ) (p : Process) (present result : Bool) (f : DetourWorld fl api → DetourWorld fl api)
      (source target bitset classifier : ℕ)
      → Nesting n f
      → Nesting (suc n) (λ w.
        (detour_target_friendly_fire_filter fl api p
          (test_of fl api present result f)
          source
          target
          bitset
          classifier
          w).0)
  unfolding detour_target_friendly_fire_filter filter_in_scope finish_filter
  filter-Nests n p present result f source target bitset classifier h w =
      Nests-scope n 4 w.testpoints _ (call_test-Nests n present result true f _ h)

  finish_caller-testpoints :
      (p : Process) (source target : ℕ) (recursive : Bool) (r : DetourWorld fl api × Bool)
      → (finish_caller fl api p source target recursive r).0.testpoints
        ≡ leave_callback r.0.testpoints
  unfolding finish_caller
  finish_caller-testpoints p source target true (w, result) = refl
  finish_caller-testpoints p source target false (w, result) = refl

  finish_gate-testpoints :
      (p : Process) (source attacker target : ℕ) (recursive : Bool) (r : DetourWorld fl api × Bool)
      → (finish_gate fl api p source attacker target recursive r).0.testpoints
        ≡ leave_callback r.0.testpoints
  unfolding finish_gate
  finish_gate-testpoints p source attacker target true (w, result) = refl
  finish_gate-testpoints p source attacker target false (w, result) = refl

  pub caller-Nests :
      (n : ℕ) (p : Process) (present result : Bool) (f : DetourWorld fl api → DetourWorld fl api)
      (source target : ℕ)
      → Nesting n f
      → Nesting (suc n) (λ w.
        (detour_target_friendly_fire_caller fl api p
          (test_of fl api present result f)
          source
          target
          w).0)
  unfolding detour_target_friendly_fire_caller
  caller-Nests n p present result f source target h w =
      Nests-to (suc n) w.testpoints _ _ (finish_caller-testpoints p source target _ _) (
        Nests-scope n 5 w.testpoints _
          (call_test-Nests n present result true f (enter fl api 5 w) h))

  pub gate-Nests :
      (n : ℕ) (p : Process) (present result : Bool) (f : DetourWorld fl api → DetourWorld fl api)
      (source attacker target : ℕ)
      → Nesting n f
      → Nesting (suc n) (λ w.
        (detour_target_secondary_friendly_fire_gate fl api p
          (test_of fl api present result f)
          source
          attacker
          target
          w).0)
  unfolding detour_target_secondary_friendly_fire_gate
  gate-Nests n p present result f source attacker target h w =
      Nests-to (suc n) w.testpoints _ _ (finish_gate-testpoints p source attacker target _ _) (
        Nests-scope n 6 w.testpoints _
          (call_test-Nests n present result true f (enter fl api 6 w) h))

  pub classifier-Nests :
      (n : ℕ) (p : Process) (present : Bool) (f : DetourWorld fl api → DetourWorld fl api)
      (target out : ℕ)
      → Nesting n f
      → Nesting n
          (detour_target_identity_classifier fl api p (original_of fl api present f) target out)
  unfolding detour_target_identity_classifier
  classifier-Nests n p present f target out h w = call-Nests n present f w h
