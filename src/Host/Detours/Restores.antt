-- ===== src/Host/Detours/Restores.antt =====
-- native/dwrt-host/dwrt_host.cpp: what a detour puts back when the game's function has returned.
use dwrt.Prelude.{
  ℕ, ◌≡◌, ◌≢◌, inl, inr, refl, ap, ◌∙◌, Bool, true, false, Memory, arith, ◌==◌, Bool-cases, ==→eq,
  ==→ne,
}
use dwrt.Walker.Floats.{FloatApi}
use dwrt.Walker.Patrol.{Teleport}
use dwrt.FriendlyFire.{
  FriendlyFireState, begin_friendly_fire_damage, end_friendly_fire_damage, team_field,
}
use dwrt.FriendlyFire.Restore.{IsSpoofed, IsBytes, begin_friendly_fire_damage_exact, end-begin_team}
use dwrt.Shim.Loader.{RuntimeApi}
use dwrt.TargetProbe.State.{ClassifierSpoofScope, no_spoof_scope}
use dwrt.TargetProbe.Entities.{Process}
use dwrt.TargetProbe.Filter.{
  finish_target_filter, restore_source, finish_source_restore, restore_target,
  finish_target_restore,
}
use dwrt.TargetProbe.Classifier.{end_target_classifier_spoof_scope}
use dwrt.TargetProbe.Damage.{record_damage_victim}
use dwrt.Host.Detours.{
  DetourWorld, Original, OriginalTest, call_original, enter, is_recursive, on_probe, apply_patrol,
  begin_friendly_fire, end_friendly_fire, record_damage, damage_in_scope, detour_take_damage_old,
  finish_filter, filter_in_scope, detour_target_friendly_fire_filter,
}

-- Around any change of the memory that leaves the victim's team byte, the scope of the friendly fire leaves
-- that byte as it was.
around_team :
    (s after : FriendlyFireState) (m left : Memory) (entity : ℕ) (recursive : Bool)
    → IsBytes m
    → left (team_field entity)
      ≡ (begin_friendly_fire_damage s m entity recursive).memory (team_field entity)
    → let e =
        end_friendly_fire_damage after left
          (begin_friendly_fire_damage s m entity recursive).damage_scope in
      (e.1 (team_field entity) ≡ m (team_field entity))
      × ((a : ℕ) → a ≢ team_field entity → e.1 a ≡ left a)
around_team s after m left entity recursive bytes kept =
    let exact = begin_friendly_fire_damage_exact s m entity recursive in
    let ends = end-begin_team s after m left entity recursive bytes in
    elim (Bool-cases
      ((begin_friendly_fire_damage s m entity recursive).damage_scope.applied == 1)) [
        | inl y ↦ let spoofed = exact.0.0 (==→eq _ 1 y) in ((ends.0 spoofed).0, (ends.0 spoofed).1)
        | inr n ↦
            let unmet : IsSpoofed s m entity recursive → ⊥ = λ q. ==→ne _ 1 n (exact.0.1 q) in
            (
              ap (λ (r : FriendlyFireState × Memory). r.1 (team_field entity)) (ends.1 unmet)
                  ∙ (kept ∙ ap (λ (k : Memory). k (team_field entity)) (exact.2 unmet)),
              λ a ne. ap (λ (r : FriendlyFireState × Memory). r.1 a) (ends.1 unmet),
            )
      ]

module _ (fl : FloatApi) (api : RuntimeApi) where
  record_damage-memory :
      (event : ℕ) (recursive : Bool) (w : DetourWorld fl api)
      → (record_damage fl api event recursive w).probe.memory ≡ w.probe.memory
  unfolding record_damage
  record_damage-memory event true w = refl
  record_damage-memory event false w = refl

  -- The world in which the friendly fire looks at the victim.
  unfoldable pub before_friendly_fire :
      Process
      → (Teleport fl → DetourWorld fl api → DetourWorld fl api)
      → (self info : ℕ) → DetourWorld fl api
      → DetourWorld fl api
  before_friendly_fire p teleport self info w =
      apply_patrol fl api p teleport self (is_recursive fl api 1 w) (
        on_probe fl api (λ v. record_damage_victim p v self info (is_recursive fl api 1 w))
          (enter fl api 1 w))

  -- The world in which the game's damage function has returned.
  unfoldable pub after_original :
      Process
      → (Teleport fl → DetourWorld fl api → DetourWorld fl api)
      → Original fl api
      → (event self info : ℕ) → DetourWorld fl api
      → DetourWorld fl api
  after_original p teleport original event self info w = call_original fl api original (
      record_damage fl api event (is_recursive fl api 1 w)
        (begin_friendly_fire fl api self (is_recursive fl api 1 w)
          (before_friendly_fire p teleport self info w)).0)

  -- Around the game's damage function, which may do anything but change the victim's team byte, the detour
  -- leaves that byte as it was when the friendly fire looked at it, and every other byte as the game's
  -- function left it; the bytes of the memory are assumed to be bytes when the friendly fire looks at it.
  pub detour_take_damage_old-team :
      (p : Process) (teleport : Teleport fl → DetourWorld fl api → DetourWorld fl api)
      (original : Original fl api) (event self info : ℕ) (w : DetourWorld fl api)
      → IsBytes (before_friendly_fire p teleport self info w).probe.memory
      → ((v : DetourWorld fl api)
          → (call_original fl api original v).probe.memory (team_field self)
            ≡ v.probe.memory (team_field self))
      → let e = detour_take_damage_old fl api p teleport original event self info w in
        (e.probe.memory (team_field self)
          ≡ (before_friendly_fire p teleport self info w).probe.memory (team_field self))
        × ((a : ℕ)
            → a ≢ team_field self
            → e.probe.memory a
              ≡ (after_original p teleport original event self info w).probe.memory a)
  unfolding detour_take_damage_old before_friendly_fire after_original damage_in_scope
      end_friendly_fire begin_friendly_fire
  detour_take_damage_old-team p teleport original event self info w bytes kept =
      let v = before_friendly_fire p teleport self info w in
      let recursive = is_recursive fl api 1 w in
      let b = begin_friendly_fire fl api self recursive v in
      let recorded = record_damage fl api event recursive b.0 in
      around_team v.friendly_fire (call_original fl api original recorded).friendly_fire
        v.probe.memory (call_original fl api original recorded).probe.memory self recursive bytes
        (kept recorded
          ∙ ap (λ (k : Memory). k (team_field self)) (record_damage-memory event recursive b.0))

  abbrev pub left_scope : DetourWorld fl api × Bool → ClassifierSpoofScope
  left_scope (w, result) = w.probe.spoof_scope

  -- When the detour of the filter is left, no classifier scope is open, whatever the game did and whatever
  -- scope was open before: the scope of a filter that runs inside another ends that of the outer one.
  pub filter_detour-closed :
      (p : Process) (original : OriginalTest fl api) (source target bitset classifier : ℕ)
      (w : DetourWorld fl api)
      → left_scope
          (detour_target_friendly_fire_filter fl api p original source target bitset classifier w)
        ≡ no_spoof_scope
  unfolding detour_target_friendly_fire_filter filter_in_scope finish_filter finish_target_filter
      restore_source finish_source_restore restore_target finish_target_restore
      end_target_classifier_spoof_scope
  filter_detour-closed p original source target bitset classifier w = ground arith
