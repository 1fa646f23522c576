-- ===== src/FriendlyFire/Open.antt =====
-- native/dwrt-host/dwrt_friendly_fire.cpp: the changes of a team that are made and not taken back yet.
use dwrt.Prelude.{ℕ, ◌+◌, ◌≡◌, Bool, ◌||◌, arith, u64, ◌==◌, if◌then◌else◌, inc, Memory}
use dwrt.FriendlyFire.{
  FriendlyFireState, FriendlyFireDamageScope, apply_spoof, spoof_objective, inspect_victim,
  entity_identity, begin_friendly_fire_damage, end_friendly_fire_damage,
}

-- Up to the wrap-around of the counters, `damages` of the changes of a team are not taken back.
pub record IsOpen (damages : ℕ) (s : FriendlyFireState) : Type 0 where
  pub applied : s.team_spoof_applied ≡ u64 (damages + s.team_spoof_restored)

-- Whether a scope has changed the team of its entity, as a number.
abbrev pub open_damages : FriendlyFireDamageScope → ℕ
open_damages d = if d.applied == 0 || d.entity == 0 then 0 else 1

inspect_victim-Open :
    (k : ℕ) (s : FriendlyFireState) (m : Memory) (entity : ℕ)
    → IsOpen k s
    → let b = inspect_victim s m entity in IsOpen (k + open_damages b.damage_scope) b.state
unfolding inspect_victim entity_identity spoof_objective apply_spoof
inspect_victim-Open k s m entity h = ground arith

pub begin_friendly_fire-Open :
    (k : ℕ) (s : FriendlyFireState) (m : Memory) (entity : ℕ) (recursive : Bool)
    → IsOpen k s
    → let b = begin_friendly_fire_damage s m entity recursive in
      IsOpen (k + open_damages b.damage_scope) b.state
unfolding begin_friendly_fire_damage
begin_friendly_fire-Open k s m entity recursive h =
    ground (
      arith,
      inspect_victim-Open k (record s { damage_callbacks = inc s.damage_callbacks }) m entity,
    )

pub end_friendly_fire-Open :
    (k : ℕ) (s : FriendlyFireState) (m : Memory) (d : FriendlyFireDamageScope)
    → IsOpen (k + open_damages d) s
    → IsOpen k (end_friendly_fire_damage s m d).0
unfolding end_friendly_fire_damage
end_friendly_fire-Open k s m d h = ground arith
