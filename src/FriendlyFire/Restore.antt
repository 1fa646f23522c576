-- ===== src/FriendlyFire/Restore.antt =====
-- native/dwrt-host/dwrt_friendly_fire.cpp: when the team of a victim is changed, and that the end
-- of the scope sets it back.
use dwrt.Prelude.{
  ℕ, ◌-◌, ◌<◌, ◌≡◌, ◌≢◌, ◌↔◌, ◌⊎◌, inl, inr, refl, ap, ◌∙◌, fun_ext, Bool, true, false, arith, ◌==◌,
  u8, Memory, store_byte, Bool-cases, ne→==, ==→eq, eq→==, inc,
}
use dwrt.FriendlyFire.{
  FriendlyFireState, FriendlyFireDamageScope, empty_scope, entity_identity, designer_name_of,
  is_missing_name, is_objective_designer_name, opposing_team, team_field, Begun, apply_spoof,
  spoof_objective, inspect_victim, is_off, begin_friendly_fire_damage, end_friendly_fire_damage,
}

abbrev victim_name : Memory → ℕ → ℕ
victim_name m entity = designer_name_of m (entity_identity m entity)

-- The victim's team byte, as it is read.
abbrev pub team_of : Memory → ℕ → ℕ
team_of m entity = m (team_field entity)

-- What has to hold for the team to be changed.
pub record IsSpoofed (s : FriendlyFireState) (m : Memory) (entity : ℕ) (recursive : Bool)
    : Type 0 where
  pub switched_on : is_off s ≡ false
  pub outermost : recursive ≡ false
  pub identified : entity_identity m entity ≢ 0
  pub objective : is_objective_designer_name m (victim_name m entity) ≡ true
  pub has_opponent : (team_of m entity ≡ 2) ⊎ (team_of m entity ≡ 3)
  pub is_local : (s.local_team ≡ 0) ⊎ (team_of m entity ≡ u8 s.local_team)

objective_named :
    (m : Memory) (name : ℕ)
    → is_objective_designer_name m name ≡ true
    → is_missing_name m name ≡ false
unfolding is_objective_designer_name is_missing_name
objective_named m name h = ground arith

identified_entity : (m : Memory) (entity : ℕ) → entity_identity m entity ≢ 0 → entity ≢ 0
unfolding entity_identity
identified_entity m entity h e = h (rw e)

opposing_team_ne : (t : ℕ) → opposing_team t ≢ 0 → (t ≡ 2) ⊎ (t ≡ 3)
unfolding opposing_team
opposing_team_ne t h = ground arith

opposing_team_of : (t : ℕ) → (t ≡ 2) ⊎ (t ≡ 3) → (opposing_team t ≡ 5 - t) × (opposing_team t ≢ 0)
unfolding opposing_team
opposing_team_of t h = ground arith

module _ (s : FriendlyFireState) (m : Memory) (entity : ℕ) (recursive : Bool) where
  abbrev begun : Begun
  begun = begin_friendly_fire_damage s m entity recursive

  -- Either nothing but counters changed, or the team of the victim alone.
  abbrev Left : Begun → Type 0
  Left b = (b.damage_scope ≡ empty_scope) × (b.memory ≡ m)

  abbrev Applied : Begun → Type 0
  Applied b =
      (b.damage_scope ≡ record { entity = entity; original_team = team_of m entity; applied = 1 })
      × (b.memory ≡ store_byte m (team_field entity) (opposing_team (team_of m entity)))

  spoof_objective_cases :
      (t : FriendlyFireState)
      → t.local_team ≡ s.local_team
      → (Left (spoof_objective t m entity)
          × (((team_of m entity ≡ 2) ⊎ (team_of m entity ≡ 3))
              → ((s.local_team ≡ 0) ⊎ (team_of m entity ≡ u8 s.local_team))
              → ⊥))
        ⊎ (Applied (spoof_objective t m entity)
            × ((team_of m entity ≡ 2) ⊎ (team_of m entity ≡ 3))
            × ((s.local_team ≡ 0) ⊎ (team_of m entity ≡ u8 s.local_team)))
  unfolding spoof_objective apply_spoof
  spoof_objective_cases t e =
      ground (arith, opposing_team_ne (team_of m entity), opposing_team_of (team_of m entity))

  abbrev Decided : Begun → Type 0
  Decided b =
      (Left b × (IsSpoofed s m entity recursive → ⊥)) ⊎ (Applied b × IsSpoofed s m entity recursive)

  true≢false : true ≡ false → ⊥
  true≢false e = cc

  contradicts : (b : Bool) → b ≡ true → b ≡ false → ⊥
  contradicts b t f = cc

  inspect_victim_cases :
      (t : FriendlyFireState)
      → t.local_team ≡ s.local_team
      → is_off s ≡ false
      → recursive ≡ false
      → Decided (inspect_victim t m entity)
  unfolding inspect_victim
  inspect_victim_cases t e on outer =
      let name = victim_name m entity in
      let counted = record t { objective_candidates = inc t.objective_candidates } in
      elim (Bool-cases (entity_identity m entity == 0)) [
        | inl null ↦ rw null (inl ((refl, refl), λ p. p.identified (==→eq _ 0 null)))
        | inr identified ↦ rw identified (elim (Bool-cases (is_missing_name m name)) [
          | inl missing ↦
              rw missing (
                inl ((refl, refl), λ p. contradicts _ missing (objective_named m name p.objective)))
          | inr named ↦ rw named (elim (Bool-cases (is_objective_designer_name m name)) [
            | inl objective ↦ rw objective (elim (spoof_objective_cases counted e) [
              | inl (left, refused) ↦ inl (left, λ p. refused p.has_opponent p.is_local)
              | inr (applied, opponent, local) ↦ inr (
                applied,
                record {
                  switched_on = on;
                  outermost = outer;
                  identified = λ n. contradicts _ (eq→== _ 0 n) identified;
                  objective = objective;
                  has_opponent = opponent;
                  is_local = local;
                },
              )
            ])
            | inr other ↦ rw other (inl ((refl, refl), λ p. contradicts _ p.objective other))
          ])
        ])
      ]

  begin_cases : Decided begun
  unfolding begin_friendly_fire_damage
  begin_cases = elim (Bool-cases (is_off s)) [
    | inl off ↦ rw off (inl ((refl, refl), λ p. contradicts _ off p.switched_on))
    | inr on ↦ rw on (elim (Bool-cases recursive) [
      | inl nested ↦ rw nested (inl ((refl, refl), λ p. true≢false p.outermost))
      | inr outer ↦ rw outer (
          rw outer at (
            inspect_victim_cases (record s { damage_callbacks = inc s.damage_callbacks }) refl on
              outer))
    ])
  ]

-- Every byte of the memory is one.
abbrev pub IsBytes : Memory → Type 0
IsBytes m = (a : ℕ) → m a < 256

end_applied :
    (s : FriendlyFireState) (m : Memory) (entity team : ℕ)
    → entity ≢ 0
    → end_friendly_fire_damage s m (record { entity = entity; original_team = team; applied = 1 })
      ≡ (
        record s { team_spoof_restored = inc s.team_spoof_restored },
        store_byte m (team_field entity) team,
      )
unfolding end_friendly_fire_damage
end_applied s m entity team h = rw (ne→== entity 0 h)

end_empty : (s : FriendlyFireState) (m : Memory) → end_friendly_fire_damage s m empty_scope ≡ (s, m)
unfolding end_friendly_fire_damage
end_empty s m = refl

store_byte_self : (m : Memory) (p v : ℕ) → store_byte m p v p ≡ u8 v
store_byte_self m p v = rw (eq→== p p refl)

store_byte_ne : (m : Memory) (p v a : ℕ) → a ≢ p → store_byte m p v a ≡ m a
store_byte_ne m p v a h = rw (ne→== a p h)

u8_of_lt : (v : ℕ) → v < 256 → u8 v ≡ v
u8_of_lt v h = omega arith

store_byte_back : (m : Memory) (p v : ℕ) → m p < 256 → store_byte (store_byte m p v) p (m p) ≡ m
store_byte_back m p v h = fun_ext (λ a. ground (arith, ==→eq a p))

-- Whether the team of a victim is changed is decided by `IsSpoofed`; if so the team byte alone is
-- written, with the opposing team, and otherwise no memory is.
pub begin_friendly_fire_damage_exact :
    (s : FriendlyFireState) (m : Memory) (entity : ℕ) (recursive : Bool)
    → let b = begin_friendly_fire_damage s m entity recursive in
      ((b.damage_scope.applied ≡ 1) ↔ IsSpoofed s m entity recursive)
      × (IsSpoofed s m entity recursive
          → b.memory ≡ store_byte m (team_field entity) (5 - team_of m entity))
      × ((IsSpoofed s m entity recursive → ⊥) → b.memory ≡ m)
begin_friendly_fire_damage_exact s m entity recursive = elim (begin_cases s m entity recursive) [
  | inl (left, unmet) ↦ (
    (
      λ e. absurd (omega (arith, ap (λ (d : FriendlyFireDamageScope). d.applied) left.0)),
      λ p. absurd (unmet p),
    ),
    λ p. absurd (unmet p),
    λ _. left.1,
  )
  | inr (applied, met) ↦ (
    (λ _. met, λ _. ap (λ (d : FriendlyFireDamageScope). d.applied) applied.0),
    λ p. applied.1 ∙ ap (store_byte m (team_field entity)) (opposing_team_of _ p.has_opponent).0,
    λ unmet. absurd (unmet met),
  )
]

-- What the end of a scope does after a damage call has left any state and memory behind: a changed
-- team gets its old value back and no other byte is touched, and where no team was changed nothing
-- happens.
pub end-begin_team :
    (s after : FriendlyFireState) (m left : Memory) (entity : ℕ) (recursive : Bool)
    → IsBytes m
    → let b = begin_friendly_fire_damage s m entity recursive in
      let e = end_friendly_fire_damage after left b.damage_scope in
      (IsSpoofed s m entity recursive
        → (team_of e.1 entity ≡ team_of m entity)
          × ((a : ℕ) → a ≢ team_field entity → e.1 a ≡ left a)
          × (e.0.team_spoof_restored ≡ inc after.team_spoof_restored))
      × ((IsSpoofed s m entity recursive → ⊥) → e ≡ (after, left))
end-begin_team s after m left entity recursive bytes = elim (begin_cases s m entity recursive) [
  | inl (kept, unmet) ↦ (λ p. absurd (unmet p), λ _. rw kept.0 (end_empty after left))
  | inr (applied, met) ↦ (
    λ p.
        let ended =
          end_applied after left entity (team_of m entity)
            (identified_entity m entity p.identified) in
        rw (applied.0) (
          rw ended (
            store_byte_self left (team_field entity) (team_of m entity)
                ∙ u8_of_lt (team_of m entity) (bytes (team_field entity)),
            λ a ne. store_byte_ne left (team_field entity) (team_of m entity) a ne,
            refl,
          )),
    λ unmet. absurd (unmet met),
  )
]

-- A scope that ends on the memory it left restores it whole.
pub end-begin :
    (s after : FriendlyFireState) (m : Memory) (entity : ℕ) (recursive : Bool)
    → IsBytes m
    → let b = begin_friendly_fire_damage s m entity recursive in
      (end_friendly_fire_damage after b.memory b.damage_scope).1 ≡ m
end-begin s after m entity recursive bytes = elim (begin_cases s m entity recursive) [
  | inl (kept, unmet) ↦
      rw (kept.0, kept.1) (ap (λ (e : FriendlyFireState × Memory). e.1) (end_empty after m))
  | inr (applied, met) ↦
      rw (applied.0, applied.1)
        (ap (λ (e : FriendlyFireState × Memory). e.1)
            (end_applied after _ entity (team_of m entity)
              (identified_entity m entity met.identified))
          ∙ store_byte_back m (team_field entity) _ (bytes (team_field entity)))
]
