-- ===== src/Walker/Moves.antt =====
-- native/dwrt-host/dwrt_walker_patrol.cpp: what a callback for a walker does.
use dwrt.Prelude.{
  ℕ, ◌+◌, ◌/◌, ◌%◌, ◌<◌, ◌≡◌, ◌≢◌, refl, sym, ap, ◌∙◌, Bool, true, false, inl, inr, Option, none,
  some, arith, ◌==◌, ==→eq, eq→==, get_or, inc, max, Memory, Bool-cases, ne→==,
}
use native.Mathlib.Nat.{div-le_self}
use mathlib.Core.Bool.{true≢false}
use dwrt.Walker.Floats.{FloatApi}
use dwrt.Walker.Vectors.{Vec3, zero_vec3, mode_velocity}
use dwrt.Walker.Patrol.{
  WalkerPatrolState, entity_identity, designer_name_of, is_missing_name, is_walker_designer_name,
  patrol_walker, move_walker, inspect_victim, maybe_apply_walker_patrol_on_damage, teleport_entity,
  Teleport, vector_index,
}
use dwrt.Prelude.{next_quotient}

module _ (fl : FloatApi) where
  -- A patrol in the velocity mode.
  pub record IsPatrolling (s : WalkerPatrolState fl) : Type 0 where
    pub enabled : s.enabled ≢ 0
    pub mode : s.mode ≡ mode_velocity
    pub stride : 0 < s.stride
    pub waypoints : 0 < s.waypoint_count

  -- The entity has an identity, with the name of a walker.
  pub record IsWalker (m : Memory) (entity : ℕ) : Type 0 where
    pub identity : entity_identity m entity ≢ 0
    pub named : is_missing_name m (designer_name_of m (entity_identity m entity)) ≡ false
    pub walker : is_walker_designer_name m (designer_name_of m (entity_identity m entity)) ≡ true

  -- The state after a callback for a walker.
  pub record IsNext (s t : WalkerPatrolState fl) : Type 0 where
    pub patrolling : IsPatrolling t
    pub counted : t.candidate_walkers ≡ inc s.candidate_walkers
    pub stride : t.stride ≡ s.stride
    pub waypoints : t.waypoint_count ≡ s.waypoint_count
    pub vectors : t.vectors ≡ s.vectors

  -- What a callback for a walker does, by the number of the walker.
  unfoldable pub IsMoved :
      (s : WalkerPatrolState fl) → WalkerPatrolState fl × Option (Teleport fl) → Type 0
  IsMoved s (t, none) = IsNext s t × ((inc s.candidate_walkers % s.stride) ≢ 0)
  IsMoved s (t, some c) =
      IsNext s t
      × (((inc s.candidate_walkers % s.stride) ≡ 0)
          × (c.velocity
              ≡ some (
                  get_or s.vectors
                    (vector_index fl (inc s.candidate_walkers) s.stride s.waypoint_count)
                    (zero_vec3 fl))))

  move_walker-Moved :
      (s : WalkerPatrolState fl) (can_read : ℕ → Bool) (m : Memory) (e : ℕ) (v : Vec3 fl)
      → s.mode ≡ mode_velocity
      → move_walker fl s can_read m e v ≡ (
        record s {
          teleport_attempts = inc s.teleport_attempts;
          teleport_calls = inc s.teleport_calls;
        },
        some (teleport_entity fl m e none (some v)),
      )
  unfolding move_walker
  move_walker-Moved s can_read m e v h = rw h refl

  max_one : (n : ℕ) → 0 < n → max 1 n ≡ n
  max_one n h = omega arith

  patrol_walker-Moved :
      (s : WalkerPatrolState fl) (can_read : ℕ → Bool) (m : Memory) (e : ℕ)
      → IsPatrolling s
      → IsMoved s (patrol_walker fl s can_read m e)
  unfolding patrol_walker
  patrol_walker-Moved s can_read m e p =
      let next : IsNext s (record s { candidate_walkers = inc s.candidate_walkers }) = record {
        patrolling = record {
          enabled = p.enabled;
          mode = p.mode;
          stride = p.stride;
          waypoints = p.waypoints;
        };
        counted = refl;
        stride = refl;
        waypoints = refl;
        vectors = refl;
      } in
      rw
        (
          max_one s.stride p.stride,
          ne→== s.waypoint_count 0 (λ z. absurd (omega (arith, p.waypoints))),
        )
        (elim (Bool-cases (inc s.candidate_walkers % s.stride == 0)) [
          | inl due ↦
              let moved : IsNext s (record s {
                candidate_walkers = inc s.candidate_walkers;
                teleport_attempts = inc s.teleport_attempts;
                teleport_calls = inc s.teleport_calls;
              }) =
                record {
                  patrolling = record {
                    enabled = p.enabled;
                    mode = p.mode;
                    stride = p.stride;
                    waypoints = p.waypoints;
                  };
                  counted = refl;
                  stride = refl;
                  waypoints = refl;
                  vectors = refl;
                } in
              rw
                (
                  due,
                  move_walker-Moved (record s { candidate_walkers = inc s.candidate_walkers })
                      can_read m e
                      (get_or s.vectors
                        (vector_index fl (inc s.candidate_walkers) s.stride s.waypoint_count)
                        (zero_vec3 fl))
                      p.mode,
                )
                (unfold IsMoved teleport_entity in (moved, (==→eq _ 0 due, refl)))
          | inr other ↦
              rw other
                (unfold IsMoved in (next, λ z. absurd (true≢false (sym (eq→== _ 0 z) ∙ other))))
        ])

  IsNext-counted :
      (s t : WalkerPatrolState fl)
      → IsNext (record s { damage_callbacks = inc s.damage_callbacks }) t
      → IsNext s t
  IsNext-counted s t n = record {
    patrolling = n.patrolling;
    counted = n.counted;
    stride = n.stride;
    waypoints = n.waypoints;
    vectors = n.vectors;
  }

  IsMoved-counted :
      (s : WalkerPatrolState fl) (r : WalkerPatrolState fl × Option (Teleport fl))
      → IsMoved (record s { damage_callbacks = inc s.damage_callbacks }) r
      → IsMoved s r
  unfolding IsMoved
  IsMoved-counted s (t, none) (n, h) = (IsNext-counted s t n, h)
  IsMoved-counted s (t, some c) (n, h) = (IsNext-counted s t n, h)

  pub maybe_apply-Moved :
      (s : WalkerPatrolState fl) (can_read : ℕ → Bool) (m : Memory) (e : ℕ)
      → IsPatrolling s
      → IsWalker m e
      → IsMoved s (maybe_apply_walker_patrol_on_damage fl s can_read m e false)
  unfolding maybe_apply_walker_patrol_on_damage inspect_victim
  maybe_apply-Moved s can_read m e p w =
      rw (ne→== s.enabled 0 p.enabled, ne→== _ 0 w.identity, w.named, w.walker)
        (IsMoved-counted s _ (
          patrol_walker-Moved (record s { damage_callbacks = inc s.damage_callbacks }) can_read m e
            (record {
              enabled = p.enabled;
              mode = p.mode;
              stride = p.stride;
              waypoints = p.waypoints;
            })))

  -- The vector of a due walker, by the count of the walkers before it.
  pub due_vector :
      (c d w : ℕ)
      → 0 < d
      → c + 1 < 18446744073709551616
      → inc c % d ≡ 0
      → (vector_index fl (inc c) d w ≡ (c / d) % w) × ((c + 1) / d ≡ c / d + 1)
  due_vector c d w h small due =
      let whole : inc c ≡ c + 1 = omega arith in
      let below = div-le_self c d in
      elim (next_quotient c d h) [
        | inl (_, q) ↦ (rw (whole, q) (ap (λ k. k % w) (omega (arith, below))), q)
        | inr (ne, _) ↦ absurd (ne (rw whole at due))
      ]

  pub IsMoved-IsNext :
      (s : WalkerPatrolState fl) (r : WalkerPatrolState fl × Option (Teleport fl))
      → IsMoved s r
      → IsNext s r.0
  unfolding IsMoved
  IsMoved-IsNext s (t, none) (n, h) = n
  IsMoved-IsNext s (t, some c) (n, h) = n
