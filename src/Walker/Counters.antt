-- ===== src/Walker/Counters.antt =====
-- native/dwrt-host/dwrt_walker_patrol.cpp: what the counters of the patrol account for.
use dwrt.Prelude.{
  inl, inr, Bool-cases, not, ◌||◌, ◌%◌, max, ◌==◌, ℕ, ◌+◌, ◌≡◌, Bool, Option, none, some, List, [],
  ◌∷◌, arith, u64, inc, Memory,
}
use dwrt.Environment.{GetVariable}
use dwrt.Walker.Floats.{FloatApi}
use dwrt.Walker.Vectors.{Vec3}
use dwrt.Walker.Patrol.{
  WalkerPatrolState, set_default_vectors, set_parsed_vectors, parse_vector_environment,
  configure_walker_patrol_from_environment, reset_walker_patrol_counters, count_origin,
  read_scene_node, read_body_component, read_entity_abs_origin, nudge_origin, move_walker,
  patrol_walker, inspect_victim, maybe_apply_walker_patrol_on_damage,
}

module _ (fl : FloatApi) where
  -- Every callback is counted once by its outcome, every read of an origin by its success, and every
  -- attempt to teleport is a call or a failed read; all up to the wrap-around of the counters.
  pub record IsAccounted (s : WalkerPatrolState fl) : Type 0 where
    pub callbacks :
        s.damage_callbacks
        ≡ u64 (
            s.skipped_recursive
            + (s.missing_identity
                + (s.missing_designer_name + (s.non_walker_victims + s.candidate_walkers))))
    pub origins : s.origin_read_attempts ≡ u64 (s.origin_read_successes + s.origin_read_failures)
    pub attempts : s.teleport_attempts ≡ u64 (s.teleport_calls + s.origin_read_failures)

  -- As `IsAccounted`, with counters that run ahead: of a callback, a read and an attempt.
  record IsPending (callback read attempt : ℕ) (s : WalkerPatrolState fl) : Type 0 where
    callbacks :
        s.damage_callbacks
        ≡ u64 (
            callback
            + (s.skipped_recursive
                + (s.missing_identity
                    + (s.missing_designer_name + (s.non_walker_victims + s.candidate_walkers)))))
    origins :
        s.origin_read_attempts ≡ u64 (read + (s.origin_read_successes + s.origin_read_failures))
    attempts : s.teleport_attempts ≡ u64 (attempt + (s.teleport_calls + s.origin_read_failures))

  -- After a read, a failure accounts for the attempt.
  IsPendingRead : WalkerPatrolState fl × Option (Vec3 fl) → Type 0
  IsPendingRead (s, none) = IsPending 0 0 0 s
  IsPendingRead (s, some o) = IsPending 0 0 1 s

  -- One call of the component.
  pub data Call : Type 0 where
    applies : (ℕ → Bool) → Memory → ℕ → Bool → Call
    resets : Call
    configures : GetVariable → Call

  unfoldable pub step : WalkerPatrolState fl → Call → WalkerPatrolState fl
  step s (applies can_read m entity recursive) =
      (maybe_apply_walker_patrol_on_damage fl s can_read m entity recursive).0
  step s resets = reset_walker_patrol_counters fl s
  step s (configures get) = configure_walker_patrol_from_environment fl get s

  unfoldable pub run : WalkerPatrolState fl → List Call → WalkerPatrolState fl
  run s [] = s
  run s (c ∷ cs) = run (step s c) cs

  count_origin-Pending :
      (s : WalkerPatrolState fl) (o : Option (Vec3 fl))
      → IsPending 0 1 1 s
      → IsPendingRead (count_origin fl s o)
  unfolding count_origin IsPendingRead
  count_origin-Pending s none v = ground arith
  count_origin-Pending s (some o) v = ground arith

  read_scene_node-Pending :
      (s : WalkerPatrolState fl) (can_read : ℕ → Bool) (m : Memory) (o : Option ℕ)
      → IsPending 0 1 1 s
      → IsPendingRead (read_scene_node fl s can_read m o)
  unfolding read_scene_node
  read_scene_node-Pending s can_read m none v = unfold IsPendingRead in ground arith
  read_scene_node-Pending s can_read m (some p) v = count_origin-Pending s _ v

  read_body_component-Pending :
      (s : WalkerPatrolState fl) (can_read : ℕ → Bool) (m : Memory) (o : Option ℕ)
      → IsPending 0 1 1 s
      → IsPendingRead (read_body_component fl s can_read m o)
  unfolding read_body_component
  read_body_component-Pending s can_read m none v = unfold IsPendingRead in ground arith
  read_body_component-Pending s can_read m (some p) v = read_scene_node-Pending s can_read m _ v

  read_entity_abs_origin-Pending :
      (s : WalkerPatrolState fl) (can_read : ℕ → Bool) (m : Memory) (entity : ℕ)
      → IsPending 0 0 1 s
      → IsPendingRead (read_entity_abs_origin fl s can_read m entity)
  unfolding read_entity_abs_origin
  read_entity_abs_origin-Pending s can_read m entity v =
      read_body_component-Pending (record s { origin_read_attempts = inc s.origin_read_attempts })
        can_read m _ (ground arith)

  nudge_origin-Accounted :
      (m : Memory) (entity : ℕ) (v : Vec3 fl) (r : WalkerPatrolState fl × Option (Vec3 fl))
      → IsPendingRead r
      → IsAccounted (nudge_origin fl m entity v r).0
  unfolding nudge_origin IsPendingRead
  nudge_origin-Accounted m entity v (s, none) h = ground arith
  nudge_origin-Accounted m entity v (s, some o) h = ground arith

  move_walker-Accounted :
      (s : WalkerPatrolState fl) (can_read : ℕ → Bool) (m : Memory) (entity : ℕ) (v : Vec3 fl)
      → IsAccounted s
      → IsAccounted (move_walker fl s can_read m entity v).0
  unfolding move_walker
  move_walker-Accounted s can_read m entity v h = ground (
    arith,
    nudge_origin-Accounted m entity v _ (
        read_entity_abs_origin-Pending (record s { teleport_attempts = inc s.teleport_attempts })
          can_read m entity (ground arith)),
  )

  patrol_walker-Accounted :
      (s : WalkerPatrolState fl) (can_read : ℕ → Bool) (m : Memory) (entity : ℕ)
      → IsPending 1 0 0 s
      → IsAccounted (patrol_walker fl s can_read m entity).0
  unfolding patrol_walker
  patrol_walker-Accounted s can_read m entity h =
      let counted : IsAccounted (record s { candidate_walkers = inc s.candidate_walkers }) =
        ground arith in
      elim (Bool-cases
        (not (inc s.candidate_walkers % max 1 s.stride == 0) || s.waypoint_count == 0)) [
          | inl still ↦ rw still counted
          | inr moves ↦ rw moves (
              move_walker-Accounted (record s { candidate_walkers = inc s.candidate_walkers })
                can_read m entity _ counted)
        ]

  inspect_victim-Accounted :
      (s : WalkerPatrolState fl) (can_read : ℕ → Bool) (m : Memory) (entity : ℕ)
      → IsPending 1 0 0 s
      → IsAccounted (inspect_victim fl s can_read m entity).0
  unfolding inspect_victim
  inspect_victim-Accounted s can_read m entity h =
      ground (arith, patrol_walker-Accounted s can_read m entity h)

  pub apply-Accounted :
      (s : WalkerPatrolState fl) (can_read : ℕ → Bool) (m : Memory) (entity : ℕ) (recursive : Bool)
      → IsAccounted s
      → IsAccounted (maybe_apply_walker_patrol_on_damage fl s can_read m entity recursive).0
  unfolding maybe_apply_walker_patrol_on_damage
  apply-Accounted s can_read m entity recursive h = ground (
    arith,
    inspect_victim-Accounted (record s { damage_callbacks = inc s.damage_callbacks }) can_read m
        entity,
  )

  set_parsed_vectors-Accounted :
      (s : WalkerPatrolState fl) (mode : ℕ) (o : Option (List ℕ))
      → IsAccounted s
      → IsAccounted (set_parsed_vectors fl s mode o)
  unfolding set_parsed_vectors set_default_vectors
  set_parsed_vectors-Accounted s mode none h = ground arith
  set_parsed_vectors-Accounted s mode (some text) h = ground arith

  step-Accounted : (s : WalkerPatrolState fl) (c : Call) → IsAccounted s → IsAccounted (step s c)
  unfolding step
  step-Accounted s (applies can_read m entity recursive) h =
      apply-Accounted s can_read m entity recursive h
  step-Accounted s resets h = unfold reset_walker_patrol_counters in ground arith
  step-Accounted s (configures get) h =
      unfold configure_walker_patrol_from_environment parse_vector_environment in
      set_parsed_vectors-Accounted _ _ _
        (record { callbacks = h.callbacks; origins = h.origins; attempts = h.attempts })

  -- Any calls in any order keep the counters of the patrol accounted for.
  pub run_calls-IsAccounted :
      (s : WalkerPatrolState fl) (cs : List Call) → IsAccounted s → IsAccounted (run s cs)
  unfolding run
  run_calls-IsAccounted s [] h = h
  run_calls-IsAccounted s (c ∷ cs) h = run_calls-IsAccounted (step s c) cs (step-Accounted s c h)
