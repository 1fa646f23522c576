-- ===== src/Walker/Tests.antt =====
-- A patrol over whole numbers, for native/dwrt-host/dwrt_walker_patrol.cpp.
use dwrt.Prelude.{
  take, ℕ, ◌+◌, ◌-◌, ◌*◌, ◌≡◌, refl, true, false, ◌&&◌, some, List, [], ◌∷◌, map, arith, leb, ltb,
  if◌then◌else◌, codes, Memory, memory_of, load_le, c_string_is, c_string_among,
}
use dwrt.Walker.Floats.{FloatApi}
use dwrt.Walker.Vectors.{max_waypoints, parse_vectors, mode_velocity, square, default_vectors}
use dwrt.Walker.Parsing.{values, items, parse_vectors-take}
use dwrt.Walker.Patrol.{
  WalkerPatrolState, entity_identity, designer_name_of, is_missing_name, is_walker_designer_name,
}
use dwrt.Walker.Counters.{IsAccounted, applies, resets, run, run_calls-IsAccounted}
use dwrt.Walker.Moves.{IsPatrolling, IsWalker}
use dwrt.Walker.Schedule.{patrol, round_robin, patrol-round_robin}

-- The digits at the start of a text.
unfoldable pub read_digits : ℕ → List ℕ → ℕ × List ℕ
read_digits value [] = (value, [])
read_digits value (c ∷ cs) =
    let rest = read_digits (value * 10 + (c - b'0')) cs in
    if leb b'0' c && leb c b'9' then rest else (value, c ∷ cs)

-- Whole numbers, where a number and its negative are not told apart.
abbrev pub whole_floats : FloatApi
whole_floats = record {
  Float = ℕ;
  whole = λ n. n;
  minus_whole = λ n. n;
  add = λ a b. a + b;
  is_finite = λ a. true;
  is_below_million = λ a. ltb a 1000000;
  from_chars = λ text. some (read_digits 0 text);
  load_float = λ m a. m a;
}

parse_vectors-take_example :
    parse_vectors whole_floats (codes "1,2,3;;4,5;6,7,8")
    ≡ take max_waypoints (values whole_floats (items b';' (codes "1,2,3;;4,5;6,7,8")))
parse_vectors-take_example = parse_vectors-take whole_floats (codes "1,2,3;;4,5;6,7,8")

-- An entity at 1000 with its identity at 2000 and its name at 3000.
abbrev walker_memory : Memory
walker_memory =
    memory_of ((1016, 0xd0 ∷ 7 ∷ []) ∷ (2032, 0xb8 ∷ 11 ∷ []) ∷ (3000, codes "npc_boss_tier2") ∷ [])

abbrev pub patrolling_state : WalkerPatrolState whole_floats
patrolling_state = record {
  enabled = 1;
  stride = 2;
  mode = mode_velocity;
  vectors = default_vectors whole_floats mode_velocity;
  waypoint_count = 4;
  damage_callbacks = 0;
  candidate_walkers = 0;
  non_walker_victims = 0;
  skipped_recursive = 0;
  missing_identity = 0;
  missing_designer_name = 0;
  teleport_attempts = 0;
  teleport_calls = 0;
  body_component_missing = 0;
  scene_node_missing = 0;
  origin_read_attempts = 0;
  origin_read_successes = 0;
  origin_read_failures = 0;
}

patrolling_state-IsPatrolling : IsPatrolling whole_floats patrolling_state
patrolling_state-IsPatrolling = record {
  enabled = λ e. absurd (omega (arith, e));
  mode = refl;
  stride = omega arith;
  waypoints = omega arith;
}

walker_memory-IsWalker : IsWalker whole_floats walker_memory 1000
unfolding entity_identity designer_name_of is_missing_name is_walker_designer_name load_le
    c_string_is c_string_among
walker_memory-IsWalker = record {
  identity = λ e. absurd (omega (arith, e));
  named = refl;
  walker = refl;
}

patrol-round_robin_example :
    map
      (λ c. c.velocity)
      (patrol whole_floats patrolling_state
        (λ a. true)
        walker_memory
        (1000 ∷ 1000 ∷ 1000 ∷ 1000 ∷ 1000 ∷ [])).1
    ≡ round_robin whole_floats patrolling_state.vectors 4 0 2
patrol-round_robin_example =
    patrol-round_robin whole_floats patrolling_state (λ a. true) walker_memory
      (1000 ∷ 1000 ∷ 1000 ∷ 1000 ∷ 1000 ∷ []) 2 patrolling_state-IsPatrolling
      (
        walker_memory-IsWalker,
        (
          walker_memory-IsWalker,
          (walker_memory-IsWalker, (walker_memory-IsWalker, (walker_memory-IsWalker, tt))),
        ),
      )
      (omega arith) refl

-- Two vectors in turn.
turns :
    round_robin whole_floats (square whole_floats 900) 4 3 2
    ≡ some (record { x = 0; y = 900; z = 0 }) ∷ some (record { x = 900; y = 0; z = 0 }) ∷ []
unfolding round_robin square
turns = refl

run_calls-IsAccounted_example :
    IsAccounted whole_floats (
      run whole_floats patrolling_state
        (applies (λ a. true) walker_memory 1000 false ∷ resets ∷ []))
run_calls-IsAccounted_example =
    run_calls-IsAccounted whole_floats patrolling_state
      (applies (λ a. true) walker_memory 1000 false ∷ resets ∷ [])
      (record { callbacks = refl; origins = refl; attempts = refl })
