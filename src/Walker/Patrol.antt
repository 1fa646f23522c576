-- ===== src/Walker/Patrol.antt =====
-- The state of native/dwrt-host/dwrt_walker_patrol.cpp, its configuration and its damage callback.
-- The memory is read only; the call of the entity's `Teleport` is the result.
use dwrt.Prelude.{
  ℕ, ◌+◌, ◌*◌, ◌/◌, ◌%◌, Bool, false, not, ◌&&◌, ◌||◌, Option, none, some, List, [], ◌∷◌, ltb, ◌==◌,
  if◌then◌else◌, length, get_or, set, max, codes, text_eq, u64, inc, Memory, load_ptr,
  c_string_among,
}
use dwrt.Environment.{GetVariable, env_flag_enabled, read_variable, read_text, parse_ulong}
use dwrt.Walker.Floats.{FloatApi}
use dwrt.Walker.Vectors.{
  mode_velocity, mode_origin_nudge, Vec3, zero_vec3, default_vectors, parse_vectors,
}

abbrev pub teleport_vtable_index : ℕ
teleport_vtable_index = 163

abbrev positive_value : ℕ → Option ℕ → ℕ
positive_value fallback none = fallback
positive_value fallback (some v) = if ltb 100000 v then fallback else max 1 v

abbrev positive_text : ℕ → Option (List ℕ) → ℕ
positive_text fallback none = fallback
positive_text fallback (some buffer) = positive_value fallback (parse_ulong buffer)

unfoldable pub env_u32_or : GetVariable → List ℕ → ℕ → ℕ
env_u32_or get name fallback = positive_text fallback (read_variable get name 32)

-- The four spellings of the origin mode.
unfoldable pub is_origin_text : List ℕ → Bool
is_origin_text text =
    text_eq text (codes "origin")
    || (text_eq text (codes "origin-nudge")
        || (text_eq text (codes "OriginNudge") || text_eq text (codes "ORIGIN_NUDGE")))

abbrev mode_of_text : Option (List ℕ) → ℕ
mode_of_text none = mode_velocity
mode_of_text (some text) = if is_origin_text text then mode_origin_nudge else mode_velocity

unfoldable pub env_mode_or_velocity : GetVariable → ℕ
env_mode_or_velocity get =
    if env_flag_enabled get (codes "DWRT_WALKER_PATROL_ORIGIN_NUDGE")
    then mode_origin_nudge
    else mode_of_text (read_text get (codes "DWRT_WALKER_PATROL_MODE") 32)

unfoldable pub entity_identity : Memory → ℕ → ℕ
entity_identity m entity = if entity == 0 then 0 else load_ptr m (entity + 0x10)

unfoldable pub designer_name_of : Memory → ℕ → ℕ
designer_name_of m identity = load_ptr m (identity + 32)

unfoldable pub is_missing_name : Memory → ℕ → Bool
is_missing_name m name = name == 0 || m name == 0

unfoldable pub is_walker_designer_name : Memory → ℕ → Bool
is_walker_designer_name m name =
    if is_missing_name m name
    then false
    else c_string_among m name
        (codes "npc_boss_tier2" ∷ codes "alt_npc_boss_tier2" ∷ codes "CNPC_Boss_Tier2" ∷ [])

-- `__try` around the load: `can_read` tells the addresses that do not fault.
unfoldable pub safe_read_pointer : (ℕ → Bool) → Memory → ℕ → ℕ → Option ℕ
safe_read_pointer can_read m base offset =
    if base == 0
    then none
    else if can_read (base + offset)
    then some (load_ptr m (base + offset))
    else none

-- A pointer that was read and is not null.
unfoldable pub nonnull : Option ℕ → Option ℕ
nonnull none = none
nonnull (some p) = if p == 0 then none else some p

module _ (fl : FloatApi) where
  open fl use {Float, add, is_finite, is_below_million, load_float}

  -- `WalkerPatrolState`; `vectors` has eight elements.
  pub record WalkerPatrolState : Type 0 where
    pub enabled : ℕ
    pub stride : ℕ
    pub mode : ℕ
    pub vectors : List (Vec3 fl)
    pub waypoint_count : ℕ
    pub damage_callbacks : ℕ
    pub candidate_walkers : ℕ
    pub non_walker_victims : ℕ
    pub skipped_recursive : ℕ
    pub missing_identity : ℕ
    pub missing_designer_name : ℕ
    pub teleport_attempts : ℕ
    pub teleport_calls : ℕ
    pub body_component_missing : ℕ
    pub scene_node_missing : ℕ
    pub origin_read_attempts : ℕ
    pub origin_read_successes : ℕ
    pub origin_read_failures : ℕ

  -- The writes `vectors[index] = …` from an index on.
  unfoldable pub write_vectors : ℕ → List (Vec3 fl) → List (Vec3 fl) → List (Vec3 fl)
  write_vectors index [] vectors = vectors
  write_vectors index (v ∷ vs) vectors = write_vectors (index + 1) vs (set vectors index v)

  unfoldable pub set_default_vectors : WalkerPatrolState → ℕ → WalkerPatrolState
  set_default_vectors s mode = record s {
    vectors = write_vectors 0 (default_vectors fl mode) s.vectors;
    waypoint_count = 4;
  }

  unfoldable pub set_parsed_vectors : WalkerPatrolState → ℕ → Option (List ℕ) → WalkerPatrolState
  set_parsed_vectors s mode none = set_default_vectors s mode
  set_parsed_vectors s mode (some text) =
      let parsed = parse_vectors fl text in
      if length parsed == 0
      then set_default_vectors s mode
      else record s { vectors = write_vectors 0 parsed s.vectors; waypoint_count = length parsed }

  unfoldable pub parse_vector_environment : GetVariable → WalkerPatrolState → ℕ → WalkerPatrolState
  parse_vector_environment get s mode =
      set_parsed_vectors s mode (read_text get (codes "DWRT_WALKER_PATROL_VELOCITIES") 512)

  unfoldable pub configure_walker_patrol_from_environment :
      GetVariable → WalkerPatrolState → WalkerPatrolState
  configure_walker_patrol_from_environment get s =
      let mode = env_mode_or_velocity get in
      parse_vector_environment get
        (record s {
          enabled = if env_flag_enabled get (codes "DWRT_WALKER_PATROL_EXPERIMENT") then 1 else 0;
          stride = env_u32_or get (codes "DWRT_WALKER_PATROL_STRIDE") 16;
          mode = mode;
        })
        mode

  unfoldable pub reset_walker_patrol_counters : WalkerPatrolState → WalkerPatrolState
  reset_walker_patrol_counters s = record s {
    damage_callbacks = 0;
    candidate_walkers = 0;
    non_walker_victims = 0;
    skipped_recursive = 0;
    missing_identity = 0;
    missing_designer_name = 0;
    teleport_attempts = 0;
    teleport_calls = 0;
    body_component_missing = 0;
    scene_node_missing = 0;
    origin_read_attempts = 0;
    origin_read_successes = 0;
    origin_read_failures = 0;
  }

  unfoldable pub plausible_origin : Vec3 fl → Bool
  plausible_origin o =
      is_finite o.x
      && (is_finite o.y
          && (is_finite o.z
              && (is_below_million o.x && (is_below_million o.y && is_below_million o.z))))

  -- Three floats in a row.
  unfoldable pub safe_read_vec3 : (ℕ → Bool) → Memory → ℕ → ℕ → Option (Vec3 fl)
  safe_read_vec3 can_read m base offset =
      let p = base + offset in
      if base == 0
      then none
      else if can_read p
      then some (record { x = load_float m p; y = load_float m (p + 4); z = load_float m (p + 8) })
      else none

  unfoldable pub accept_origin : Option (Vec3 fl) → Option (Vec3 fl)
  accept_origin none = none
  accept_origin (some o) = if plausible_origin o then some o else none

  unfoldable pub count_origin :
      WalkerPatrolState → Option (Vec3 fl) → WalkerPatrolState × Option (Vec3 fl)
  count_origin s none = (record s { origin_read_failures = inc s.origin_read_failures }, none)
  count_origin s (some o) =
      (record s { origin_read_successes = inc s.origin_read_successes }, some o)

  unfoldable pub read_scene_node :
      WalkerPatrolState → (ℕ → Bool) → Memory → Option ℕ → WalkerPatrolState × Option (Vec3 fl)
  read_scene_node s can_read m none = (
    record s {
      scene_node_missing = inc s.scene_node_missing;
      origin_read_failures = inc s.origin_read_failures;
    },
    none,
  )
  read_scene_node s can_read m (some scene_node) =
      count_origin s (accept_origin (safe_read_vec3 can_read m scene_node 0xc8))

  unfoldable pub read_body_component :
      WalkerPatrolState → (ℕ → Bool) → Memory → Option ℕ → WalkerPatrolState × Option (Vec3 fl)
  read_body_component s can_read m none = (
    record s {
      body_component_missing = inc s.body_component_missing;
      origin_read_failures = inc s.origin_read_failures;
    },
    none,
  )
  read_body_component s can_read m (some body) =
      read_scene_node s can_read m (nonnull (safe_read_pointer can_read m body 0x8))

  unfoldable pub read_entity_abs_origin :
      WalkerPatrolState → (ℕ → Bool) → Memory → ℕ → WalkerPatrolState × Option (Vec3 fl)
  read_entity_abs_origin s can_read m entity =
      read_body_component (record s { origin_read_attempts = inc s.origin_read_attempts }) can_read
        m (nonnull (safe_read_pointer can_read m entity 0x30))

  -- A call of `TeleportFn`, with the address of the function that the vtable holds.
  pub record Teleport : Type 0 where
    pub function : ℕ
    pub entity : ℕ
    pub position : Option (Vec3 fl)
    pub velocity : Option (Vec3 fl)

  unfoldable pub teleport_entity : Memory → ℕ → Option (Vec3 fl) → Option (Vec3 fl) → Teleport
  teleport_entity m entity position velocity = record {
    function = load_ptr m (load_ptr m entity + teleport_vtable_index * 8);
    entity = entity;
    position = position;
    velocity = velocity;
  }

  unfoldable pub nudge_origin :
      Memory
      → ℕ
      → Vec3 fl
      → WalkerPatrolState × Option (Vec3 fl)
      → WalkerPatrolState × Option Teleport
  nudge_origin m entity v (s, none) = (s, none)
  nudge_origin m entity v (s, some o) = (
    record s { teleport_calls = inc s.teleport_calls },
    some (
        teleport_entity m entity
          (some (record { x = add o.x v.x; y = add o.y v.y; z = add o.z v.z })) none),
  )

  unfoldable pub move_walker :
      WalkerPatrolState → (ℕ → Bool) → Memory → ℕ → Vec3 fl → WalkerPatrolState × Option Teleport
  move_walker s can_read m entity v =
      let tried = record s { teleport_attempts = inc s.teleport_attempts } in
      if s.mode == mode_origin_nudge
      then nudge_origin m entity v (read_entity_abs_origin tried can_read m entity)
      else (
        record tried { teleport_calls = inc s.teleport_calls },
        some (teleport_entity m entity none (some v)),
      )

  -- `((walker_index / stride) - 1) % waypoint_count`, the subtraction in 64 bits.
  abbrev pub vector_index : ℕ → ℕ → ℕ → ℕ
  vector_index walker_index stride waypoints =
      u64 (walker_index / stride + 18446744073709551615) % waypoints

  unfoldable pub patrol_walker :
      WalkerPatrolState → (ℕ → Bool) → Memory → ℕ → WalkerPatrolState × Option Teleport
  patrol_walker s can_read m entity =
      let walker_index = inc s.candidate_walkers in
      let counted = record s { candidate_walkers = walker_index } in
      let stride = max 1 s.stride in
      if not (walker_index % stride == 0) || s.waypoint_count == 0
      then (counted, none)
      else move_walker counted can_read m entity
          (get_or s.vectors (vector_index walker_index stride s.waypoint_count) (zero_vec3 fl))

  unfoldable pub inspect_victim :
      WalkerPatrolState → (ℕ → Bool) → Memory → ℕ → WalkerPatrolState × Option Teleport
  inspect_victim s can_read m entity =
      let identity = entity_identity m entity in
      let name = designer_name_of m identity in
      if identity == 0
      then (record s { missing_identity = inc s.missing_identity }, none)
      else if is_missing_name m name
      then (record s { missing_designer_name = inc s.missing_designer_name }, none)
      else if not (is_walker_designer_name m name)
      then (record s { non_walker_victims = inc s.non_walker_victims }, none)
      else patrol_walker s can_read m entity

  unfoldable pub maybe_apply_walker_patrol_on_damage :
      WalkerPatrolState
      → (ℕ → Bool)
      → Memory
      → (entity : ℕ) (recursive : Bool) → WalkerPatrolState × Option Teleport
  maybe_apply_walker_patrol_on_damage s can_read m entity recursive =
      let counted = record s { damage_callbacks = inc s.damage_callbacks } in
      if s.enabled == 0
      then (s, none)
      else if recursive
      then (record counted { skipped_recursive = inc s.skipped_recursive }, none)
      else inspect_victim counted can_read m entity
