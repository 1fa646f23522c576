-- ===== src/Walker/Vectors.antt =====
-- Vec3, the default vectors and the parser of vectors in native/dwrt-host/dwrt_walker_patrol.cpp.
use dwrt.Prelude.{
  ℕ, zero, suc, Option, none, some, List, [], ◌∷◌, ◌++◌, ltb, ◌==◌, if◌then◌else◌, length, null,
}
use dwrt.Walker.Floats.{FloatApi}

abbrev pub mode_velocity : ℕ
mode_velocity = 0

abbrev pub mode_origin_nudge : ℕ
mode_origin_nudge = 1

abbrev pub max_waypoints : ℕ
max_waypoints = 8

-- `text.find(separator)`: what stands before it, and after it if it is there.
unfoldable pub split_first : ℕ → List ℕ → List ℕ × Option (List ℕ)
split_first separator [] = ([], none)
split_first separator (c ∷ cs) =
    let (item, rest) = split_first separator cs in
    if c == separator then ([], some cs) else (c ∷ item, rest)

module _ (fl : FloatApi) where
  open fl use {Float, whole, minus_whole, from_chars}

  -- `Vec3`
  pub record Vec3 : Type 0 where
    pub x : Float
    pub y : Float
    pub z : Float

  abbrev pub zero_vec3 : Vec3
  zero_vec3 = record { x = whole 0; y = whole 0; z = whole 0 }

  -- The four vectors that `set_default_vectors` writes, of the length of the mode.
  unfoldable pub square : ℕ → List Vec3
  square side =
      record { x = whole side; y = whole 0; z = whole 0 }
      ∷ record { x = whole 0; y = whole side; z = whole 0 }
      ∷ record { x = minus_whole side; y = whole 0; z = whole 0 }
      ∷ record { x = whole 0; y = minus_whole side; z = whole 0 }
      ∷ []

  unfoldable pub default_vectors : ℕ → List Vec3
  default_vectors mode = if mode == mode_origin_nudge then square 500 else square 900

  -- `result.ptr == last`
  abbrev whole_text : Option (Float × List ℕ) → Option Float
  whole_text none = none
  whole_text (some (value, rest)) = if null rest then some value else none

  unfoldable pub parse_float : List ℕ → Option Float
  parse_float text = whole_text (from_chars text)

  abbrev pub build_vec3 : Option Float → Option Float → Option Float → Option Vec3
  build_vec3 (some a) (some b) (some c) = some (record { x = a; y = b; z = c })
  build_vec3 _ _ _ = none

  -- The text after the first comma; the third part is all that follows the second.
  unfoldable pub parse_after_comma : List ℕ → Option (List ℕ) → Option Vec3
  parse_after_comma first none = none
  parse_after_comma first (some rest) =
      let (second, last) = split_first b',' rest in
      elim last [
        | none ↦ none
        | some third ↦ build_vec3 (parse_float first) (parse_float second) (parse_float third)
      ]

  unfoldable pub parse_vec3 : List ℕ → Option Vec3
  parse_vec3 text = let (first, rest) = split_first b',' text in parse_after_comma first rest

  -- `if (!item.empty() && parse_vec3(item, value)) { parsed[count] = value; count += 1; }`
  unfoldable pub push_item : List ℕ → List Vec3 → List Vec3
  push_item item parsed =
      if null item
      then parsed
      else elim (parse_vec3 item) [ none ↦ parsed | some v ↦ parsed ++ (v ∷ []) ]

  -- The loop of `parse_vector_environment`, on fuel; a round takes at least one byte, so the length
  -- of the text is enough.
  unfoldable pub parse_items : ℕ → List ℕ → List Vec3 → List Vec3
  parse_items zero remaining parsed = parsed
  parse_items (suc fuel) remaining parsed =
      let (item, rest) = split_first b';' remaining in
      let parsed' = push_item item parsed in
      if null remaining
      then parsed
      else if ltb (length parsed) max_waypoints
      then elim rest [ none ↦ parsed' | some after ↦ parse_items fuel after parsed' ]
      else parsed

  unfoldable pub parse_vectors : List ℕ → List Vec3
  parse_vectors text = parse_items (length text) text []
