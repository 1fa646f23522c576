-- ===== src/Walker/Parsing.antt =====
-- parse_vector_environment of native/dwrt-host/dwrt_walker_patrol.cpp against its list of items.
use dwrt.Prelude.{
  ℕ, zero, suc, ◌≤◌, ◌<◌, ◌≡◌, refl, sym, ap, ◌∙◌, inl, inr, Option, none, some, List, [], ◌∷◌,
  ◌++◌, append-nil, append_assoc, arith, ◌==◌, if◌then◌else◌, length, length-append, take, take-all,
  take-append_le, Option-cases, null, Bool-cases, lt→ltb, ltb_irrefl,
}
use native.Mathlib.Decide.{dec_lt}
use dwrt.Walker.Floats.{FloatApi}
use dwrt.Walker.Vectors.{
  split_first, Vec3, parse_vec3, push_item, parse_items, parse_vectors, max_waypoints,
}

-- The parts of a text between the separators.
items_from : ℕ → List ℕ → List ℕ → List (List ℕ)
items_from separator item [] = item ∷ []
items_from separator item (c ∷ cs) =
    if c == separator
    then item ∷ items_from separator [] cs
    else items_from separator (item ++ (c ∷ [])) cs

unfoldable pub items : ℕ → List ℕ → List (List ℕ)
unfolding items_from
items separator text = items_from separator [] text

-- The parts of what follows a separator, if one was found.
abbrev later_items : ℕ → Option (List ℕ) → List (List ℕ)
later_items separator none = []
later_items separator (some rest) = items_from separator [] rest

items_from-split_first :
    (separator : ℕ) (item text : List ℕ)
    → items_from separator item text
      ≡ (item ++ (split_first separator text).0)
        ∷ later_items separator (split_first separator text).1
unfolding items_from split_first
items_from-split_first separator item [] = rw (append-nil item)
items_from-split_first separator item (c ∷ cs) = elim (Bool-cases (c == separator)) [
  | inl found ↦ rw (found, append-nil item)
  | inr other ↦ rw other (
      items_from-split_first separator (item ++ (c ∷ [])) cs
      ∙ rw (append_assoc item (c ∷ []) (split_first separator cs).0))
]

abbrev IsShorter : ℕ → Option (List ℕ) → Type 0
IsShorter n none = Unit
IsShorter n (some rest) = length rest < n

IsShorter-mono : (n : ℕ) (o : Option (List ℕ)) → IsShorter n o → IsShorter (suc n) o
IsShorter-mono n none h = tt
IsShorter-mono n (some rest) h = omega arith

split_first-IsShorter :
    (separator : ℕ) (text : List ℕ) → IsShorter (length text) (split_first separator text).1
unfolding split_first
split_first-IsShorter separator [] = tt
split_first-IsShorter separator (c ∷ cs) = elim (Bool-cases (c == separator)) [
  | inl found ↦ rw found (omega arith)
  | inr other ↦ rw other (IsShorter-mono (length cs) _ (split_first-IsShorter separator cs))
]

module _ (fl : FloatApi) where
  abbrev found_value : Option (Vec3 fl) → List (Vec3 fl)
  found_value none = []
  found_value (some v) = v ∷ []

  -- The vector that an item stands for, if it is one.
  abbrev pub item_value : List ℕ → List (Vec3 fl)
  item_value item = if null item then [] else found_value (parse_vec3 fl item)

  unfoldable pub values : List (List ℕ) → List (Vec3 fl)
  values [] = []
  values (i ∷ rest) = item_value i ++ values rest

  push_found :
      (parsed : List (Vec3 fl)) (o : Option (Vec3 fl))
      → (elim o [ none ↦ parsed | some v ↦ parsed ++ (v ∷ []) ]) ≡ parsed ++ found_value o
  push_found parsed none = sym (append-nil parsed)
  push_found parsed (some v) = refl

  push_item_lem :
      (item : List ℕ) (parsed : List (Vec3 fl))
      → push_item fl item parsed ≡ parsed ++ item_value item
  unfolding push_item
  push_item_lem item parsed = elim (Bool-cases (null item)) [
    | inl e ↦ rw (e, append-nil parsed)
    | inr e ↦ rw e (push_found parsed (parse_vec3 fl item))
  ]

  length-found_value : (o : Option (Vec3 fl)) → length (found_value o) ≤ 1
  length-found_value none = omega arith
  length-found_value (some v) = omega arith

  length-item_value : (item : List ℕ) → length (item_value item) ≤ 1
  length-item_value item = elim (Bool-cases (null item)) [
    | inl e ↦ rw e (omega arith)
    | inr e ↦ rw e (length-found_value (parse_vec3 fl item))
  ]

  -- One round, at a text that is not empty, with room for one more vector.
  parse_items_round :
      (fuel c : ℕ) (cs : List ℕ) (parsed : List (Vec3 fl))
      → length parsed < 8
      → parse_items fl (suc fuel) (c ∷ cs) parsed ≡ (elim (split_first b';' (c ∷ cs)).1 [
        | none ↦ push_item fl (split_first b';' (c ∷ cs)).0 parsed
        | some after ↦ parse_items fl fuel after (push_item fl (split_first b';' (c ∷ cs)).0 parsed)
      ])
  unfolding parse_items
  parse_items_round fuel c cs parsed h = rw (lt→ltb (length parsed) 8 h)

  parse_items_nil : (fuel : ℕ) (parsed : List (Vec3 fl)) → parse_items fl fuel [] parsed ≡ parsed
  unfolding parse_items
  parse_items_nil zero parsed = refl
  parse_items_nil (suc fuel) parsed = refl

  parse_items_full :
      (fuel : ℕ) (text : List ℕ) (parsed : List (Vec3 fl))
      → length parsed ≡ 8
      → parse_items fl fuel text parsed ≡ parsed
  unfolding parse_items
  parse_items_full zero text parsed h = refl
  parse_items_full (suc fuel) [] parsed h = refl
  parse_items_full (suc fuel) (c ∷ cs) parsed h = rw (ltb_irrefl (length parsed) 8 h)

  values_nil : values (items_from b';' [] []) ≡ []
  unfolding values items_from
  values_nil = refl

  -- A text that is not empty: the vector of its first item, and those after the separator.
  values_items :
      (text : List ℕ)
      → values (items_from b';' [] text)
        ≡ item_value (split_first b';' text).0
          ++ values (later_items b';' (split_first b';' text).1)
  unfolding values
  values_items text = ap values (items_from-split_first b';' [] text)

  take_full : (parsed more : List (Vec3 fl)) → length parsed ≡ 8 → take 8 (parsed ++ more) ≡ parsed
  take_full parsed more h =
      take-append_le 8 parsed more (omega arith) ∙ take-all 8 parsed (omega arith)

  parse_items-take :
      (fuel : ℕ) (text : List ℕ) (parsed : List (Vec3 fl))
      → length text ≤ fuel
      → length parsed ≤ 8
      → parse_items fl fuel text parsed ≡ take 8 (parsed ++ values (items_from b';' [] text))
  parse_items-take fuel [] parsed h room =
      parse_items_nil fuel parsed
      ∙ rw (values_nil, append-nil parsed) (sym (take-all 8 parsed room))
  parse_items-take zero (c ∷ cs) parsed h room = absurd (omega arith)
  parse_items-take (suc fuel) (c ∷ cs) parsed h room = elim (dec_lt (length parsed) 8) [
    | no full ↦
        let eight : length parsed ≡ 8 = omega arith in
        parse_items_full (suc fuel) (c ∷ cs) parsed eight ∙ sym (take_full parsed _ eight)
    | yes more ↦
        let text = c ∷ cs in
        let item = (split_first b';' text).0 in
        let grown = length-append parsed (item_value item) in
        let one = length-item_value item in
        let shorter = split_first-IsShorter b';' text in
        rw (parse_items_round fuel c cs parsed more, values_items text)
          (elim (Option-cases (split_first b';' text).1) [
            | inl last ↦ rw last (
                push_item_lem item parsed
                ∙ (unfold values in
                    rw (append-nil (item_value item))
                      (sym (take-all 8 (parsed ++ item_value item) (omega (arith, grown, one))))))
            | inr (after, e) ↦ rw e (
                rw (push_item_lem item parsed) (
                  parse_items-take fuel after (parsed ++ item_value item)
                    (omega (arith, rw e at shorter)) (omega (arith, grown, one, more))
                  ∙ ap (take 8)
                      (append_assoc parsed (item_value item) (values (items_from b';' [] after)))))
          ])
  ]

  -- The variable gives the vectors of its items, which are divided by semicolons, in order; items
  -- that are no vector are passed over, and the first eight vectors count.
  pub parse_vectors-take :
      (text : List ℕ) → parse_vectors fl text ≡ take max_waypoints (values (items b';' text))
  unfolding parse_vectors items
  parse_vectors-take text = parse_items-take (length text) text [] (omega arith) (omega arith)
