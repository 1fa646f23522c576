-- ===== src/Scanner/Text.antt =====
-- fnv1a64 and json_escape of native/dwrt-host/dwrt_signature_scanner.cpp.
use Prim.Native.Nat.{bit_xor}
use dwrt.Prelude.{
  u64, ℕ, ◌+◌, ◌-◌, ◌*◌, ◌/◌, ◌%◌, ◌<◌, ◌≡◌, refl, ◌∙◌, ap, Bool, true, not, ◌&&◌, ◌||◌, Option,
  none, some, List, [], ◌∷◌, ◌++◌, ltb, leb, ◌==◌, if◌then◌else◌, arith, Bool-cases, ==→eq, ==→ne,
  ne→==, ◌≢◌, inl, inr,
}

unfoldable pub fnv_from : (hash : ℕ) (bytes : List ℕ) → ℕ
fnv_from hash [] = hash
fnv_from hash (byte ∷ bytes) = fnv_from (u64 (bit_xor hash byte * 1099511628211)) bytes

unfoldable pub fnv1a64 : List ℕ → ℕ
fnv1a64 bytes = fnv_from 14695981039346656037 bytes

-- A digit of `std::hex`.
abbrev pub hex_digit_of : ℕ → ℕ
hex_digit_of d = if ltb d 10 then 48 + d else 87 + d

-- One case of the switch.
unfoldable pub escape_char : ℕ → List ℕ
escape_char c =
    if c == 92
    then 92 ∷ 92 ∷ []
    else if c == 34
    then 92 ∷ 34 ∷ []
    else if c == 8
    then 92 ∷ b'b' ∷ []
    else if c == 12
    then 92 ∷ b'f' ∷ []
    else if c == 10
    then 92 ∷ b'n' ∷ []
    else if c == 13
    then 92 ∷ b'r' ∷ []
    else if c == 9
    then 92 ∷ b't' ∷ []
    else if ltb c 0x20
    then 92 ∷ b'u' ∷ 48 ∷ 48 ∷ hex_digit_of (c / 16) ∷ hex_digit_of (c % 16) ∷ []
    else c ∷ []

unfoldable pub json_escape : List ℕ → List ℕ
json_escape [] = []
json_escape (c ∷ cs) = escape_char c ++ json_escape cs

-- The inside of a string as RFC 8259 has it, read character by character: outside an escape, after a
-- backslash, or with digits of a `\u` to come.
pub data Mode : Type 0 where
  plain : Mode
  after_backslash : Mode
  unicode : (left value : ℕ) → Mode

abbrev pub cons_to : ℕ → Option (List ℕ) → Option (List ℕ)
cons_to c none = none
cons_to c (some cs) = some (c ∷ cs)

abbrev pub hex_value : ℕ → ℕ
hex_value c = if leb 97 c then c - 87 else if leb 65 c then c - 55 else c - 48

abbrev is_hex : ℕ → Bool
is_hex c = (leb 48 c && leb c 57) || ((leb 97 c && leb c 102) || (leb 65 c && leb c 70))

-- What stands for a character after a backslash.
abbrev escaped_value : ℕ → Option ℕ
escaped_value c =
    if c == 92 || (c == 34 || c == 47)
    then some c
    else if c == b'b'
    then some 8
    else if c == b'f'
    then some 12
    else if c == b'n'
    then some 10
    else if c == b'r'
    then some 13
    else if c == b't'
    then some 9
    else none

abbrev put_escaped : Option ℕ → Option (List ℕ) → Option (List ℕ)
put_escaped none rest = none
put_escaped (some c) rest = cons_to c rest

unfoldable pub read_string : Mode → List ℕ → Option (List ℕ)
read_string plain [] = some []
read_string after_backslash [] = none
read_string (unicode left value) [] = none
read_string plain (c ∷ cs) =
    let escape = read_string after_backslash cs in
    let rest = read_string plain cs in
    if c == 92 then escape else if c == 34 || ltb c 0x20 then none else cons_to c rest
read_string after_backslash (c ∷ cs) =
    let rest = read_string plain cs in
    let digits = read_string (unicode 4 0) cs in
    if c == b'u' then digits else put_escaped (escaped_value c) rest
read_string (unicode left value) (c ∷ cs) =
    let v = value * 16 + hex_value c in
    let rest = read_string plain cs in
    let digits = read_string (unicode (left - 1) v) cs in
    if not (is_hex c) then none else if left == 1 then cons_to v rest else digits

-- A digit that `std::hex` writes is read as what it was.
hex_digit_read :
    (d : ℕ) → d < 16 → (is_hex (hex_digit_of d) ≡ true) × (hex_value (hex_digit_of d) ≡ d)
hex_digit_read d h = ground arith

read_string-digit :
    (left value d : ℕ) (cs : List ℕ)
    → d < 16
    → read_string (unicode left value) (hex_digit_of d ∷ cs) ≡ (
        if left == 1
        then cons_to (value * 16 + d) (read_string plain cs)
        else read_string (unicode (left - 1) (value * 16 + d)) cs)
unfolding read_string
read_string-digit left value d cs h = let r = hex_digit_read d h in rw (r.0, r.1) refl

read_string-control :
    (c : ℕ) (cs : List ℕ)
    → c < 0x20
    → read_string (unicode 4 0) (48 ∷ 48 ∷ hex_digit_of (c / 16) ∷ hex_digit_of (c % 16) ∷ cs)
      ≡ cons_to c (read_string plain cs)
read_string-control c cs h =
    read_string-digit 4 0 0 _ (omega arith)
    ∙ read_string-digit 3 0 0 _ (omega arith)
    ∙ read_string-digit 2 0 (c / 16) _ (omega arith)
    ∙ read_string-digit 1 (0 * 16 + c / 16) (c % 16) cs (omega arith)
    ∙ ap (λ v. cons_to v (read_string plain cs)) (omega arith)

-- The two cases of `default`.
read_string-default :
    (c : ℕ) (cs : List ℕ)
    → c ≢ 92
    → c ≢ 34
    → read_string plain (
        (if ltb c 0x20
          then 92 ∷ b'u' ∷ 48 ∷ 48 ∷ hex_digit_of (c / 16) ∷ hex_digit_of (c % 16) ∷ []
          else c ∷ [])
        ++ cs)
      ≡ cons_to c (read_string plain cs)
unfolding read_string
read_string-default c cs a b = elim (Bool-cases (ltb c 0x20)) [
  | inl y ↦ rw y (read_string-control c cs (ground (arith, y)))
  | inr n ↦ rw n (rw (ne→== c 92 a, ne→== c 34 b, n) refl)
]

-- A character that the switch names.
abbrev Escapes : ℕ → Type 0
Escapes c =
    (cs : List ℕ) → read_string plain (escape_char c ++ cs) ≡ cons_to c (read_string plain cs)

read_string-escape : (c : ℕ) → Escapes c
unfolding read_string escape_char
read_string-escape c cs = elim (Bool-cases (c == 92)) [
  | inl y ↦ rw (==→eq c 92 y) refl
  | inr n92 ↦ rw n92 (elim (Bool-cases (c == 34)) [
    | inl y ↦ rw (==→eq c 34 y) refl
    | inr n34 ↦ rw n34 (elim (Bool-cases (c == 8)) [
      | inl y ↦ rw (==→eq c 8 y) refl
      | inr n ↦ rw n (elim (Bool-cases (c == 12)) [
        | inl y ↦ rw (==→eq c 12 y) refl
        | inr n ↦ rw n (elim (Bool-cases (c == 10)) [
          | inl y ↦ rw (==→eq c 10 y) refl
          | inr n ↦ rw n (elim (Bool-cases (c == 13)) [
            | inl y ↦ rw (==→eq c 13 y) refl
            | inr n ↦ rw n (elim (Bool-cases (c == 9)) [
              | inl y ↦ rw (==→eq c 9 y) refl
              | inr n ↦ rw n (read_string-default c cs (==→ne c 92 n92) (==→ne c 34 n34))
            ])
          ])
        ])
      ])
    ])
  ])
]

-- What json_escape writes is the inside of a JSON string, without a quote or a control character that is not
-- escaped, and a JSON reader gets the text back from it.
pub read_string-json_escape : (value : List ℕ) → read_string plain (json_escape value) ≡ some value
unfolding json_escape
read_string-json_escape [] = unfold read_string in refl
read_string-json_escape (c ∷ cs) =
    read_string-escape c (json_escape cs) ∙ ap (cons_to c) (read_string-json_escape cs)
