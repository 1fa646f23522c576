-- ===== src/Scanner/Compile.antt =====
-- compile_pattern and its helpers of native/dwrt-host/dwrt_signature_scanner.cpp: the text of a
-- signature becomes a list of byte tests. A text is the list of its bytes.
pub mod Tokens
pub mod RoundTrip
use dwrt.Prelude.{
  ℕ, zero, suc, ◌+◌, ◌-◌, ◌*◌, Bool, true, false, ◌&&◌, ◌||◌, Option, none, some, List, [], ◌∷◌,
  ◌++◌, leb, ◌==◌, if◌then◌else◌, length, u8, codes, Result, ok, err,
}

-- `PatternByte`
pub record PatternByte : Type 0 where
  pub value : ℕ
  pub wildcard : Bool

-- `CompiledPattern`, by its one field
abbrev pub CompiledPattern : Type 0
CompiledPattern = List PatternByte

-- `std::isspace` in the C locale
unfoldable pub is_space : ℕ → Bool
is_space c = (leb 9 c && leb c 13) || c == 32

-- `std::isxdigit` in the C locale
unfoldable pub is_hex_digit : ℕ → Bool
is_hex_digit c =
    (leb b'0' c && leb c b'9') || (leb b'a' c && leb c b'f') || (leb b'A' c && leb c b'F')

-- The lambda `nibble`. Each `-` has its test before it, but the last: see `parse_hex_byte`.
unfoldable pub nibble : ℕ → ℕ
nibble c =
    if leb b'0' c && leb c b'9'
    then c - b'0'
    else if leb b'a' c && leb c b'f'
    then 10 + c - b'a'
    else 10 + c - b'A'

-- `nibble` is called on hexadecimal digits only; the two halves do not overlap, so `|` adds.
unfoldable pub parse_hex_byte : List ℕ → Option ℕ
unfolding is_hex_digit nibble
parse_hex_byte (a ∷ b ∷ []) =
    if is_hex_digit a && is_hex_digit b then some (u8 (nibble a * 16 + nibble b)) else none
parse_hex_byte _ = none

-- The loop that advances `pos` over white space; the list is the text from `pos` on.
unfoldable pub skip_space : List ℕ → List ℕ
skip_space [] = []
skip_space (c ∷ cs) = if is_space c then skip_space cs else c ∷ cs

-- The loop that advances `pos` over a token: the token, and the text from the new `pos` on.
unfoldable pub take_token : List ℕ → List ℕ × List ℕ
take_token [] = ([], [])
take_token (c ∷ cs) =
    let (token, rest) = take_token cs in if is_space c then ([], c ∷ cs) else (c ∷ token, rest)

abbrev pub wildcard_byte : PatternByte
wildcard_byte = record { value = 0; wildcard = true }

abbrev pub literal_byte : ℕ → PatternByte
literal_byte v = record { value = v; wildcard = false }

-- `token == "?" || token == "??"`
unfoldable pub is_wildcard_token : List ℕ → Bool
is_wildcard_token (a ∷ []) = a == b'?'
is_wildcard_token (a ∷ b ∷ []) = a == b'?' && b == b'?'
is_wildcard_token _ = false

abbrev pub invalid_token_error : List ℕ → List ℕ
invalid_token_error token = codes "invalid signature token: " ++ token

abbrev pub empty_pattern_error : List ℕ
empty_pattern_error = codes "empty signature pattern"

-- What one token adds to the pattern.
unfoldable pub compile_token : List ℕ → Result PatternByte
unfolding is_wildcard_token parse_hex_byte
compile_token token =
    if is_wildcard_token token then ok wildcard_byte else elim (parse_hex_byte token) [
      | none ↦ err (invalid_token_error token)
      | some v ↦ ok (literal_byte v)
    ]

-- The outer loop, on fuel. `err []` marks that the fuel ran out; no error of the source is empty.
unfoldable pub compile_from : ℕ → List ℕ → CompiledPattern → Result CompiledPattern
compile_from zero text bytes = err []
compile_from (suc fuel) text bytes = elim (skip_space text) [
  | [] ↦ ok bytes
  | c ∷ cs ↦
      let (token, rest) = take_token (c ∷ cs) in
      elim (compile_token token) [
        | err e ↦ err e
        | ok b ↦ compile_from fuel rest (bytes ++ (b ∷ []))
      ]
]

-- The check after the loop.
unfoldable pub refuse_empty : Result CompiledPattern → Result CompiledPattern
refuse_empty (err e) = err e
refuse_empty (ok []) = err empty_pattern_error
refuse_empty (ok (b ∷ bs)) = ok (b ∷ bs)

-- One round takes at least one byte of the text, so its length and one more is fuel enough.
unfoldable pub compile_pattern : List ℕ → Result CompiledPattern
unfolding refuse_empty
compile_pattern text = refuse_empty (compile_from (suc (length text)) text [])
