-- ===== src/Scanner/Compile/RoundTrip.antt =====
-- compile_pattern reads back what a signature is written as, for
-- native/dwrt-host/dwrt_signature_scanner.cpp.
use dwrt.Prelude.{
  ℕ, ◌+◌, ◌-◌, ◌/◌, ◌%◌, ◌<◌, ◌≡◌, refl, ap, ◌∙◌, inl, inr, ◌≢◌, true, false, List, [], ◌∷◌, ◌++◌,
  arith, ltb, if◌then◌else◌, All, some, map, ok, Bool-cases, ne→==,
}
use dwrt.Scanner.Compile.{
  PatternByte, CompiledPattern, is_space, is_hex_digit, nibble, parse_hex_byte, is_wildcard_token,
  compile_token, literal_byte, wildcard_byte, refuse_empty, compile_pattern,
}
use dwrt.Scanner.Compile.Tokens.{tokens_from, tokens, compile_tokens, compile_pattern-tokens}

-- An upper case hexadecimal digit.
unfoldable pub hex_char : ℕ → ℕ
hex_char n = if ltb n 10 then b'0' + n else b'A' + n - 10

-- "??", or the two digits of a byte.
unfoldable pub render_byte : PatternByte → List ℕ
render_byte b =
    if b.wildcard then b'?' ∷ b'?' ∷ [] else hex_char (b.value / 16) ∷ hex_char (b.value % 16) ∷ []

-- A pattern as the manifest writes it, with a space after each byte.
unfoldable pub render : CompiledPattern → List ℕ
render [] = []
render (b ∷ bs) = render_byte b ++ (32 ∷ render bs)

-- A test that compile_pattern can produce: a byte, or the one wildcard.
abbrev pub IsCompiled : PatternByte → Type 0
IsCompiled b = (b.value < 256) × (b.wildcard ≡ true → b.value ≡ 0)

nibble-hex_char : (n : ℕ) → n < 16 → nibble (hex_char n) ≡ n
unfolding nibble hex_char
nibble-hex_char n h = ground arith

is_hex_digit-hex_char : (n : ℕ) → n < 16 → is_hex_digit (hex_char n) ≡ true
unfolding is_hex_digit hex_char
is_hex_digit-hex_char n h = ground arith

hex_char_bounds : (n : ℕ) → n < 16 → (47 < hex_char n) × (hex_char n ≢ b'?')
unfolding hex_char
hex_char_bounds n h = (ground arith, λ e. ground arith)

is_space_of_lt : (c : ℕ) → 32 < c → is_space c ≡ false
unfolding is_space
is_space_of_lt c h = ground arith

abbrev digits_of : ℕ → List ℕ
digits_of v = hex_char (v / 16) ∷ hex_char (v % 16) ∷ []

parse_hex_byte-digits : (v : ℕ) → v < 256 → parse_hex_byte (digits_of v) ≡ some v
unfolding parse_hex_byte
parse_hex_byte-digits v h =
    rw
      (
        is_hex_digit-hex_char (v / 16) (omega arith),
        is_hex_digit-hex_char (v % 16) (omega arith),
        nibble-hex_char (v / 16) (omega arith),
        nibble-hex_char (v % 16) (omega arith),
      )
      (ap some (omega arith))

compile_token-digits : (v : ℕ) → v < 256 → compile_token (digits_of v) ≡ ok (literal_byte v)
unfolding compile_token is_wildcard_token
compile_token-digits v h =
    rw (ne→== _ _ (hex_char_bounds (v / 16) (omega arith)).1, parse_hex_byte-digits v h)

literal_byte-value : (b : PatternByte) → b.wildcard ≡ false → literal_byte b.value ≡ b
literal_byte-value b e = ground arith

wildcard_byte_of : (b : PatternByte) → IsCompiled b → b.wildcard ≡ true → wildcard_byte ≡ b
wildcard_byte_of b v e = ground arith

render_byte_wild : (b : PatternByte) → b.wildcard ≡ true → render_byte b ≡ b'?' ∷ b'?' ∷ []
unfolding render_byte
render_byte_wild b e = rw e

render_byte_literal : (b : PatternByte) → b.wildcard ≡ false → render_byte b ≡ digits_of b.value
unfolding render_byte
render_byte_literal b e = rw e

compile_token-wild : compile_token (b'?' ∷ b'?' ∷ []) ≡ ok wildcard_byte
unfolding compile_token
compile_token-wild = refl

compile_token-render_byte : (b : PatternByte) → IsCompiled b → compile_token (render_byte b) ≡ ok b
compile_token-render_byte b v = elim (Bool-cases b.wildcard) [
  | inl e ↦
      ap compile_token (render_byte_wild b e) ∙ compile_token-wild ∙ ap ok (wildcard_byte_of b v e)
  | inr e ↦
      ap compile_token (render_byte_literal b e)
      ∙ compile_token-digits b.value v.0
      ∙ ap ok (literal_byte-value b e)
]

-- A word of two letters, and white space after it.
tokens_from_two :
    (a b : ℕ) (rest : List ℕ)
    → 32 < a
    → 32 < b
    → tokens_from [] (a ∷ b ∷ 32 ∷ rest) ≡ (a ∷ b ∷ []) ∷ tokens_from [] rest
unfolding tokens_from is_space
tokens_from_two a b rest ha hb = rw (is_space_of_lt a ha, is_space_of_lt b hb) refl

tokens_from-render_byte :
    (b : PatternByte) (rest : List ℕ)
    → IsCompiled b
    → tokens_from [] (render_byte b ++ (32 ∷ rest)) ≡ render_byte b ∷ tokens_from [] rest
tokens_from-render_byte b rest v = elim (Bool-cases b.wildcard) [
  | inl e ↦ rw (render_byte_wild b e) (tokens_from_two b'?' b'?' rest (omega arith) (omega arith))
  | inr e ↦ rw (render_byte_literal b e) (
      tokens_from_two (hex_char (b.value / 16)) (hex_char (b.value % 16)) rest
        (omega (arith, (hex_char_bounds (b.value / 16) (omega arith)).0))
        (omega (arith, (hex_char_bounds (b.value % 16) (omega arith)).0)))
]

tokens-render :
    (p : CompiledPattern) → All IsCompiled p → tokens_from [] (render p) ≡ map render_byte p
unfolding render
tokens-render [] v = unfold tokens_from in refl
tokens-render (b ∷ bs) v =
    tokens_from-render_byte b (render bs) v.0 ∙ ap (λ ts. render_byte b ∷ ts) (tokens-render bs v.1)

compile_tokens-render :
    (p : CompiledPattern) → All IsCompiled p → compile_tokens (map render_byte p) ≡ ok p
unfolding compile_tokens
compile_tokens-render [] v = refl
compile_tokens-render (b ∷ bs) v =
    rw (compile_token-render_byte b v.0, compile_tokens-render bs v.1)

-- What compile_pattern reads from a written pattern is that pattern.
pub compile_pattern-render :
    (b : PatternByte) (bs : CompiledPattern)
    → All IsCompiled (b ∷ bs)
    → compile_pattern (render (b ∷ bs)) ≡ ok (b ∷ bs)
unfolding refuse_empty tokens
compile_pattern-render b bs v =
    compile_pattern-tokens (render (b ∷ bs))
    ∙ ap refuse_empty
        (ap compile_tokens (tokens-render (b ∷ bs) v) ∙ compile_tokens-render (b ∷ bs) v)
