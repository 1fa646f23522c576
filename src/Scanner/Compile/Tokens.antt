-- ===== src/Scanner/Compile/Tokens.antt =====
-- The token loop of compile_pattern against a division of the text into words, for
-- native/dwrt-host/dwrt_signature_scanner.cpp.
use dwrt.Prelude.{
  ℕ, zero, suc, ◌≤◌, ◌<◌, ◌≡◌, refl, sym, ap, ◌∙◌, false, inl, inr, List, [], ◌∷◌, ◌++◌, append-nil,
  append_assoc, arith, if◌then◌else◌, length, List-cases, Bool-cases, Result-cases, Result, ok, err,
  ◌>>=◌,
}
use dwrt.Scanner.Compile.{
  PatternByte, CompiledPattern, is_space, skip_space, take_token, compile_token, compile_from,
  refuse_empty, compile_pattern,
}

abbrev flush : List ℕ → List (List ℕ) → List (List ℕ)
flush [] ts = ts
flush (c ∷ cs) ts = (c ∷ cs) ∷ ts

-- The words of a text, after the letters `word` of the one that is being read.
unfoldable pub tokens_from : List ℕ → List ℕ → List (List ℕ)
tokens_from word [] = flush word []
tokens_from word (c ∷ cs) =
    if is_space c then flush word (tokens_from [] cs) else tokens_from (word ++ (c ∷ [])) cs

-- The words of a text: its longest parts without white space, in order.
unfoldable pub tokens : List ℕ → List (List ℕ)
unfolding tokens_from
tokens text = tokens_from [] text

-- Every word compiled, or the error of the first that cannot be.
unfoldable pub compile_tokens : List (List ℕ) → Result CompiledPattern
compile_tokens [] = ok []
compile_tokens (t ∷ ts) = do b ← compile_token t; bs ← compile_tokens ts; ok (b ∷ bs)

tokens_from-skip_space : (text : List ℕ) → tokens_from [] (skip_space text) ≡ tokens_from [] text
unfolding tokens_from skip_space
tokens_from-skip_space [] = refl
tokens_from-skip_space (c ∷ cs) = ground (arith, tokens_from-skip_space cs)

skip_space_head :
    (text : List ℕ) (c : ℕ) (cs : List ℕ)
    → skip_space text ≡ c ∷ cs
    → (is_space c ≡ false) × (length (c ∷ cs) ≤ length text)
unfolding skip_space
skip_space_head [] c cs e = cc
skip_space_head (x ∷ xs) c cs e = ground (arith, skip_space_head xs c cs)

tokens_from-take_token :
    (word text : List ℕ)
    → tokens_from word text
      ≡ flush (word ++ (take_token text).0) (tokens_from [] (take_token text).1)
unfolding tokens_from take_token
tokens_from-take_token word [] = rw (append-nil word)
tokens_from-take_token word (c ∷ cs) = elim (Bool-cases (is_space c)) [
  | inl h ↦ rw (h, append-nil word) (rw h)
  | inr h ↦ rw h (tokens_from-take_token (word ++ (c ∷ [])) cs ∙ rw append_assoc refl)
]

length-take_token : (text : List ℕ) → length (take_token text).1 ≤ length text
unfolding take_token
length-take_token [] = omega arith
length-take_token (c ∷ cs) = ground (arith, length-take_token cs)

-- A text that starts with a letter: its first word, and less text after it.
take_token_head :
    (c : ℕ) (cs : List ℕ)
    → is_space c ≡ false
    → (take_token (c ∷ cs) ≡ (c ∷ (take_token cs).0, (take_token cs).1))
      × (length (take_token cs).1 ≤ length cs)
unfolding take_token
take_token_head c cs h = (rw h, length-take_token cs)

tokens_from_blank : (text : List ℕ) → skip_space text ≡ [] → tokens_from [] text ≡ []
unfolding tokens_from
tokens_from_blank text e = sym (tokens_from-skip_space text) ∙ rw e refl

-- A text with a word: that word, and the words of the text that follows it.
tokens_from_word :
    (text : List ℕ) (c : ℕ) (cs : List ℕ)
    → skip_space text ≡ c ∷ cs
    → let (token, rest) = take_token (c ∷ cs) in
      (tokens_from [] text ≡ token ∷ tokens_from [] rest) × (length rest < length text)
unfolding take_token
tokens_from_word text c cs e =
    let (letter, shorter) = skip_space_head text c cs e in
    let words : tokens_from [] text
        ≡ flush (take_token (c ∷ cs)).0 (tokens_from [] (take_token (c ∷ cs)).1) =
      sym (tokens_from-skip_space text) ∙ rw e (tokens_from-take_token [] (c ∷ cs)) in
    rw letter (rw letter at words, omega (arith, length-take_token cs, shorter))

abbrev prepend : CompiledPattern → Result CompiledPattern → Result CompiledPattern
prepend done r = r >>= λ bs. ok (done ++ bs)

-- One round of the loop, at a text whose next word is known.
compile_from_word :
    (fuel : ℕ) (text : List ℕ) (bytes : CompiledPattern) (c : ℕ) (cs : List ℕ)
    → skip_space text ≡ c ∷ cs
    → compile_from (suc fuel) text bytes ≡ (elim (compile_token (take_token (c ∷ cs)).0) [
      | err e ↦ err e
      | ok b ↦ compile_from fuel (take_token (c ∷ cs)).1 (bytes ++ (b ∷ []))
    ])
unfolding compile_from
compile_from_word fuel text bytes c cs e = rw (e, compile_from)

compile_from_blank :
    (fuel : ℕ) (text : List ℕ) (bytes : CompiledPattern)
    → skip_space text ≡ []
    → compile_from (suc fuel) text bytes ≡ ok bytes
unfolding compile_from
compile_from_blank fuel text bytes e = rw (e, compile_from)

prepend_snoc :
    (bytes : CompiledPattern) (b : PatternByte) (r : Result CompiledPattern)
    → prepend (bytes ++ (b ∷ [])) r ≡ prepend bytes (r >>= λ bs. ok (b ∷ bs))
prepend_snoc bytes b (ok bs) = ap ok (append_assoc bytes (b ∷ []) bs)
prepend_snoc bytes b (err e) = refl

prepend_nil : (r : Result CompiledPattern) → prepend [] r ≡ r
prepend_nil (ok bs) = refl
prepend_nil (err e) = refl

compile_from-tokens :
    (fuel : ℕ) (text : List ℕ) (bytes : CompiledPattern)
    → length text < fuel
    → compile_from fuel text bytes ≡ prepend bytes (compile_tokens (tokens_from [] text))
unfolding compile_tokens
compile_from-tokens zero text bytes h = absurd (omega arith)
compile_from-tokens (suc fuel) text bytes h = elim (List-cases (skip_space text)) [
  | inl e ↦ rw (compile_from_blank fuel text bytes e, tokens_from_blank text e, append-nil bytes)
  | inr (c, cs, e) ↦
      let token = (take_token (c ∷ cs)).0 in
      let rest = (take_token (c ∷ cs)).1 in
      let (words, shorter) = tokens_from_word text c cs e in
      let later = λ (b : PatternByte).
        compile_from-tokens fuel rest (bytes ++ (b ∷ [])) (omega (arith, shorter)) in
      rw (words, compile_from_word fuel text bytes c cs e)
        (elim (Result-cases (compile_token token)) [
          | inl (b, e') ↦
              rw e' (later b ∙ prepend_snoc bytes b (compile_tokens (tokens_from [] rest)))
          | inr (m, e') ↦ rw e' refl
        ])
]

-- The loop compiles the words of the text in order, whatever white space divides them; its fuel
-- is always enough.
pub compile_pattern-tokens :
    (text : List ℕ) → compile_pattern text ≡ refuse_empty (compile_tokens (tokens text))
unfolding compile_pattern tokens
compile_pattern-tokens text =
    rw (compile_from-tokens (suc (length text)) text [] (omega arith), prepend_nil)
