-- ===== src/Prelude/Words.antt =====
-- Machine words as native numbers with their wrap-around, and the memory of the process.
use Prim.Native.Nat.{ℕ, zero, suc, ◌+◌, ◌-◌, ◌*◌, ◌%◌, ◌<◌}
use mathlib.Core.Bool.{Bool, true, false, ◌&&◌, ◌||◌}
use mathlib.Core.List.{List, [], ◌∷◌}
use Prim.Native.Char.{code}
use Prim.Native.String.{String}
use dwrt.Prelude.Tests.{if◌then◌else◌, ◌==◌, leb, ltb, Bool-cases, eq→==}
use mathlib.Core.Path.{◌≡◌, refl}
use dwrt.Prelude.Lists.{length, get_or, All}
use mathlib.Core.Logic.{inl, inr}
use native.Mathlib.Omega.{arith}

abbrev pub u8 : ℕ → ℕ
u8 n = n % 256

abbrev pub u32 : ℕ → ℕ
u32 n = n % 4294967296

abbrev pub u64 : ℕ → ℕ
u64 n = n % 18446744073709551616

abbrev pub u32_max : ℕ
u32_max = 4294967295

-- `fetch_add(1)` on a 64-bit counter.
abbrev pub inc : ℕ → ℕ
inc n = u64 (n + 1)

-- The bytes of a text literal, which are its code points where it is ASCII.
abbrev pub codes : String → List ℕ
codes String.[] = []
codes (String.◌∷◌ c s) = code c ∷ codes s

-- The readable memory of the process: the byte at each address.
abbrev pub Memory : Type 0
Memory = ℕ → ℕ

-- A one-byte store.
abbrev pub store_byte : Memory → ℕ → ℕ → Memory
store_byte m p v a = if a == p then u8 v else m a

-- `n` bytes from an address on, the lowest first.
unfoldable pub load_le : Memory → ℕ → ℕ → ℕ
load_le m a zero = 0
load_le m a (suc n) = m a + 256 * load_le m (a + 1) n

-- A pointer; 0 is the null pointer.
abbrev pub load_ptr : Memory → ℕ → ℕ
load_ptr m a = load_le m a 8

-- `std::string_view(p) == text` for a text without a zero byte: the bytes, and a zero after them.
unfoldable pub c_string_is : Memory → ℕ → List ℕ → Bool
c_string_is m p [] = m p == 0
c_string_is m p (c ∷ cs) = m p == c && c_string_is m (p + 1) cs

-- Some text of a list is the one at `p`.
unfoldable pub c_string_among : Memory → ℕ → List (List ℕ) → Bool
c_string_among m p [] = false
c_string_among m p (t ∷ ts) = c_string_is m p t || c_string_among m p ts

-- A memory that holds texts at addresses, and 0 elsewhere; for tests.
abbrev pub memory_of : List (ℕ × List ℕ) → Memory
memory_of [] a = 0
memory_of ((p, bytes) ∷ rest) a =
    if leb p a && ltb a (p + length bytes) then get_or bytes (a - p) 0 else memory_of rest a

get_or-lt : (xs : List ℕ) (i : ℕ) → All (λ x. x < 256) xs → get_or xs i 0 < 256
get_or-lt [] i h = omega arith
get_or-lt (x ∷ xs) zero h = h.0
get_or-lt (x ∷ xs) (suc i) h = get_or-lt xs i h.1

pub memory_of-lt :
    (segments : List (ℕ × List ℕ)) (a : ℕ)
    → All (λ s. All (λ x. x < 256) s.1) segments
    → memory_of segments a < 256
memory_of-lt [] a h = omega arith
memory_of-lt ((p, bytes) ∷ rest) a h = elim (Bool-cases (leb p a && ltb a (p + length bytes))) [
  | inl inside ↦ rw inside (get_or-lt bytes (a - p) h.0)
  | inr outside ↦ rw outside (memory_of-lt rest a h.1)
]

-- Equality of texts.
unfoldable pub text_eq : List ℕ → List ℕ → Bool
text_eq [] [] = true
text_eq (a ∷ xs) (b ∷ ys) = a == b && text_eq xs ys
text_eq _ _ = false

pub text_eq_self : (xs : List ℕ) → text_eq xs xs ≡ true
unfolding text_eq
text_eq_self [] = refl
text_eq_self (x ∷ xs) = rw (eq→== x x refl, text_eq_self xs)

-- Some text of a list is this one.
unfoldable pub text_among : List ℕ → List (List ℕ) → Bool
text_among text [] = false
text_among text (t ∷ ts) = text_eq text t || text_among text ts
