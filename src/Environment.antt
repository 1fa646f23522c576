-- ===== src/Environment.antt =====
-- The readers of environment variables in native/dwrt-host/dwrt_friendly_fire.cpp and
-- dwrt_walker_patrol.cpp. The operating system's call is the parameter `get`.
use dwrt.Prelude.{
  ℕ, ◌+◌, ◌-◌, ◌*◌, Bool, false, ◌&&◌, ◌||◌, Option, none, some, List, [], ◌∷◌, leb, ltb, ◌==◌,
  if◌then◌else◌, get_or, min, take, u32, u32_max,
}
use mathlib.Core.Option
use dwrt.Scanner.Compile.{skip_space}

-- `GetEnvironmentVariable(name, buffer, size)`: the length that it returns, and the buffer after it.
abbrev pub GetVariable : Type 0
GetVariable = List ℕ → ℕ → ℕ × List ℕ

-- The buffer, if the call's length is neither 0 nor the size of the buffer or more.
unfoldable pub read_variable : GetVariable → List ℕ → ℕ → Option (List ℕ)
read_variable get name size =
    if (get name size).0 == 0 || leb size (get name size).0 then none else some (get name size).1

-- `buffer[0]` is one of the letters for yes.
unfoldable pub is_yes : List ℕ → Bool
is_yes buffer =
    let c = get_or buffer 0 0 in c == b'1' || (c == b't' || (c == b'T' || (c == b'y' || c == b'Y')))

unfoldable pub env_flag_enabled : GetVariable → List ℕ → Bool
env_flag_enabled get name = elim (read_variable get name 32) [
  | none ↦ false
  | some buffer ↦ is_yes buffer
]

abbrev is_digit : ℕ → Bool
is_digit c = leb b'0' c && leb c b'9'

-- The digits at the start of a text, read as a decimal number, after `value` for those before.
unfoldable pub decimal_from : ℕ → List ℕ → ℕ
decimal_from value [] = value
decimal_from value (c ∷ cs) =
    if is_digit c then decimal_from (value * 10 + (c - b'0')) cs else value

-- The number at the start of a text without sign; no digit is no conversion.
unfoldable pub unsigned_decimal : List ℕ → Option ℕ
unsigned_decimal [] = none
unsigned_decimal (c ∷ cs) = if is_digit c then some (decimal_from 0 (c ∷ cs)) else none

-- A number that does not fit `unsigned long` saturates.
unfoldable pub saturate : Option ℕ → Option ℕ
saturate none = none
saturate (some v) = some (min u32_max v)

-- A minus sign negates in `unsigned long`, but for a number that does not fit.
unfoldable pub negate : Option ℕ → Option ℕ
negate none = none
negate (some v) = some (if ltb u32_max v then u32_max else u32 (u32_max + 1 - v))

unfoldable pub signed_decimal : List ℕ → Option ℕ
signed_decimal [] = none
signed_decimal (c ∷ cs) =
    if c == b'-'
    then negate (unsigned_decimal cs)
    else if c == b'+'
    then saturate (unsigned_decimal cs)
    else saturate (unsigned_decimal (c ∷ cs))

-- `std::wcstoul(buffer, &end, 10)`; `none` is `end == buffer`.
unfoldable pub parse_ulong : List ℕ → Option ℕ
parse_ulong buffer = signed_decimal (skip_space buffer)

-- The value that a variable holds, if it is a number up to `limit`.
unfoldable pub bounded_value : ℕ → ℕ → Option (List ℕ) → ℕ
bounded_value limit fallback none = fallback
bounded_value limit fallback (some buffer) = elim (parse_ulong buffer) [
  | none ↦ fallback
  | some value ↦ if ltb limit value then fallback else value
]

-- `std::string_view(buffer, length)`
unfoldable pub read_text : GetVariable → List ℕ → ℕ → Option (List ℕ)
read_text get name size = Option.map (take (get name size).0) (read_variable get name size)
