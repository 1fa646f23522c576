-- ===== src/Walker/Floats.antt =====
-- The `float` arithmetic that native/dwrt-host/dwrt_walker_patrol.cpp uses, as a parameter.
use dwrt.Prelude.{ℕ, Bool, Option, List, Memory}

pub record FloatApi : Type 1 where
  pub Float : Type 0
  -- The value of a whole number, and its negative.
  pub whole : ℕ → Float
  pub minus_whole : ℕ → Float
  pub add : Float → Float → Float
  -- `std::isfinite(x)` and `std::abs(x) < 1000000.0f`
  pub is_finite : Float → Bool
  pub is_below_million : Float → Bool
  -- `std::from_chars`: the value, and the text from `result.ptr` on.
  pub from_chars : List ℕ → Option (Float × List ℕ)
  -- The float that is stored at an address.
  pub load_float : Memory → ℕ → Float
