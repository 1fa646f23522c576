-- ===== src/Prelude/Division.antt =====
-- Quotients of neighbouring numbers.
use Prim.Native.Nat.{ℕ, ◌+◌, ◌*◌, ◌/◌, ◌%◌, ◌≤◌, ◌<◌}
use mathlib.Core.Path.{◌≡◌, sym, ap, ◌∙◌}
use mathlib.Core.Logic.{inl, inr, ◌⊎◌, ◌≢◌}
use native.Mathlib.Omega.{arith}
use native.Mathlib.Decide.{dec_lt}
use native.Mathlib.Nat.{
  mod-lt, div-add-mod, mul-add-div, mul-add-mod_self_left, div-eq_of_lt, mod-eq_of_lt, div_self,
  mod_self, div-mul-le_self, le-div_iff_mul-le,
}

-- The next number is a multiple and has the next quotient, or has the same quotient.
pub next_quotient :
    (n d : ℕ)
    → 0 < d
    → ((n + 1) % d ≡ 0) × ((n + 1) / d ≡ n / d + 1) ⊎ ((n + 1) % d ≢ 0) × ((n + 1) / d ≡ n / d)
next_quotient n d h =
    let split : n + 1 ≡ d * (n / d) + (n % d + 1) = omega (arith, div-add-mod n d) in
    let small = mod-lt n h in
    elim (dec_lt (n % d + 1) d) [
      | yes more ↦ inr (
        λ e. absurd (
            omega (
              arith,
              sym (mod-eq_of_lt more)
                  ∙ sym (mul-add-mod_self_left d (n / d) (n % d + 1))
                  ∙ ap (λ k. k % d) (sym split)
                  ∙ e,
            )),
        ap (λ k. k / d) split
            ∙ mul-add-div h (n / d) (n % d + 1)
            ∙ ap (λ k. n / d + k) (div-eq_of_lt more)
            ∙ omega arith,
      )
      | no less ↦
          let last : n % d + 1 ≡ d = omega arith in
          inl (
            ap (λ k. k % d) split
                ∙ mul-add-mod_self_left d (n / d) (n % d + 1)
                ∙ ap (λ k. k % d) last
                ∙ mod_self d,
            ap (λ k. k / d) split
                ∙ mul-add-div h (n / d) (n % d + 1)
                ∙ ap (λ k. n / d + k / d) last
                ∙ ap (λ k. n / d + k) (div_self h),
          )
    ]

-- Division keeps the order.
pub div_mono : (a b d : ℕ) → 0 < d → a ≤ b → a / d ≤ b / d
div_mono a b d h l = (le-div_iff_mul-le h).1 (omega (arith, div-mul-le_self a d))
