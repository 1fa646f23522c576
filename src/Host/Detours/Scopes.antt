-- ===== src/Host/Detours/Scopes.antt =====
-- Scopes of native/dwrt-host/dwrt_host_testpoints.cpp that nest up to a bound.
use dwrt.Prelude.{ℕ, ◌≤◌, ◌≡◌, refl, sym, ap, ◌∙◌, suc, max, arith}
use dwrt.Testpoints.{Testpoints, enter_callback, leave_callback}
use dwrt.Testpoints.Nesting.{Callbacks, finished, callback, run_callbacks, height}
use dwrt.Host.Detours.{}
use dwrt.Host.Detours.Nested.{}

-- The testpoints after callbacks that nest at most `n` deep.
pub data Nests (n : ℕ) (t u : Testpoints) : Type 0 where
  nests : (c : Callbacks) → height c ≤ n → u ≡ run_callbacks t c → Nests n t u

abbrev pub append : Callbacks → Callbacks → Callbacks
append finished d = d
append (callback p inner next) d = callback p inner (append next d)

run_callbacks-append :
    (t : Testpoints) (c d : Callbacks)
    → run_callbacks t (append c d) ≡ run_callbacks (run_callbacks t c) d
unfolding run_callbacks
run_callbacks-append t finished d = refl
run_callbacks-append t (callback p inner next) d =
    run_callbacks-append (leave_callback (run_callbacks (enter_callback t p).0 inner)) next d

height-append : (c d : Callbacks) → height (append c d) ≤ max (height c) (height d)
height-append finished d = omega arith
height-append (callback p inner next) d = omega (arith, height-append next d)

pub Nests-none : (n : ℕ) (t : Testpoints) → Nests n t t
unfolding run_callbacks
Nests-none n t = nests finished (omega arith) refl

pub Nests-then : (n : ℕ) (t u v : Testpoints) → Nests n t u → Nests n u v → Nests n t v
Nests-then n t u v (nests c hc ec) (nests d hd ed) =
    nests (append c d) (omega (arith, height-append c d))
      (ed ∙ ap (λ s. run_callbacks s d) ec ∙ sym (run_callbacks-append t c d))

pub Nests-scope :
    (n p : ℕ) (t u : Testpoints)
    → Nests n (enter_callback t p).0 u
    → Nests (suc n) t (leave_callback u)
unfolding run_callbacks
Nests-scope n p t u (nests c h e) =
    nests (callback p c finished) (omega arith) (ap leave_callback e)

pub Nests-from : (n : ℕ) (t s u : Testpoints) → s ≡ t → Nests n s u → Nests n t u
Nests-from n t s u e h = rw e at h

pub Nests-to : (n : ℕ) (t u v : Testpoints) → v ≡ u → Nests n t u → Nests n t v
Nests-to n t u v e h = rw (sym e) at h

pub Nests-more : (n m : ℕ) (t u : Testpoints) → n ≤ m → Nests n t u → Nests m t u
Nests-more n m t u le (nests c h e) = nests c (omega arith) e

pub Nests-step : (n m : ℕ) (t u v : Testpoints) → Nests n t u → Nests m u v → Nests (max n m) t v
Nests-step n m t u v a b =
    Nests-then (max n m) t u v (Nests-more n _ t u (omega arith) a)
      (Nests-more m _ u v (omega arith) b)
