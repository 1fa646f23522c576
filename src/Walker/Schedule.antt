-- ===== src/Walker/Schedule.antt =====
-- native/dwrt-host/dwrt_walker_patrol.cpp: which walkers are moved, and by which vector.
use dwrt.Prelude.{
  ℕ, zero, suc, ◌+◌, ◌/◌, ◌%◌, ◌<◌, ◌≡◌, refl, sym, ap, ◌∙◌, Bool, false, inl, inr, Option, none,
  some, List, [], ◌∷◌, arith, get_or, inc, Memory, length, All, map,
}
use dwrt.Walker.Floats.{FloatApi}
use dwrt.Walker.Vectors.{Vec3, zero_vec3}
use dwrt.Walker.Patrol.{WalkerPatrolState, maybe_apply_walker_patrol_on_damage, Teleport}
use dwrt.Prelude.{next_quotient, div_mono}
use dwrt.Walker.Moves.{
  IsPatrolling, IsWalker, IsNext, IsMoved, due_vector, maybe_apply-Moved, IsMoved-IsNext,
}

module _ (fl : FloatApi) where
  -- `n` vectors from the `k`-th on, in turn.
  unfoldable pub round_robin : List (Vec3 fl) → (waypoints k n : ℕ) → List (Option (Vec3 fl))
  round_robin vectors waypoints k zero = []
  round_robin vectors waypoints k (suc n) =
      some (get_or vectors (k % waypoints) (zero_vec3 fl)) ∷ round_robin vectors waypoints (k + 1) n

  -- The call that a callback makes, before those of the later callbacks.
  unfoldable pub sent : Option (Teleport fl) → List (Teleport fl) → List (Teleport fl)
  sent none ts = ts
  sent (some t) ts = t ∷ ts

  -- The callbacks for the victims of a list, none of them recursive, and the calls that they make.
  unfoldable pub patrol :
      WalkerPatrolState fl
      → (ℕ → Bool)
      → Memory
      → List ℕ
      → WalkerPatrolState fl × List (Teleport fl)
  patrol s can_read m [] = (s, [])
  patrol s can_read m (e ∷ es) =
      let (s1, t) = maybe_apply_walker_patrol_on_damage fl s can_read m e false in
      let (s2, ts) = patrol s1 can_read m es in (s2, sent t ts)

  -- The vectors of the calls.
  abbrev velocities : List (Teleport fl) → List (Option (Vec3 fl))
  velocities ts = map (λ c. c.velocity) ts

  -- One callback, where the calls of the later ones are in turn.
  patrol_round :
      (s : WalkerPatrolState fl) (r : WalkerPatrolState fl × Option (Teleport fl))
      (ts : List (Teleport fl)) (rest n : ℕ)
      → 0 < s.stride
      → s.candidate_walkers + (rest + 1) < 18446744073709551616
      → s.candidate_walkers / s.stride + n ≡ (s.candidate_walkers + 1 + rest) / s.stride
      → IsMoved fl s r
      → ((k : ℕ)
          → (s.candidate_walkers + 1) / s.stride + k ≡ (s.candidate_walkers + 1 + rest) / s.stride
          → velocities ts
            ≡ round_robin s.vectors s.waypoint_count ((s.candidate_walkers + 1) / s.stride) k)
      → velocities (sent r.1 ts)
        ≡ round_robin s.vectors s.waypoint_count (s.candidate_walkers / s.stride) n
  unfolding IsMoved sent
  patrol_round s (t, none) ts rest n h small e (next, skipped) later =
      let whole : inc s.candidate_walkers ≡ s.candidate_walkers + 1 = omega arith in
      elim (next_quotient s.candidate_walkers s.stride h) [
        | inl (due, q) ↦ absurd (skipped (rw whole due))
        | inr (ne, q) ↦
            later n (ap (λ k. k + n) q ∙ e) ∙ ap (λ k. round_robin s.vectors s.waypoint_count k n) q
      ]
  patrol_round s (t, some c) ts rest zero h small e (next, (due, sends)) later =
      let (_, q) =
        due_vector fl s.candidate_walkers s.stride s.waypoint_count h (omega arith) due in
      let grows =
        div_mono (s.candidate_walkers + 1) (s.candidate_walkers + 1 + rest) s.stride h
          (omega arith) in
      absurd (omega arith)
  patrol_round s (t, some c) ts rest (suc n) h small e (next, (due, sends)) later =
      let (i, q) =
        due_vector fl s.candidate_walkers s.stride s.waypoint_count h (omega arith) due in
      unfold round_robin in
      ap (λ v. v ∷ velocities ts) (sends ∙ ap (λ k. some (get_or s.vectors k (zero_vec3 fl))) i)
      ∙ ap
          (λ l.
            some
              (get_or s.vectors (s.candidate_walkers / s.stride % s.waypoint_count) (zero_vec3 fl))
            ∷ l)
          (later n (omega (arith, q, e)) ∙ ap (λ k. round_robin s.vectors s.waypoint_count k n) q)

  later_calls :
      (s t : WalkerPatrolState fl) (can_read : ℕ → Bool) (m : Memory) (es : List ℕ)
      → IsNext fl s t
      → inc s.candidate_walkers ≡ s.candidate_walkers + 1
      → ((c d w k : ℕ) (vs : List (Vec3 fl))
          → t.candidate_walkers ≡ c
          → t.stride ≡ d
          → t.waypoint_count ≡ w
          → t.vectors ≡ vs
          → c / d + k ≡ (c + length es) / d
          → velocities (patrol t can_read m es).1 ≡ round_robin vs w (c / d) k)
      → (k : ℕ)
      → (s.candidate_walkers + 1) / s.stride + k ≡ (s.candidate_walkers + 1 + length es) / s.stride
      → velocities (patrol t can_read m es).1
        ≡ round_robin s.vectors s.waypoint_count ((s.candidate_walkers + 1) / s.stride) k
  later_calls s t can_read m es next whole ih k e =
      ih (s.candidate_walkers + 1) s.stride s.waypoint_count k s.vectors (next.counted ∙ whole)
        next.stride next.waypoints next.vectors e

  patrol_from :
      (can_read : ℕ → Bool) (m : Memory) (es : List ℕ) (s : WalkerPatrolState fl)
      → IsPatrolling fl s
      → All (IsWalker fl m) es
      → (c d w n : ℕ) (vs : List (Vec3 fl)) → s.candidate_walkers ≡ c
      → s.stride ≡ d
      → s.waypoint_count ≡ w
      → s.vectors ≡ vs
      → c / d + n ≡ (c + length es) / d
      → c + length es < 18446744073709551616
      → velocities (patrol s can_read m es).1 ≡ round_robin vs w (c / d) n
  unfolding patrol
  patrol_from can_read m [] s p a c d w zero vs hc hd hw hv e small = unfold round_robin in refl
  patrol_from can_read m [] s p a c d w (suc n) vs hc hd hw hv e small =
      let same : c + 0 ≡ c = omega arith in absurd (omega (arith, e ∙ ap (λ k. k / d) same))
  patrol_from can_read m (x ∷ es) s p (victim, a) c d w n vs hc hd hw hv e small =
      let moved = maybe_apply-Moved fl s can_read m x p victim in
      let next = IsMoved-IsNext fl s _ moved in
      let whole : inc s.candidate_walkers ≡ s.candidate_walkers + 1 = omega arith in
      let after : c + suc (length es) ≡ c + 1 + length es = omega arith in
      rw (sym hc, sym hd, sym hw, sym hv)
        (patrol_round s _ _ (length es) n p.stride (omega arith)
          (rw (hc, hd) (e ∙ ap (λ k. k / d) after)) moved
          (later_calls s _ can_read m es next whole (λ c' d' w' n' vs' hc' hd' hw' hv' e'.
            patrol_from can_read m es _ next.patrolling a c' d' w' n' vs' hc' hd' hw' hv' e'
              (omega (arith, hc', next.counted, hc, small)))))

  -- The callbacks for walkers, with the patrol on in its velocity mode: one call for each `stride`
  -- walkers that are counted, and the vectors take turns, from the one where the count stands. The
  -- count stays below the wrap-around, and every victim of the list is a walker.
  pub patrol-round_robin :
      (s : WalkerPatrolState fl) (can_read : ℕ → Bool) (m : Memory) (es : List ℕ) (n : ℕ)
      → IsPatrolling fl s
      → All (IsWalker fl m) es
      → s.candidate_walkers + length es < 18446744073709551616
      → s.candidate_walkers / s.stride + n ≡ (s.candidate_walkers + length es) / s.stride
      → map (λ c. c.velocity) (patrol s can_read m es).1
        ≡ round_robin s.vectors s.waypoint_count (s.candidate_walkers / s.stride) n
  patrol-round_robin s can_read m es n p a small e =
      patrol_from can_read m es s p a s.candidate_walkers s.stride s.waypoint_count n s.vectors refl
        refl refl refl e small
