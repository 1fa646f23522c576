-- ===== src/Host/Detours/Depth.antt =====
-- native/dwrt-host/dwrt_host.cpp: the callback scopes of all the detours of a play.
use dwrt.Prelude.{◌+◌, ◌≤◌, ◌≡◌, ap, ◌∙◌, suc, max, arith, u32_max}
use dwrt.Testpoints.{Testpoints}
use dwrt.Testpoints.Nesting.{Callbacks, run_callbacks, height, run_callbacks-Ran}
use dwrt.Walker.Floats.{FloatApi}
use dwrt.Shim.Loader.{RuntimeApi}
use dwrt.TargetProbe.Entities.{Process}
use dwrt.Host.Detours.{DetourWorld}
use dwrt.Host.Detours.Nested.{
  Play, stops, writes, damages, accepts, fires, filters, asks, gates, classifies, levels, run_play,
}
use dwrt.Host.Detours.Scopes.{Nests, nests, Nests-none, Nests-more, Nests-step}
use dwrt.Host.Detours.Opens.{
  damage-Nests, input-Nests, output-Nests, filter-Nests, caller-Nests, gate-Nests, classifier-Nests,
}

module _ (fl : FloatApi) (api : RuntimeApi) where
  -- Whatever the game does, the detours use the callback scopes as callbacks that nest properly, at most as
  -- deep as the hooked calls of the game do.
  play-Nests :
      (p : Process) (q : Play) (w : DetourWorld fl api)
      → Nests (levels q) w.testpoints (run_play fl api p q w).testpoints
  unfolding run_play levels
  play-Nests p stops w = Nests-none _ _
  play-Nests p (writes f next) w = play-Nests p next _
  play-Nests p (damages event self info present moved inner next) w =
      let m = max (levels moved) (levels inner) in
      Nests-step (suc m) (levels next) _ _ _
        (damage-Nests fl api m p (λ t. run_play fl api p moved) present _ event self info
          (λ t v. Nests-more (levels moved) m _ _ (omega arith) (play-Nests p moved v))
          (λ v. Nests-more (levels inner) m _ _ (omega arith) (play-Nests p inner v)) w)
        (play-Nests p next _)
  play-Nests p (accepts event self activator caller present result inner next) w =
      Nests-step _ _ _ _ _
        (input-Nests fl api (levels inner) p present result _ event self activator caller
          (play-Nests p inner) w)
        (play-Nests p next _)
  play-Nests p (fires event self activator caller present inner next) w =
      Nests-step _ _ _ _ _
        (output-Nests fl api (levels inner) p present _ event self activator caller
          (play-Nests p inner) w)
        (play-Nests p next _)
  play-Nests p (filters source target bitset classifier present result inner next) w =
      Nests-step _ _ _ _ _
        (filter-Nests fl api (levels inner) p present result _ source target bitset classifier
          (play-Nests p inner) w)
        (play-Nests p next _)
  play-Nests p (asks source target present result inner next) w =
      Nests-step _ _ _ _ _
        (caller-Nests fl api (levels inner) p present result _ source target (play-Nests p inner) w)
        (play-Nests p next _)
  play-Nests p (gates source attacker target present result inner next) w =
      Nests-step _ _ _ _ _
        (gate-Nests fl api (levels inner) p present result _ source attacker target
          (play-Nests p inner) w)
        (play-Nests p next _)
  play-Nests p (classifies target out present inner next) w =
      Nests-step _ _ _ _ _
        (classifier-Nests fl api (levels inner) p present _ target out (play-Nests p inner) w)
        (play-Nests p next _)

  -- What a play leaves of the testpoints: that of callbacks that nest at most as deep as its hooked calls,
  -- with the depth as it was and the maximum no higher than the play can nest.
  pub record IsBalanced (q : Play) (t u : Testpoints) : Type 0 where
    pub callbacks : Callbacks
    pub nested : u ≡ run_callbacks t callbacks
    pub bounded : height callbacks ≤ levels q
    pub depth : u.callback_current_depth ≡ t.callback_current_depth
    pub max_depth :
        u.callback_max_depth ≤ max t.callback_max_depth (t.callback_current_depth + levels q)

  balanced :
      (q : Play) (t u : Testpoints)
      → t.callback_current_depth + levels q ≤ u32_max
      → t.callback_current_depth ≤ t.callback_max_depth
      → Nests (levels q) t u
      → IsBalanced q t u
  balanced q t u fits known (nests c h e) =
      let ran = run_callbacks-Ran t c (omega arith) known in
      record {
        callbacks = c;
        nested = e;
        bounded = h;
        depth = ap (λ (v : Testpoints). v.callback_current_depth) e ∙ ran.depth;
        max_depth = omega (arith, ap (λ (v : Testpoints). v.callback_max_depth) e, ran.max_depth);
      }

  -- Whatever hooked functions the game calls, inside one another in any way and with or without an
  -- original, the detours use the callback scopes as callbacks that nest properly: afterwards the depth is
  -- what it was, and the maximum is at most what the nesting of the game's calls accounts for. The depth is
  -- assumed to fit into 32 bits and to be at most the maximum at the start.
  pub run_play-IsBalanced :
      (p : Process) (q : Play) (w : DetourWorld fl api)
      → w.testpoints.callback_current_depth + levels q ≤ u32_max
      → w.testpoints.callback_current_depth ≤ w.testpoints.callback_max_depth
      → IsBalanced q w.testpoints (run_play fl api p q w).testpoints
  run_play-IsBalanced p q w fits known =
      balanced q w.testpoints (run_play fl api p q w).testpoints fits known (play-Nests p q w)
