-- ===== src/Host/Detours/Tests.antt =====
-- Detours over two entities of one team, for native/dwrt-host/dwrt_host.cpp.
use dwrt.Prelude.{codes, [], ◌∷◌, ℕ, ◌≡◌, ◌≢◌, refl, true, false, some, arith}
use dwrt.Testpoints.{Testpoints}
use dwrt.Walker.Tests.{whole_floats, patrolling_state}
use dwrt.Shim.Loader.{construct}
use dwrt.Shim.Runs.{run, loads, creates}
use dwrt.Shim.Tests.{logging_api}
use dwrt.FriendlyFire.{team_field}
use dwrt.FriendlyFire.Restore.{IsBytes}
use dwrt.FriendlyFire.Tests.{walker, walker-IsBytes, switched_on_state}
use dwrt.Walker.Patrol.{maybe_apply_walker_patrol_on_damage}
use dwrt.TargetProbe.Damage.{record_damage_victim}
use dwrt.TargetProbe.State.{no_spoof_scope}
use dwrt.TargetProbe.Tests.{open_process, two_entities}
use dwrt.Host.Detours.{
  detour_take_damage_old, apply_patrol, DetourWorld, detour_target_friendly_fire_filter,
  detour_target_friendly_fire_caller, detour_target_secondary_friendly_fire_gate,
}
use dwrt.Host.Detours.Nested.{levels, Play, stops, damages, filters, classifies, run_play}
use dwrt.Host.Detours.Depth.{IsBalanced, run_play-IsBalanced}
use dwrt.Host.Detours.Events.{Scopes}
use dwrt.Host.Detours.Restores.{
  left_scope, filter_detour-closed, detour_take_damage_old-team, before_friendly_fire,
  after_original,
}
use dwrt.Host.Detours.Verdicts.{detours-allow}

abbrev pub quiet : Testpoints
quiet = record {
  initialize_calls = 0;
  initialize_reentrant_rejects = 0;
  shutdown_calls = 0;
  callback_entries = 0;
  callback_recursive_entries = 0;
  callback_current_depth = 0;
  callback_max_depth = 0;
}

abbrev quiet_world : DetourWorld whole_floats logging_api
quiet_world = record {
  testpoints = quiet;
  probe = two_entities;
  walker = patrolling_state;
  friendly_fire = switched_on_state;
  runtime = run logging_api (construct logging_api []) (loads (codes "dwrt.dll") ∷ creates ∷ []);
}

-- A damage call in which the game filters a target, and classifies it meanwhile.
abbrev nested_play : Play
nested_play =
    damages 64 1000 0 true stops
      (filters 1000 4000 0 0 true false (classifies 4000 9000 true stops stops) stops) stops

run_play-IsBalanced_example :
    IsBalanced whole_floats logging_api nested_play quiet
      (run_play whole_floats logging_api open_process nested_play quiet_world).testpoints
run_play-IsBalanced_example =
    run_play-IsBalanced whole_floats logging_api open_process nested_play quiet_world
      (unfold levels in omega arith) (omega arith)

-- No detour runs around the play.
abbrev no_scopes : Scopes
no_scopes = record { damages = 0; filters = 0; sources = 0; targets = 0 }

detours-allow_example :
    ((detour_target_friendly_fire_filter whole_floats logging_api open_process
        (some (λ v. (v, true)))
        1000
        4000
        0
        0
        quiet_world).1
      ≡ true)
    × ((detour_target_friendly_fire_caller whole_floats logging_api open_process
          (some (λ v. (v, true)))
          1000
          4000
          quiet_world).1
        ≡ true)
    × ((detour_target_secondary_friendly_fire_gate whole_floats logging_api open_process
          (some (λ v. (v, true)))
          1000
          4000
          4000
          quiet_world).1
        ≡ true)
detours-allow_example =
    detours-allow whole_floats logging_api open_process (some (λ v. (v, true))) quiet_world 1000
      4000 4000 0 0 (λ v. refl)

-- The target probe and the walker patrol are switched off, and an objective of team 2 stands at 1000.
abbrev objective_world : DetourWorld whole_floats logging_api
objective_world = record quiet_world {
  probe = record two_entities {
    probe = record two_entities.probe {
      settings = record two_entities.probe.settings { enabled = 0 };
    };
    memory = walker;
  };
  walker = record patrolling_state { enabled = 0 };
}

before_objective-IsBytes :
    IsBytes
      (before_friendly_fire whole_floats logging_api open_process
        (λ t w. w)
        1000
        0
        objective_world).probe.memory
unfolding before_friendly_fire record_damage_victim apply_patrol maybe_apply_walker_patrol_on_damage
before_objective-IsBytes = walker-IsBytes

detour_take_damage_old-team_example :
    let e =
      detour_take_damage_old whole_floats logging_api open_process
        (λ t w. w)
        (some (λ w. w))
        64
        1000
        0
        objective_world in
    (e.probe.memory (team_field 1000)
      ≡ (before_friendly_fire whole_floats logging_api open_process
            (λ t w. w)
            1000
            0
            objective_world).probe.memory
          (team_field 1000))
    × ((a : ℕ)
        → a ≢ team_field 1000
        → e.probe.memory a
          ≡ (after_original whole_floats logging_api open_process
                (λ t w. w)
                (some (λ w. w))
                64
                1000
                0
                objective_world).probe.memory
              a)
detour_take_damage_old-team_example =
    detour_take_damage_old-team whole_floats logging_api open_process (λ t w. w) (some (λ w. w)) 64
      1000 0 objective_world before_objective-IsBytes (λ v. refl)

filter_detour-closed_example :
    left_scope whole_floats logging_api (
      detour_target_friendly_fire_filter whole_floats logging_api open_process
        (some (λ v. (v, false)))
        1000
        4000
        0
        0
        quiet_world)
    ≡ no_spoof_scope
filter_detour-closed_example =
    filter_detour-closed whole_floats logging_api open_process (some (λ v. (v, false))) 1000 4000 0
      0 quiet_world
