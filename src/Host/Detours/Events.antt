-- ===== src/Host/Detours/Events.antt =====
-- native/dwrt-host/dwrt_host.cpp: what the counters of all components account for, over nested detours.
use dwrt.Prelude.{ℕ, ◌+◌, ◌≡◌, refl, Bool, true, false, Option, none, some, Memory, arith}
use dwrt.Walker.Floats.{FloatApi}
use dwrt.Walker.Patrol.{Teleport, maybe_apply_walker_patrol_on_damage}
use dwrt.Walker.Counters.{IsAccounted as IsWalkerAccounted, apply-Accounted}
use dwrt.FriendlyFire.{FriendlyFireState, FriendlyFireDamageScope, end_friendly_fire_damage}
use dwrt.FriendlyFire.Counters.{IsAccounted as IsFriendlyFireAccounted, begin-IsAccounted}
use dwrt.Shim.Loader.{
  RuntimeApi, dwrt_probe_record_damage, dwrt_probe_record_entity_input,
  dwrt_probe_record_entity_output,
}
use dwrt.Shim.Routes.{probe_record_damage, probe_record_entity_input, probe_record_entity_output}
use dwrt.Shim.Kept.{record_probe-Kept}
use dwrt.Shim.Consistency.{IsConsistent, IsKept-Consistent}
use dwrt.TargetProbe.State.{TargetProbeState, ProbeWorld}
use dwrt.TargetProbe.Filter.{TargetFilterScope}
use dwrt.TargetProbe.Open.{
  IsOpen as IsProbeOpen, open_sources, open_targets, neutralize_entity-Open, damage-Open,
}
use dwrt.FriendlyFire.Open.{
  IsOpen as IsDamageOpen, open_damages, begin_friendly_fire-Open, end_friendly_fire-Open,
}
use dwrt.TargetProbe.Entities.{Process}
use dwrt.TargetProbe.Classifier.{}
use dwrt.TargetProbe.Accounting.{
  IsAccounted as IsProbeAccounted, neutralize_entity-Accounted, damage-Accounted,
}
use dwrt.TargetProbe.Damage.{record_damage_victim}
use dwrt.Host.Detours.{
  is_recursive, DetourWorld, run_teleport, call_original, call_original_test, apply_patrol,
  begin_friendly_fire, end_friendly_fire, record_damage, damage_in_scope, detour_take_damage_old,
  record_input, record_output, enter, leave, neutralize_three,
}
use dwrt.Host.Detours.Nested.{original_of, test_of}

ended :
    (s : FriendlyFireState) (m : Memory) (scope : FriendlyFireDamageScope)
    → IsFriendlyFireAccounted s
    → IsFriendlyFireAccounted (end_friendly_fire_damage s m scope).0
unfolding end_friendly_fire_damage
ended s m scope h = ground arith

-- How many scopes are open around a moment: damage detours that have changed a team, filters, and filters
-- that have changed the team of a source and of a target.
pub record Scopes : Type 0 where
  pub damages : ℕ
  pub filters : ℕ
  pub sources : ℕ
  pub targets : ℕ

-- What the counters of the target probe account for, with these scopes open.
pub record IsProbeSettled (o : Scopes) (s : TargetProbeState) : Type 0 where
  pub events : IsProbeAccounted s
  pub opens : IsProbeOpen o.filters o.sources o.targets s

abbrev pub in_filter : TargetFilterScope → Scopes → Scopes
in_filter scope o = record o {
  filters = o.filters + 1;
  sources = o.sources + open_sources scope;
  targets = o.targets + open_targets scope;
}

module _ (fl : FloatApi) (api : RuntimeApi) where
  -- The counters of the three components account for their events and for the scopes that are open, and the
  -- shim is consistent.
  pub record AreAccounted (o : Scopes) (w : DetourWorld fl api) : Type 0 where
    pub probe : IsProbeSettled o w.probe.probe
    pub walker : IsWalkerAccounted fl w.walker
    pub friendly_fire : IsFriendlyFireAccounted w.friendly_fire
    pub damages : IsDamageOpen o.damages w.friendly_fire
    pub runtime : IsConsistent api w.runtime

  abbrev pub Keeps : (DetourWorld fl api → DetourWorld fl api) → Type 0
  Keeps f = (o : Scopes) (w : DetourWorld fl api) → AreAccounted o w → AreAccounted o (f w)

  teleport-Keeps :
      (teleport : Teleport fl → DetourWorld fl api → DetourWorld fl api) (o : Option (Teleport fl))
      → ((t : Teleport fl) → Keeps (teleport t))
      → Keeps (run_teleport fl api teleport o)
  teleport-Keeps teleport none h o w a = a
  teleport-Keeps teleport (some t) h o w a = h t o w a

  pub call-Keeps :
      (present : Bool) (f : DetourWorld fl api → DetourWorld fl api)
      → Keeps f
      → Keeps (call_original fl api (original_of fl api present f))
  call-Keeps true f h o w a = h o w a
  call-Keeps false f h o w a = a

  pub call_test-Keeps :
      (present result otherwise : Bool) (f : DetourWorld fl api → DetourWorld fl api)
      → Keeps f
      → Keeps (λ w. (call_original_test fl api (test_of fl api present result f) otherwise w).0)
  call_test-Keeps true result otherwise f h o w a = h o w a
  call_test-Keeps false result otherwise f h o w a = a

  -- The end of a damage scope settles it.
  end-Settles :
      (scope : FriendlyFireDamageScope) (o : Scopes) (w : DetourWorld fl api)
      → AreAccounted (record o { damages = o.damages + open_damages scope }) w
      → AreAccounted o (end_friendly_fire fl api scope w)
  unfolding end_friendly_fire
  end-Settles scope o w a = record {
    probe = record { events = a.probe.events; opens = a.probe.opens };
    walker = a.walker;
    friendly_fire = ended w.friendly_fire w.probe.memory scope a.friendly_fire;
    damages = end_friendly_fire-Open o.damages w.friendly_fire w.probe.memory scope a.damages;
    runtime = a.runtime;
  }

  record_damage-Keeps :
      (event : ℕ) (recursive : Bool) → Keeps (record_damage fl api event recursive)
  unfolding record_damage probe_record_damage
  record_damage-Keeps event true o w a = a
  record_damage-Keeps event false o w a = record {
    probe = a.probe;
    walker = a.walker;
    friendly_fire = a.friendly_fire;
    damages = a.damages;
    runtime =
        IsKept-Consistent api w.runtime _
          (record_probe-Kept api dwrt_probe_record_damage _ w.runtime) a.runtime;
  }

  -- A change of the target probe's world that keeps its counters accounted for.
  pub probe-Keeps :
      (o' o : Scopes) (w : DetourWorld fl api) (v : ProbeWorld)
      → o'.damages ≡ o.damages
      → IsProbeSettled o' v.probe
      → AreAccounted o w
      → AreAccounted o' (record w { probe = v })
  probe-Keeps o' o w v q h a = record {
    probe = h;
    walker = a.walker;
    friendly_fire = a.friendly_fire;
    damages = rw q a.damages;
    runtime = a.runtime;
  }

  pub enter-Keeps : (point_id : ℕ) → Keeps (enter fl api point_id)
  enter-Keeps point_id o w a = record {
    probe = a.probe;
    walker = a.walker;
    friendly_fire = a.friendly_fire;
    damages = a.damages;
    runtime = a.runtime;
  }

  pub leave-Keeps : Keeps (leave fl api)
  leave-Keeps o w a = record {
    probe = a.probe;
    walker = a.walker;
    friendly_fire = a.friendly_fire;
    damages = a.damages;
    runtime = a.runtime;
  }

  patrol-Keeps :
      (p : Process) (teleport : Teleport fl → DetourWorld fl api → DetourWorld fl api) (entity : ℕ)
      (recursive : Bool)
      → ((t : Teleport fl) → Keeps (teleport t))
      → Keeps (apply_patrol fl api p teleport entity recursive)
  unfolding apply_patrol
  patrol-Keeps p teleport entity recursive h o w a =
      let r =
        maybe_apply_walker_patrol_on_damage fl w.walker p.can_read w.probe.memory entity
          recursive in
      teleport-Keeps teleport r.1 h o (record w { walker = r.0 })
        (record {
          probe = a.probe;
          walker = apply-Accounted fl w.walker p.can_read w.probe.memory entity recursive a.walker;
          friendly_fire = a.friendly_fire;
          damages = a.damages;
          runtime = a.runtime;
        })

  begin-Opens :
      (entity : ℕ) (recursive : Bool) (o : Scopes) (w : DetourWorld fl api)
      → AreAccounted o w
      → let b = begin_friendly_fire fl api entity recursive w in
        AreAccounted (record o { damages = o.damages + open_damages b.1 }) b.0
  unfolding begin_friendly_fire
  begin-Opens entity recursive o w a = record {
    probe = record { events = a.probe.events; opens = a.probe.opens };
    walker = a.walker;
    friendly_fire =
        begin-IsAccounted w.friendly_fire w.probe.memory entity recursive a.friendly_fire;
    damages =
        begin_friendly_fire-Open o.damages w.friendly_fire w.probe.memory entity recursive
          a.damages;
    runtime = a.runtime;
  }

  damage_in_scope-Settles :
      (event : ℕ) (recursive present : Bool) (f : DetourWorld fl api → DetourWorld fl api)
      (o : Scopes) (w : DetourWorld fl api) (scope : FriendlyFireDamageScope)
      → Keeps f
      → AreAccounted (record o { damages = o.damages + open_damages scope }) w
      → AreAccounted o
          (damage_in_scope fl api event recursive (original_of fl api present f) (w, scope))
  unfolding damage_in_scope
  damage_in_scope-Settles event recursive present f o w scope h a =
      end-Settles scope o _ (call-Keeps present f h _ _ (record_damage-Keeps event recursive _ w a))

  pub damage-Keeps :
      (p : Process) (teleport : Teleport fl → DetourWorld fl api → DetourWorld fl api)
      (present : Bool) (f : DetourWorld fl api → DetourWorld fl api) (event self info : ℕ)
      → ((t : Teleport fl) → Keeps (teleport t))
      → Keeps f
      → Keeps
          (detour_take_damage_old fl api p teleport (original_of fl api present f) event self info)
  unfolding detour_take_damage_old
  damage-Keeps p teleport present f event self info ht hf o w a =
      let recursive = is_recursive fl api 1 w in
      let seen = record_damage_victim p w.probe self info recursive in
      let entered = enter fl api 1 w in
      let moved = apply_patrol fl api p teleport self recursive (record entered { probe = seen }) in
      let b = begin_friendly_fire fl api self recursive moved in
      leave-Keeps o (damage_in_scope fl api event recursive (original_of fl api present f) b) (
        damage_in_scope-Settles event recursive present f o b.0 b.1 hf (
          begin-Opens self recursive o moved (
            patrol-Keeps p teleport self recursive ht o (record entered { probe = seen })
              (probe-Keeps o o entered seen refl
                (record {
                  events = damage-Accounted p w.probe self info recursive a.probe.events;
                  opens = damage-Open _ _ _ p w.probe self info recursive a.probe.opens;
                })
                (enter-Keeps 1 o w a)))))

  three-Settled :
      (p : Process) (self activator caller : ℕ) (o : Scopes) (v : ProbeWorld)
      → IsProbeSettled o v.probe
      → IsProbeSettled o (neutralize_three fl api p self activator caller v).probe
  three-Settled p self activator caller o v h = record {
    events =
        neutralize_entity-Accounted p _ caller (
          neutralize_entity-Accounted p _ activator
            (neutralize_entity-Accounted p v self h.events));
    opens = neutralize_entity-Open _ _ _ p _ caller (
        neutralize_entity-Open _ _ _ p _ activator (neutralize_entity-Open _ _ _ p v self h.opens));
  }

  pub record_input-Keeps :
      (p : Process) (event self activator caller : ℕ) (recursive : Bool)
      → Keeps (record_input fl api p event self activator caller recursive)
  unfolding record_input probe_record_entity_input
  record_input-Keeps p event self activator caller true o w a = a
  record_input-Keeps p event self activator caller false o w a = record {
    probe = three-Settled p self activator caller o w.probe a.probe;
    walker = a.walker;
    friendly_fire = a.friendly_fire;
    damages = a.damages;
    runtime =
        IsKept-Consistent api w.runtime _
          (record_probe-Kept api dwrt_probe_record_entity_input _ w.runtime) a.runtime;
  }

  pub record_output-Keeps :
      (p : Process) (event self activator caller : ℕ) (recursive : Bool)
      → Keeps (record_output fl api p event self activator caller recursive)
  unfolding record_output probe_record_entity_output
  record_output-Keeps p event self activator caller true o w a = a
  record_output-Keeps p event self activator caller false o w a = record {
    probe = three-Settled p self activator caller o w.probe a.probe;
    walker = a.walker;
    friendly_fire = a.friendly_fire;
    damages = a.damages;
    runtime =
        IsKept-Consistent api w.runtime _
          (record_probe-Kept api dwrt_probe_record_entity_output _ w.runtime) a.runtime;
  }
