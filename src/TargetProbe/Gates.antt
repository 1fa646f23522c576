-- ===== src/TargetProbe/Gates.antt =====
-- record_target_filter_caller and record_secondary_target_gate of
-- native/dwrt-host/dwrt_target_probe.cpp.
use dwrt.Prelude.{ℕ, Bool, not, ◌&&◌, ◌||◌, Option, some, false, ◌==◌, if◌then◌else◌, inc}
use dwrt.TargetProbe.Counters.{CallerCounters, SecondaryCounters}
use dwrt.TargetProbe.State.{ProbeWorld, on_caller, on_secondary}
use dwrt.TargetProbe.Settings.{
  force_caller_same_team_allow_enabled, force_caller_objective_allow_enabled,
  force_secondary_allow_enabled,
}
use dwrt.TargetProbe.Entities.{
  Process, safe_read_team, safe_unit_type, designer_name_for, is_objective_name,
}
use dwrt.TargetProbe.Neutralize.{maybe_global_neutralize_entity}
use dwrt.TargetProbe.Filter.{inc_if, neutralize_both}

-- Both reads went well, and the teams are the same.
abbrev pub reads_same_team : Option ℕ → Option ℕ → Bool
reads_same_team (some s) (some t) = s == t
reads_same_team _ _ = false

unfoldable pub is_caller_forced : Process → ProbeWorld → (source target : ℕ) → Bool → Bool
is_caller_forced p w source target result =
    not result
    && ((reads_same_team (safe_read_team p w.memory source) (safe_read_team p w.memory target)
          && force_caller_same_team_allow_enabled w.probe.settings)
        || (is_objective_name (designer_name_for p w.memory target)
            && force_caller_objective_allow_enabled w.probe.settings))

unfoldable pub count_caller : Bool → Bool → (unit_type : ℕ) → CallerCounters → CallerCounters
count_caller forced result unit_type c = record c {
  caller_calls = inc c.caller_calls;
  caller_allowed = inc_if result c.caller_allowed;
  caller_denied = inc_if (not result) c.caller_denied;
  caller_forced_allowed = inc_if forced c.caller_forced_allowed;
  caller_unit_0x1a_bypass_candidates =
      inc_if (unit_type == 0x1a) c.caller_unit_0x1a_bypass_candidates;
}

unfoldable pub record_target_filter_caller :
    Process → ProbeWorld → (source target : ℕ) → Bool → ProbeWorld × Bool
record_target_filter_caller p w source target result =
    let v = neutralize_both p w source target in
    let forced = is_caller_forced p v source target result in
    if w.probe.settings.enabled == 0 then (w, result) else (
      on_caller (count_caller forced (result || forced) (safe_unit_type p v.memory target)) v,
      result || forced,
    )

unfoldable pub is_secondary_forced : ProbeWorld → Bool → Bool
is_secondary_forced w result = not result && force_secondary_allow_enabled w.probe.settings

unfoldable pub count_secondary : Bool → Bool → SecondaryCounters → SecondaryCounters
count_secondary forced result c = record c {
  secondary_calls = inc c.secondary_calls;
  secondary_allowed = inc_if result c.secondary_allowed;
  secondary_denied = inc_if (not result) c.secondary_denied;
  secondary_forced_allowed = inc_if forced c.secondary_forced_allowed;
}

unfoldable pub record_secondary_target_gate :
    Process → ProbeWorld → (source maybe_attacker maybe_target : ℕ) → Bool → ProbeWorld × Bool
record_secondary_target_gate p w source maybe_attacker maybe_target result =
    let v =
      maybe_global_neutralize_entity p (neutralize_both p w source maybe_attacker) maybe_target in
    let forced = is_secondary_forced v result in
    if w.probe.settings.enabled == 0
    then (w, result)
    else (on_secondary (count_secondary forced (result || forced)) v, result || forced)
