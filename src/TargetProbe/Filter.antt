-- ===== src/TargetProbe/Filter.antt =====
-- begin_target_filter and finish_target_filter of native/dwrt-host/dwrt_target_probe.cpp.
use dwrt.Prelude.{
  ℕ, Bool, true, false, not, ◌&&◌, ◌||◌, Option, none, some, List, leb, ◌==◌, if◌then◌else◌, inc,
  u8, Memory,
}
use dwrt.TargetProbe.Counters.{FilterCounters, LastSeen, SpoofCounters, record_in, invalid_team}
use dwrt.TargetProbe.State.{ProbeWorld, on_filter, on_last, on_source_spoof, on_target_spoof}
use dwrt.TargetProbe.Settings.{
  opposing_team, configured_target_spoof_team, force_filter_same_team_allow_enabled,
  force_filter_objective_allow_enabled,
}
use dwrt.TargetProbe.Entities.{
  Process, safe_read_team, team_or_invalid, safe_write_team, safe_unit_type, designer_name_for,
  is_objective_name, is_neutral_name, is_midboss_name,
}
use dwrt.TargetProbe.Neutralize.{maybe_global_neutralize_entity}

-- `TargetFilterScope`
pub record TargetFilterScope : Type 0 where
  pub source : ℕ
  pub target : ℕ
  pub original_source_team : ℕ
  pub original_target_team : ℕ
  pub source_spoof_applied : ℕ
  pub target_spoof_applied : ℕ
  pub same_team : ℕ
  pub target_objective : ℕ

abbrev pub empty_filter_scope : TargetFilterScope
empty_filter_scope = record {
  source = 0;
  target = 0;
  original_source_team = 0;
  original_target_team = 0;
  source_spoof_applied = 0;
  target_spoof_applied = 0;
  same_team = 0;
  target_objective = 0;
}

abbrev pub bit_of : Bool → ℕ
bit_of b = if b then 1 else 0

abbrev pub inc_if : Bool → ℕ → ℕ
inc_if b n = if b then inc n else n

abbrev is_none : Option ℕ → Bool
is_none none = true
is_none (some t) = false

-- The two teams are known and the same.
unfoldable pub is_same_team : ℕ → ℕ → Bool
is_same_team source_team target_team =
    not (source_team == invalid_team)
    && (not (target_team == invalid_team) && source_team == target_team)

-- The counters of `begin_target_filter`, by what was read.
unfoldable pub count_filter_call :
    Option ℕ → Option ℕ → (unit_type : ℕ) (name : List ℕ) → FilterCounters → FilterCounters
count_filter_call source_team target_team unit_type name c = record c {
  filter_calls = inc c.filter_calls;
  filter_invalid_source_team = inc_if (is_none source_team) c.filter_invalid_source_team;
  filter_invalid_target_team = inc_if (is_none target_team) c.filter_invalid_target_team;
  filter_unit_types = record_in unit_type c.filter_unit_types;
  filter_same_team_calls =
      inc_if (is_same_team (team_or_invalid source_team) (team_or_invalid target_team))
        c.filter_same_team_calls;
  filter_objective_target_calls = inc_if (is_objective_name name) c.filter_objective_target_calls;
  filter_neutral_target_calls = inc_if (is_neutral_name name) c.filter_neutral_target_calls;
  filter_midboss_target_calls = inc_if (is_midboss_name name) c.filter_midboss_target_calls;
}

abbrev see_filter : ℕ → ℕ → ℕ → LastSeen → LastSeen
see_filter source_team target_team unit_type l = record l {
  last_source_team = source_team;
  last_target_team = target_team;
  last_target_unit_type = unit_type;
}

abbrev pub team_byte : ℕ → ℕ
team_byte team = if leb team 0xff then u8 team else 0

-- The scope before any team is changed.
unfoldable pub new_filter_scope :
    (source target source_team target_team : ℕ) (objective : Bool) → TargetFilterScope
new_filter_scope source target source_team target_team objective = record {
  source = source;
  target = target;
  original_source_team = team_byte source_team;
  original_target_team = team_byte target_team;
  source_spoof_applied = 0;
  target_spoof_applied = 0;
  same_team = bit_of (is_same_team source_team target_team);
  target_objective = bit_of objective;
}

abbrev count_attempt : SpoofCounters → SpoofCounters
count_attempt c = record c { attempts = inc c.attempts }

abbrev count_applied : SpoofCounters → SpoofCounters
count_applied c = record c { applied = inc c.applied }

unfoldable pub finish_source_spoof :
    ProbeWorld → TargetFilterScope → Option Memory → ProbeWorld × TargetFilterScope
finish_source_spoof w scope none = (w, scope)
finish_source_spoof w scope (some m) = (
  record (on_source_spoof count_applied w) { memory = m },
  record scope { source_spoof_applied = 1 },
)

unfoldable pub spoof_source :
    Process → ProbeWorld → TargetFilterScope → (target_team : ℕ) → ProbeWorld × TargetFilterScope
spoof_source p w scope target_team =
    let spoofed_team = opposing_team target_team in
    if not (w.probe.settings.source_team_spoof_enabled == 0)
      && (not (scope.same_team == 0) && not (scope.source == scope.target))
    then (if spoofed_team == 0
        then (w, scope)
        else finish_source_spoof (on_source_spoof count_attempt w) scope
            (safe_write_team p w.memory scope.source spoofed_team))
    else (w, scope)

unfoldable pub finish_target_spoof :
    ProbeWorld → TargetFilterScope → Option Memory → ProbeWorld × TargetFilterScope
finish_target_spoof w scope none = (w, scope)
finish_target_spoof w scope (some m) = (
  record (on_target_spoof count_applied w) { memory = m },
  record scope { target_spoof_applied = 1 },
)

unfoldable pub spoof_target :
    Process → ProbeWorld × TargetFilterScope → (source_team : ℕ) → ProbeWorld × TargetFilterScope
spoof_target p (w, scope) source_team =
    if not (w.probe.settings.target_team_spoof_enabled == 0)
      && (not (scope.same_team == 0) && not (scope.source == scope.target))
    then finish_target_spoof (on_target_spoof count_attempt w) scope (
        safe_write_team p w.memory scope.target
          (configured_target_spoof_team w.probe.settings source_team))
    else (w, scope)

-- From the reads of the teams on, with what was read.
unfoldable pub enter_filter :
    Process
    → ProbeWorld
    → (source target : ℕ) → Option ℕ
    → Option ℕ
    → ProbeWorld × TargetFilterScope
enter_filter p w source target source_read target_read =
    let source_team = team_or_invalid source_read in
    let target_team = team_or_invalid target_read in
    let unit_type = safe_unit_type p w.memory target in
    let name = designer_name_for p w.memory target in
    let counted =
      on_last (see_filter source_team target_team unit_type)
        (on_filter (count_filter_call source_read target_read unit_type name) w) in
    let scope = new_filter_scope source target source_team target_team (is_objective_name name) in
    spoof_target p (spoof_source p counted scope target_team) source_team

-- The two calls of `maybe_global_neutralize_entity`.
unfoldable pub neutralize_both : Process → ProbeWorld → ℕ → ℕ → ProbeWorld
neutralize_both p w source target =
    maybe_global_neutralize_entity p (maybe_global_neutralize_entity p w source) target

unfoldable pub begin_target_filter :
    Process → ProbeWorld → (source target : ℕ) (recursive : Bool) → ProbeWorld × TargetFilterScope
begin_target_filter p w source target recursive =
    let v = neutralize_both p w source target in
    if w.probe.settings.enabled == 0 || recursive
    then (w, empty_filter_scope)
    else enter_filter p v source target (safe_read_team p v.memory source)
        (safe_read_team p v.memory target)

unfoldable pub record_result_common : Bool → Bool → Bool → FilterCounters → FilterCounters
record_result_common result same_team objective_target c =
    if result
    then record c {
      filter_allowed = inc c.filter_allowed;
      filter_same_team_allowed = inc_if same_team c.filter_same_team_allowed;
      filter_objective_target_allowed = inc_if objective_target c.filter_objective_target_allowed;
    }
    else record c {
      filter_denied = inc c.filter_denied;
      filter_same_team_denied = inc_if same_team c.filter_same_team_denied;
      filter_objective_target_denied = inc_if objective_target c.filter_objective_target_denied;
    }

-- A denial that the settings turn into an allowance.
unfoldable pub is_filter_forced : ProbeWorld → TargetFilterScope → Bool → Bool
is_filter_forced w scope result =
    not result
    && ((not (scope.same_team == 0) && force_filter_same_team_allow_enabled w.probe.settings)
        || (not (scope.target_objective == 0)
            && force_filter_objective_allow_enabled w.probe.settings))

abbrev count_forced : Bool → FilterCounters → FilterCounters
count_forced forced c = record c { filter_forced_allowed = inc_if forced c.filter_forced_allowed }

abbrev see_result : Bool → LastSeen → LastSeen
see_result result l = record l { last_filter_result = bit_of result }

abbrev count_verdict : Bool → SpoofCounters → SpoofCounters
count_verdict true c = record c { allowed = inc c.allowed }
count_verdict false c = record c { denied = inc c.denied }

abbrev count_restored : SpoofCounters → SpoofCounters
count_restored c = record c { restored = inc c.restored }

unfoldable pub finish_source_restore : ProbeWorld → Option Memory → ProbeWorld
finish_source_restore w none = w
finish_source_restore w (some m) = record (on_source_spoof count_restored w) { memory = m }

unfoldable pub restore_source : Process → TargetFilterScope → Bool → ProbeWorld → ProbeWorld
restore_source p scope result w =
    if not (scope.source_spoof_applied == 0) && not (scope.source == 0)
    then finish_source_restore (on_source_spoof (count_verdict result) w)
        (safe_write_team p w.memory scope.source scope.original_source_team)
    else w

unfoldable pub finish_target_restore : ProbeWorld → Option Memory → ProbeWorld
finish_target_restore w none = w
finish_target_restore w (some m) = record (on_target_spoof count_restored w) { memory = m }

unfoldable pub restore_target : Process → TargetFilterScope → Bool → ProbeWorld → ProbeWorld
restore_target p scope result w =
    if not (scope.target_spoof_applied == 0) && not (scope.target == 0)
    then finish_target_restore (on_target_spoof (count_verdict result) w)
        (safe_write_team p w.memory scope.target scope.original_target_team)
    else w

unfoldable pub finish_target_filter :
    Process → ProbeWorld → TargetFilterScope → Bool → ProbeWorld × Bool
finish_target_filter p w scope result =
    let forced = is_filter_forced w scope result in
    let final_result = result || forced in
    let counted =
      on_filter
        (record_result_common final_result (not (scope.same_team == 0))
          (not (scope.target_objective == 0)))
        (on_last (see_result final_result) (on_filter (count_forced forced) w)) in
    (
      restore_target p scope final_result (restore_source p scope final_result counted),
      final_result,
    )
