-- ===== src/TargetProbe/Damage.antt =====
-- record_damage_victim of native/dwrt-host/dwrt_target_probe.cpp.
use dwrt.Prelude.{
  ℕ, Bool, true, false, ◌&&◌, ◌||◌, Option, none, some, List, ◌==◌, if◌then◌else◌, inc,
}
use dwrt.TargetProbe.Counters.{
  VictimCounters, AttackerCounters, LastSeen, record_in, invalid_team, invalid_unit_type,
}
use dwrt.TargetProbe.State.{ProbeWorld, on_victim, on_attacker, on_last}
use dwrt.TargetProbe.Entities.{
  Process, safe_read_team, team_or_invalid, safe_unit_type, designer_name_for, is_objective_name,
  is_neutral_name, is_midboss_name, safe_read_damage_handle, resolve_entity_handle,
}
use dwrt.TargetProbe.Neutralize.{maybe_global_neutralize_entity}
use dwrt.TargetProbe.Filter.{inc_if}

abbrev pub inflictor_handle_offset : ℕ
inflictor_handle_offset = 0x38

abbrev pub attacker_handle_offset : ℕ
attacker_handle_offset = 0x3c

abbrev pub is_none : Option ℕ → Bool
is_none none = true
is_none (some e) = false

unfoldable pub count_victim :
    Option ℕ → (unit_type : ℕ) (name : List ℕ) → VictimCounters → VictimCounters
count_victim team unit_type name c = record c {
  damage_victim_calls = inc c.damage_victim_calls;
  damage_victim_invalid_team = inc_if (is_none team) c.damage_victim_invalid_team;
  damage_victim_unit_types = record_in unit_type c.damage_victim_unit_types;
  damage_victim_objective = inc_if (is_objective_name name) c.damage_victim_objective;
  damage_victim_neutral = inc_if (is_neutral_name name) c.damage_victim_neutral;
  damage_victim_midboss = inc_if (is_midboss_name name) c.damage_victim_midboss;
}

abbrev see_victim : (team unit_type attacker inflictor : ℕ) → LastSeen → LastSeen
see_victim team unit_type attacker inflictor l = record l {
  last_damage_victim_team = team;
  last_damage_victim_unit_type = unit_type;
  last_damage_attacker_handle = attacker;
  last_damage_inflictor_handle = inflictor;
}

unfoldable pub count_inflictor : Option ℕ → AttackerCounters → AttackerCounters
count_inflictor none c = record c {
  damage_inflictor_handle_invalid = inc c.damage_inflictor_handle_invalid;
}
count_inflictor (some e) c = record c {
  damage_inflictor_handle_valid = inc c.damage_inflictor_handle_valid;
}

-- The two teams are 2 and 3.
abbrev pub are_opposing : ℕ → ℕ → Bool
are_opposing a v = (a == 2 && v == 3) || (a == 3 && v == 2)

-- How the attacker's team stands to the victim's.
unfoldable pub count_teams :
    (attacker_team victim_team victim_unit_type : ℕ) (objective : Bool)
    → AttackerCounters
    → AttackerCounters
count_teams attacker_team victim_team victim_unit_type objective c =
    if attacker_team == invalid_team || victim_team == invalid_team
    then record c { damage_attacker_other_team = inc c.damage_attacker_other_team }
    else if attacker_team == victim_team
    then record c {
      damage_attacker_same_team = inc c.damage_attacker_same_team;
      damage_same_team_victim_unit_types =
          record_in victim_unit_type c.damage_same_team_victim_unit_types;
      damage_attacker_same_team_objective = inc_if objective c.damage_attacker_same_team_objective;
    }
    else if are_opposing attacker_team victim_team
    then record c { damage_attacker_opposing_team = inc c.damage_attacker_opposing_team }
    else record c { damage_attacker_other_team = inc c.damage_attacker_other_team }

abbrev count_attacker : (unit_type : ℕ) (self : Bool) → AttackerCounters → AttackerCounters
count_attacker unit_type self c = record c {
  damage_attacker_handle_valid = inc c.damage_attacker_handle_valid;
  damage_attacker_unit_types = record_in unit_type c.damage_attacker_unit_types;
  damage_attacker_self = inc_if self c.damage_attacker_self;
}

abbrev count_no_attacker : AttackerCounters → AttackerCounters
count_no_attacker c = record c {
  damage_attacker_handle_invalid = inc c.damage_attacker_handle_invalid;
}

abbrev see_attacker : (team unit_type : ℕ) → LastSeen → LastSeen
see_attacker team unit_type l = record l {
  last_damage_attacker_team = team;
  last_damage_attacker_unit_type = unit_type;
}

-- From the attacker's handle on.
unfoldable pub record_attacker :
    Process
    → ProbeWorld
    → (victim victim_team victim_unit_type : ℕ) (objective : Bool) → Option ℕ
    → ProbeWorld
record_attacker p w victim victim_team victim_unit_type objective none =
    on_last (see_attacker invalid_team invalid_unit_type) (on_attacker count_no_attacker w)
record_attacker p w victim victim_team victim_unit_type objective (some attacker) =
    let attacker_team = team_or_invalid (safe_read_team p w.memory attacker) in
    let attacker_unit_type = safe_unit_type p w.memory attacker in
    on_last (see_attacker attacker_team attacker_unit_type) (
      on_attacker (count_teams attacker_team victim_team victim_unit_type objective)
        (on_attacker (count_attacker attacker_unit_type (attacker == victim)) w))

-- From the read of the victim's team on.
unfoldable pub record_victim : Process → ProbeWorld → (victim info : ℕ) → ProbeWorld
record_victim p w victim info =
    let team = safe_read_team p w.memory victim in
    let unit_type = safe_unit_type p w.memory victim in
    let name = designer_name_for p w.memory victim in
    let attacker_handle = safe_read_damage_handle p w.memory info attacker_handle_offset in
    let inflictor_handle = safe_read_damage_handle p w.memory info inflictor_handle_offset in
    record_attacker p
      (on_attacker (count_inflictor (resolve_entity_handle p w.memory inflictor_handle)) (
        on_last (see_victim (team_or_invalid team) unit_type attacker_handle inflictor_handle)
          (on_victim (count_victim team unit_type name) w)))
      victim (team_or_invalid team) unit_type (is_objective_name name)
      (resolve_entity_handle p w.memory attacker_handle)

unfoldable pub record_damage_victim :
    Process → ProbeWorld → (victim info : ℕ) (recursive : Bool) → ProbeWorld
record_damage_victim p w victim info recursive =
    if w.probe.settings.enabled == 0 || recursive
    then w
    else record_victim p (maybe_global_neutralize_entity p w victim) victim info
