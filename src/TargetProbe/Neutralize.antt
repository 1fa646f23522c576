-- ===== src/TargetProbe/Neutralize.antt =====
-- maybe_global_neutralize_entity of native/dwrt-host/dwrt_target_probe.cpp.
use dwrt.Prelude.{ℕ, Bool, ◌||◌, Option, none, some, ltb, ◌==◌, if◌then◌else◌, inc, Memory}
use dwrt.TargetProbe.Counters.{NeutralizeCounters, record_in}
use dwrt.TargetProbe.State.{ProbeWorld, on_neutralize}
use dwrt.TargetProbe.Entities.{Process, safe_read_team, safe_write_team}

abbrev count_attempt : NeutralizeCounters → NeutralizeCounters
count_attempt c = record c { global_neutralize_attempts = inc c.global_neutralize_attempts }

abbrev count_null : NeutralizeCounters → NeutralizeCounters
count_null c = record c { global_neutralize_null = inc c.global_neutralize_null }

abbrev count_invalid_team : NeutralizeCounters → NeutralizeCounters
count_invalid_team c = record c {
  global_neutralize_invalid_team = inc c.global_neutralize_invalid_team;
}

abbrev count_original_team : ℕ → NeutralizeCounters → NeutralizeCounters
count_original_team team c = record c {
  global_neutralize_original_teams = record_in team c.global_neutralize_original_teams;
}

abbrev count_already : NeutralizeCounters → NeutralizeCounters
count_already c = record c { global_neutralize_already = inc c.global_neutralize_already }

abbrev count_applied : NeutralizeCounters → NeutralizeCounters
count_applied c = record c { global_neutralize_applied = inc c.global_neutralize_applied }

abbrev count_write_failure : NeutralizeCounters → NeutralizeCounters
count_write_failure c = record c {
  global_neutralize_write_failures = inc c.global_neutralize_write_failures;
}

-- After the write of the neutral team.
unfoldable pub finish_neutralize : ProbeWorld → Option Memory → ProbeWorld
finish_neutralize w none = on_neutralize count_write_failure w
finish_neutralize w (some m) = record (on_neutralize count_applied w) { memory = m }

-- From the read of the team on.
unfoldable pub neutralize_team : Process → ProbeWorld → ℕ → Option ℕ → ProbeWorld
neutralize_team p w entity none = on_neutralize count_invalid_team w
neutralize_team p w entity (some original) =
    let counted = on_neutralize (count_original_team original) w in
    let neutral = w.probe.settings.global_neutralize_team in
    if original == neutral
    then on_neutralize count_already counted
    else if ltb 0xff neutral
    then on_neutralize count_write_failure counted
    else finish_neutralize counted (safe_write_team p counted.memory entity neutral)

-- `enabled == 0 || global_neutralize_enabled == 0`
unfoldable pub is_neutralize_off : ProbeWorld → Bool
is_neutralize_off w =
    w.probe.settings.enabled == 0 || w.probe.settings.global_neutralize_enabled == 0

unfoldable pub maybe_global_neutralize_entity : Process → ProbeWorld → ℕ → ProbeWorld
maybe_global_neutralize_entity p w entity =
    let attempted = on_neutralize count_attempt w in
    if is_neutralize_off w
    then w
    else if entity == 0
    then on_neutralize count_null attempted
    else neutralize_team p attempted entity (safe_read_team p w.memory entity)
