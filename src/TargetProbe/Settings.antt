-- ===== src/TargetProbe/Settings.antt =====
-- What native/dwrt-host/dwrt_target_probe.cpp takes from the environment, and the tests of it.
use dwrt.Prelude.{
  ℕ, ◌+◌, ◌-◌, ◌*◌, Bool, not, ◌&&◌, ◌||◌, Option, none, some, List, [], ◌∷◌, leb, ltb, ◌==◌,
  if◌then◌else◌, get_or, codes, text_among, map,
}
use dwrt.Environment.{GetVariable, read_variable, env_flag_enabled, negate, saturate}
use dwrt.Scanner.Compile.{skip_space}
use dwrt.TargetProbe.Counters.{ProbeSettings, invalid_team}
use dwrt.TargetProbe.State.{TargetProbeState}

-- The text of a buffer, up to its first zero.
unfoldable pub c_text : List ℕ → List ℕ
c_text [] = []
c_text (c ∷ cs) = if c == 0 then [] else c ∷ c_text cs

abbrev lower : ℕ → ℕ
lower c = if leb b'A' c && leb c b'Z' then c + 32 else c

-- `_wcsicmp(buffer, text) == 0` against one of some lower-case texts.
unfoldable pub is_text_among : List ℕ → List (List ℕ) → Bool
is_text_among buffer texts = text_among (map lower (c_text buffer)) texts

-- The value of a digit, which is 36 for what is none.
unfoldable pub digit_value : ℕ → ℕ
digit_value c =
    if leb b'0' c && leb c b'9'
    then c - b'0'
    else if leb b'a' (lower c) && leb (lower c) b'z'
    then lower c - 87
    else 36

-- The digits of a base at the start of a text, after `value` for those before.
unfoldable pub digits_from : ℕ → ℕ → List ℕ → ℕ
digits_from base value [] = value
digits_from base value (c ∷ cs) =
    if ltb (digit_value c) base then digits_from base (value * base + digit_value c) cs else value

-- A number of a base; no digit is no conversion.
unfoldable pub unsigned_of_base : ℕ → List ℕ → Option ℕ
unsigned_of_base base text =
    if ltb (digit_value (get_or text 0 0)) base then some (digits_from base 0 text) else none

-- Whether `0x` and a hexadecimal digit stand first.
unfoldable pub is_hex_start : List ℕ → Bool
is_hex_start text =
    get_or text 0 0 == b'0'
    && (lower (get_or text 1 0) == b'x' && ltb (digit_value (get_or text 2 0)) 16)

abbrev drop_two : List ℕ → List ℕ
drop_two (a ∷ b ∷ cs) = cs
drop_two _ = []

-- Base 0: the prefix tells the base.
unfoldable pub unsigned_of_prefix : List ℕ → Option ℕ
unsigned_of_prefix text =
    if is_hex_start text
    then unsigned_of_base 16 (drop_two text)
    else if get_or text 0 0 == b'0'
    then unsigned_of_base 8 text
    else unsigned_of_base 10 text

unfoldable pub signed_of_prefix : List ℕ → Option ℕ
signed_of_prefix [] = none
signed_of_prefix (c ∷ cs) =
    if c == b'-'
    then negate (unsigned_of_prefix cs)
    else if c == b'+'
    then saturate (unsigned_of_prefix cs)
    else saturate (unsigned_of_prefix (c ∷ cs))

-- `std::wcstoul(buffer, &end, 0)`; `none` is `end == buffer`.
unfoldable pub parse_ulong_prefixed : List ℕ → Option ℕ
parse_ulong_prefixed buffer = signed_of_prefix (skip_space buffer)

-- `if (end == buffer || parsed > limit) return fallback;`
unfoldable pub parsed_or : ℕ → ℕ → List ℕ → ℕ
parsed_or limit fallback buffer = elim (parse_ulong_prefixed buffer) [
  | none ↦ fallback
  | some v ↦ if ltb limit v then fallback else v
]

unfoldable pub spoof_team_of : ℕ → List ℕ → ℕ
spoof_team_of fallback buffer =
    if is_text_among buffer (codes "opposing" ∷ [])
    then invalid_team
    else if is_text_among buffer (codes "neutral" ∷ [])
    then 0
    else parsed_or 0xff fallback buffer

unfoldable pub classifier_bit_of : ℕ → List ℕ → ℕ
classifier_bit_of fallback buffer =
    if is_text_among buffer (codes "enemy_hero" ∷ codes "enemy-hero" ∷ [])
    then 8
    else if is_text_among buffer (codes "boss_enemy" ∷ codes "boss-enemy" ∷ codes "midboss" ∷ [])
    then 10
    else if is_text_among buffer (codes "neutral" ∷ [])
    then 16
    else parsed_or 31 fallback buffer

unfoldable pub team_of_text : ℕ → List ℕ → ℕ
team_of_text fallback buffer =
    if is_text_among buffer (codes "neutral" ∷ codes "team4" ∷ [])
    then 4
    else if is_text_among buffer (codes "zero" ∷ codes "team0" ∷ [])
    then 0
    else parsed_or 0xff fallback buffer

abbrev value_or : ℕ → (List ℕ → ℕ) → Option (List ℕ) → ℕ
value_or fallback f none = fallback
value_or fallback f (some buffer) = f buffer

unfoldable pub env_u32_or : GetVariable → List ℕ → ℕ → ℕ
env_u32_or get name fallback =
    value_or fallback (spoof_team_of fallback) (read_variable get name 32)

unfoldable pub env_classifier_bit_or : GetVariable → List ℕ → ℕ → ℕ
env_classifier_bit_or get name fallback =
    value_or fallback (classifier_bit_of fallback) (read_variable get name 32)

unfoldable pub env_team_or : GetVariable → List ℕ → ℕ → ℕ
env_team_or get name fallback =
    value_or fallback (team_of_text fallback) (read_variable get name 32)

abbrev flag_of : GetVariable → List ℕ → ℕ
flag_of get name = if env_flag_enabled get name then 1 else 0

-- The stores of `configure_target_probe_from_environment`.
unfoldable pub settings_from_environment : GetVariable → ProbeSettings
settings_from_environment get = record {
  enabled = if env_flag_enabled get (codes "DWRT_DISABLE_TARGET_PROBE") then 0 else 1;
  source_team_spoof_enabled =
      if env_flag_enabled get (codes "DWRT_TARGET_PROBE_SOURCE_TEAM_SPOOF")
        || env_flag_enabled get (codes "DWRT_SOURCE_TEAM_SPOOF_EXPERIMENT")
      then 1
      else 0;
  target_team_spoof_enabled = flag_of get (codes "DWRT_TARGET_PROBE_TARGET_TEAM_SPOOF");
  target_team_spoof_team =
      env_u32_or get (codes "DWRT_TARGET_PROBE_TARGET_TEAM_SPOOF_TEAM") invalid_team;
  target_bitset_allow_enabled = flag_of get (codes "DWRT_TARGET_PROBE_ALLOW_TARGET_BITSET");
  force_filter_same_team_allow_enabled =
      flag_of get (codes "DWRT_TARGET_PROBE_FORCE_FILTER_SAME_TEAM_ALLOW");
  force_caller_same_team_allow_enabled =
      flag_of get (codes "DWRT_TARGET_PROBE_FORCE_CALLER_SAME_TEAM_ALLOW");
  force_filter_objective_allow_enabled =
      flag_of get (codes "DWRT_TARGET_PROBE_FORCE_FILTER_OBJECTIVE_ALLOW");
  force_caller_objective_allow_enabled =
      flag_of get (codes "DWRT_TARGET_PROBE_FORCE_CALLER_OBJECTIVE_ALLOW");
  force_secondary_allow_enabled = flag_of get (codes "DWRT_TARGET_PROBE_FORCE_SECONDARY_ALLOW");
  neutral_simulation_enabled = flag_of get (codes "DWRT_TARGET_PROBE_NEUTRAL_SIMULATION");
  classifier_spoof_enabled = flag_of get (codes "DWRT_TARGET_PROBE_CLASSIFIER_SPOOF");
  classifier_spoof_bit =
      env_classifier_bit_or get (codes "DWRT_TARGET_PROBE_CLASSIFIER_SPOOF_BIT") 8;
  global_neutralize_enabled = flag_of get (codes "DWRT_TARGET_PROBE_GLOBAL_NEUTRALIZE");
  global_neutralize_team = env_team_or get (codes "DWRT_TARGET_PROBE_GLOBAL_NEUTRAL_TEAM") 4;
}

unfoldable pub configure_target_probe_from_environment :
    GetVariable → TargetProbeState → TargetProbeState
configure_target_probe_from_environment get s = record s {
  settings = settings_from_environment get;
}

-- A switch that the neutral simulation turns on as well.
abbrev or_neutral : ProbeSettings → ℕ → Bool
or_neutral s flag = not (flag == 0) || not (s.neutral_simulation_enabled == 0)

unfoldable pub target_bitset_allow_enabled : ProbeSettings → Bool
target_bitset_allow_enabled s = or_neutral s s.target_bitset_allow_enabled

unfoldable pub force_filter_same_team_allow_enabled : ProbeSettings → Bool
force_filter_same_team_allow_enabled s = or_neutral s s.force_filter_same_team_allow_enabled

unfoldable pub force_caller_same_team_allow_enabled : ProbeSettings → Bool
force_caller_same_team_allow_enabled s = or_neutral s s.force_caller_same_team_allow_enabled

unfoldable pub force_filter_objective_allow_enabled : ProbeSettings → Bool
force_filter_objective_allow_enabled s = or_neutral s s.force_filter_objective_allow_enabled

unfoldable pub force_caller_objective_allow_enabled : ProbeSettings → Bool
force_caller_objective_allow_enabled s = or_neutral s s.force_caller_objective_allow_enabled

unfoldable pub force_secondary_allow_enabled : ProbeSettings → Bool
force_secondary_allow_enabled s = or_neutral s s.force_secondary_allow_enabled

unfoldable pub opposing_team : ℕ → ℕ
opposing_team team = if team == 2 then 3 else if team == 3 then 2 else 0

unfoldable pub configured_target_spoof_team : ProbeSettings → ℕ → ℕ
configured_target_spoof_team s source_team =
    if leb s.target_team_spoof_team 0xff
    then s.target_team_spoof_team
    else opposing_team source_team
