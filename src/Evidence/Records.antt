-- ===== src/Evidence/Records.antt =====
-- internal/obsevidence/trace.go: the records of a trace, and the names that may stand in it.
-- A string of which the code only tests certain values is a data type with a constructor for any
-- other. A signed number is a natural one: each check refuses a record with a negative number.
use lofi_bot.Prelude.{
  ℕ, ◌+◌, ◌-◌, ◌*◌, ◌^◌, Bool, true, false, not, ◌&&◌, ◌||◌, List, [], ◌∷◌, Option, none, some, ltb,
  leb, ◌==◌, if◌then◌else◌, length,
}
use lofi_bot.Prelude.Text.{Text, codes, text_eq}

abbrev pub min_max_trace_bytes : ℕ
min_max_trace_bytes = 64 * 2 ^ 10

abbrev pub max_max_trace_bytes : ℕ
max_max_trace_bytes = 4 * 2 ^ 20

abbrev pub second : ℕ
second = 1000000000

abbrev pub min_max_duration : ℕ
min_max_duration = 60 * second

abbrev pub max_max_duration : ℕ
max_max_duration = 3600 * second

abbrev pub max_frame_bytes : ℕ
max_frame_bytes = 2 ^ 20

abbrev pub correlation_window : ℕ
correlation_window = 2 * second

abbrev pub other_basename : Text
other_basename = codes "other"

-- The bits 3 and 8: inputs and media inputs.
abbrev pub event_subscriptions : ℕ
event_subscriptions = 2 ^ 3 + 2 ^ 8

pub data Kind : Type 0 where
  header settings_changed media_action settings_snapshot playback_ended integrity_failure stopped :
      Kind
  other_kind : Kind

pub data Event : Type 0 where
  input_settings_changed media_input_action_triggered media_input_playback_ended other_event : Event

pub data Action : Type 0 where
  restart stop other no_known_action : Action

pub data Trigger : Type 0 where
  initial on_settings_changed on_restart ended_immediate ended_settle other_trigger : Trigger

pub data Reason : Type 0 where
  signal completed failure other_reason : Reason

-- Go's struct, with the fields that a record leaves out at their zero values.
pub record Record : Type 0 where
  pub schema_ok : Bool
  pub tool_ok : Bool
  pub seq : ℕ
  pub utc : Text
  pub elapsed_ns : ℕ
  pub kind : Kind
  pub revision : Text
  pub modified : Option Bool
  pub input : Text
  pub a_basename : Text
  pub b_basename : Text
  pub obs_websocket_version : Text
  pub rpc_version : ℕ
  pub subscriptions : ℕ
  pub correlation_window_ns : ℕ
  pub max_bytes : ℕ
  pub frame_bytes : ℕ
  pub max_duration_ns : ℕ
  pub event : Event
  pub action : Action
  pub get_input_settings : Bool
  pub basename : Text
  pub trigger : Trigger
  pub related_seq : ℕ
  pub request_sent_elapsed_ns : ℕ
  pub response_elapsed_ns : ℕ
  pub result : Option Bool
  pub code : ℕ
  pub last_restart_seq : ℕ
  pub since_restart_ns : Option ℕ
  pub reason : Reason
  pub records : ℕ
  pub bytes : ℕ

unfoldable pub is_revision_byte : ℕ → Bool
is_revision_byte c = leb b'0' c && leb c b'9' || (leb b'a' c && leb c b'f')

unfoldable pub all_bytes : (ℕ → Bool) → Text → Bool
all_bytes p [] = true
all_bytes p (c ∷ cs) = let rest = all_bytes p cs in p c && rest

abbrev pub unknown : Text
unknown = codes "unknown"

unfoldable pub safe_revision : Text → Text
unfolding is_revision_byte all_bytes
safe_revision value =
    if not (length value == 40) && not (length value == 64)
    then unknown
    else if all_bytes is_revision_byte value
    then value
    else unknown

-- A rune beyond ASCII is refused, and so is each byte of it.
unfoldable pub is_name_byte : ℕ → Bool
is_name_byte c =
    (leb b'a' c && leb c b'z' || leb b'A' c && leb c b'Z')
    || ((leb b'0' c && leb c b'9') || (c == b'_' || (c == b'-' || c == b'.')))

unfoldable pub validate_safe_name : Text → Bool
unfolding is_name_byte all_bytes
validate_safe_name value =
    not (length value == 0 || ltb 128 (length value)) && all_bytes is_name_byte value

-- A safe name has no slash or backslash, so it is its own leaf unless it is a dot or two.
unfoldable pub validate_basename : Text → Bool
unfolding validate_safe_name
validate_basename value =
    validate_safe_name value && not (text_eq value (codes ".") || text_eq value (codes ".."))

unfoldable pub valid_mapped : Text → Text → Text → Bool
valid_mapped a b value = text_eq value a || (text_eq value b || text_eq value other_basename)

-- The first part, up to a `-` or a `+`.
unfoldable pub version_core : Text → Text
version_core [] = []
version_core (c ∷ cs) =
    let rest = version_core cs in if c == b'-' || c == b'+' then [] else c ∷ rest

abbrev pub extend_part : ℕ → List Text → List Text
extend_part c [] = (c ∷ []) ∷ []
extend_part c (part ∷ parts) = (c ∷ part) ∷ parts

unfoldable pub split_on : ℕ → Text → List Text
split_on sep [] = [] ∷ []
split_on sep (c ∷ cs) =
    let rest = split_on sep cs in if c == sep then [] ∷ rest else extend_part c rest

-- strconv.Atoi, of a text that has no sign, bounded by 999.
unfoldable pub digits_value : ℕ → Text → Option ℕ
digits_value n [] = some n
digits_value n (c ∷ cs) =
    let rest = digits_value (n * 10 + (c - b'0')) cs in
    if leb b'0' c && leb c b'9' then rest else none

abbrev pub bounded_part : Option ℕ → Option ℕ
bounded_part none = none
bounded_part (some n) = if ltb 999 n then none else some n

unfoldable pub version_part : Text → Option ℕ
unfolding digits_value
version_part [] = none
version_part (c ∷ cs) = bounded_part (digits_value 0 (c ∷ cs))

abbrev pub supported : Option ℕ → Option ℕ → Option ℕ → Option (ℕ × ℕ × ℕ)
supported (some major) (some minor) (some patch) =
    if not (major == 5)
    then if ltb major 6 then none else some (major, minor, patch)
    else if ltb minor 4
    then none
    else some (major, minor, patch)
supported _ _ _ = none

abbrev pub three_parts : List Text → Option (ℕ × ℕ × ℕ)
three_parts (a ∷ b ∷ c ∷ []) = supported (version_part a) (version_part b) (version_part c)
three_parts _ = none

-- The numbers of the version, which are printed with dots between them.
unfoldable pub normalize_obs_websocket_version : Text → Option (ℕ × ℕ × ℕ)
unfolding version_core split_on version_part
normalize_obs_websocket_version value = three_parts (split_on b'.' (version_core value))

abbrev pub is_some : {A : Type 0} → Option A → Bool
is_some none = false
is_some (some a) = true

unfoldable pub supported_obs_websocket_version : Text → Bool
unfolding normalize_obs_websocket_version
supported_obs_websocket_version value = is_some (normalize_obs_websocket_version value)
