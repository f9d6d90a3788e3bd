-- ===== src/Evidence/Checks.antt =====
-- internal/obsevidence/verify.go: the checks of one record, by its kind.
use lofi_bot.Prelude.{
  ℕ, Bool, true, false, not, ◌&&◌, ◌||◌, List, [], ◌∷◌, ◌++◌, Option, none, some, ltb, leb, ◌==◌,
  if◌then◌else◌,
}
use lofi_bot.Prelude.Text.{Text, codes, text_eq}
use lofi_bot.Evidence.Records.{
  min_max_trace_bytes, max_max_trace_bytes, min_max_duration, max_max_duration, max_frame_bytes,
  correlation_window, event_subscriptions, Kind, header, settings_changed, media_action,
  settings_snapshot, playback_ended, integrity_failure, stopped, other_kind, Event,
  input_settings_changed, media_input_action_triggered, media_input_playback_ended, Action,
  no_known_action, Trigger, initial, other_trigger, Reason, signal, completed, Record,
  safe_revision, unknown, validate_safe_name, validate_basename, valid_mapped,
  supported_obs_websocket_version,
}

unfoldable pub contains_key : List Text → Text → Bool
contains_key [] key = false
contains_key (k ∷ ks) key = let rest = contains_key ks key in text_eq k key || rest

unfoldable pub contains_all : List Text → List Text → Bool
unfolding contains_key
contains_all keys [] = true
contains_all keys (k ∷ ks) = let rest = contains_all keys ks in contains_key keys k && rest

abbrev pub common_keys : List Text
common_keys = codes "seq" ∷ codes "utc" ∷ codes "elapsed_ns" ∷ codes "kind" ∷ []

-- The keys that a kind may have besides, and those of them that it must have.
unfoldable pub specific_keys : Kind → Option (List Text × List Text)
specific_keys header =
    let keys =
      codes "schema"
      ∷ codes "tool"
      ∷ codes "revision"
      ∷ codes "modified"
      ∷ codes "input"
      ∷ codes "a_basename"
      ∷ codes "b_basename"
      ∷ codes "obs_websocket_version"
      ∷ codes "rpc_version"
      ∷ codes "subscriptions"
      ∷ codes "correlation_window_ns"
      ∷ codes "max_bytes"
      ∷ codes "max_frame_bytes"
      ∷ codes "max_duration_ns"
      ∷ [] in
    some (keys, keys)
specific_keys settings_changed =
    let keys = codes "event" ∷ codes "input" ∷ codes "basename" ∷ [] in some (keys, keys)
specific_keys media_action =
    let keys = codes "event" ∷ codes "input" ∷ codes "action" ∷ codes "basename" ∷ [] in
    some (keys, keys)
specific_keys settings_snapshot = some (
  codes "method"
      ∷ codes "input"
      ∷ codes "trigger"
      ∷ codes "related_seq"
      ∷ codes "request_sent_elapsed_ns"
      ∷ codes "response_elapsed_ns"
      ∷ codes "result"
      ∷ codes "code"
      ∷ codes "basename"
      ∷ [],
  codes "method"
      ∷ codes "input"
      ∷ codes "trigger"
      ∷ codes "request_sent_elapsed_ns"
      ∷ codes "response_elapsed_ns"
      ∷ codes "result"
      ∷ [],
)
specific_keys playback_ended = some (
  codes "event"
      ∷ codes "input"
      ∷ codes "basename"
      ∷ codes "last_restart_seq"
      ∷ codes "since_restart_ns"
      ∷ [],
  codes "event" ∷ codes "input" ∷ codes "basename" ∷ [],
)
specific_keys integrity_failure = let keys = codes "reason" ∷ [] in some (keys, keys)
specific_keys stopped =
    let keys = codes "reason" ∷ codes "records" ∷ codes "bytes" ∷ [] in some (keys, keys)
specific_keys other_kind = none

abbrev pub keys_allowed : List Text → Option (List Text × List Text) → Bool
keys_allowed actual none = false
keys_allowed actual (some (specific, required)) =
    contains_all (common_keys ++ specific) actual
    && (contains_all actual common_keys && contains_all actual required)

unfoldable pub record_fields_allowed : Kind → List Text → Bool
unfolding specific_keys contains_all
record_fields_allowed kind actual = keys_allowed actual (specific_keys kind)

abbrev pub is_header : Kind → Bool
is_header header = true
is_header _ = false

abbrev pub is_stopped : Kind → Bool
is_stopped stopped = true
is_stopped _ = false

abbrev pub is_integrity_failure : Kind → Bool
is_integrity_failure integrity_failure = true
is_integrity_failure _ = false

abbrev pub is_unmodified : Option Bool → Bool
is_unmodified (some false) = true
is_unmodified _ = false

unfoldable pub validate_header : Record → ℕ → Bool
unfolding safe_revision validate_safe_name validate_basename supported_obs_websocket_version
validate_header r file_size =
    ((is_header r.kind && (r.schema_ok && r.tool_ok))
      && (is_unmodified r.modified
          && (not (text_eq r.revision unknown) && text_eq (safe_revision r.revision) r.revision)))
    && (((validate_safe_name r.input
            && (validate_basename r.a_basename && validate_basename r.b_basename))
          && (not (text_eq r.a_basename r.b_basename)
              && supported_obs_websocket_version r.obs_websocket_version))
        && (((r.rpc_version == 1 && r.subscriptions == event_subscriptions)
              && (r.correlation_window_ns == correlation_window && leb file_size r.max_bytes))
            && ((leb min_max_trace_bytes r.max_bytes && leb r.max_bytes max_max_trace_bytes)
                && (r.frame_bytes == max_frame_bytes
                    && (leb min_max_duration r.max_duration_ns
                        && leb r.max_duration_ns max_max_duration)))))

abbrev pub is_event_settings_changed : Event → Bool
is_event_settings_changed input_settings_changed = true
is_event_settings_changed _ = false

abbrev pub is_event_action : Event → Bool
is_event_action media_input_action_triggered = true
is_event_action _ = false

abbrev pub is_event_ended : Event → Bool
is_event_ended media_input_playback_ended = true
is_event_ended _ = false

abbrev pub is_known_action : Action → Bool
is_known_action no_known_action = false
is_known_action _ = true

unfoldable pub valid_snapshot_trigger : Trigger → Bool
valid_snapshot_trigger other_trigger = false
valid_snapshot_trigger _ = true

abbrev pub related_ok : Trigger → Record → Bool
related_ok initial r = r.related_seq == 0
related_ok _ r = not (r.related_seq == 0) && ltb r.related_seq r.seq

abbrev pub succeeded_ok : Option Bool → Bool
succeeded_ok (some true) = true
succeeded_ok _ = false

abbrev pub is_missing : Option ℕ → Bool
is_missing none = true
is_missing (some n) = false

abbrev pub is_stop_reason : Reason → Bool
is_stop_reason signal = true
is_stop_reason completed = true
is_stop_reason _ = false

-- The header's names are valid when this is called, so the mapper is made.
unfoldable pub validate_body_record : Record → Record → Bool
unfolding valid_mapped valid_snapshot_trigger
validate_body_record r h =
    let mapped = valid_mapped h.a_basename h.b_basename r.basename in
    let common = text_eq r.input h.input && mapped in
    elim r.kind [
      | settings_changed ↦ is_event_settings_changed r.event && common
      | media_action ↦ is_event_action r.event && (common && is_known_action r.action)
      | settings_snapshot ↦
          ((r.get_input_settings && text_eq r.input h.input)
            && (r.response_elapsed_ns == r.elapsed_ns
                && leb r.request_sent_elapsed_ns r.response_elapsed_ns))
          && ((valid_snapshot_trigger r.trigger && related_ok r.trigger r)
              && (succeeded_ok r.result && (r.code == 100 && mapped)))
      | playback_ended ↦
          (is_event_ended r.event && (common && ltb r.last_restart_seq r.seq))
          && (if r.last_restart_seq == 0
              then is_missing r.since_restart_ns
              else not (is_missing r.since_restart_ns))
      | stopped ↦ is_stop_reason r.reason
      | _ ↦ false
    ]
