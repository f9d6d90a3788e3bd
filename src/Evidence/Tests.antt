-- ===== src/Evidence/Tests.antt =====
-- A short trace: A plays, B replaces it, and its end follows within the window.
use lofi_bot.Prelude.{
  ℕ, ◌+◌, ◌*◌, ◌≡◌, refl, Bool, true, false, List, [], ◌∷◌, Option, none, some, if◌then◌else◌, ◌==◌,
}
use lofi_bot.Prelude.Text.{Text, codes, text_eq}
use lofi_bot.Evidence.Records.{
  min_max_trace_bytes, min_max_duration, max_frame_bytes, correlation_window, event_subscriptions,
  second, header, settings_changed, media_action, settings_snapshot, playback_ended, stopped,
  input_settings_changed, media_input_action_triggered, media_input_playback_ended, restart,
  Trigger, on_restart, ended_immediate, ended_settle, signal, Record, safe_revision,
  validate_safe_name, validate_basename, valid_mapped, supported_obs_websocket_version,
}
use lofi_bot.Evidence.Search.{Verdict, find_correlation}
use lofi_bot.Evidence.Checks.{
  contains_key, contains_all, specific_keys, record_fields_allowed, validate_header,
  validate_body_record, valid_snapshot_trigger,
}
use lofi_bot.Evidence.Verify.{
  line_ok, sequence_ok, check_line, check_lines, check_trace, without_newline, verify_trace, passes,
}
use lofi_bot.Evidence.Writer.{
  bare, FileWrite, took_line, took_part, TraceWriter, new_trace_writer, close, written,
  write_locked, safe_stop_reason, elapsed_since, write,
}
use lofi_bot.Evidence.Accepted.{IsAccepted, verify_trace-IsAccepted}
use lofi_bot.Evidence.Bookkeeping.{Use, writes, Books, use_once, use_all, use_all-Books}
use lofi_bot.Evidence.Closing.{IsStop, close-IsStop}

abbrev track_a : Text
track_a = codes "a.mp4"

abbrev track_b : Text
track_b = codes "b.mp4"

abbrev source_name : Text
source_name = codes "loop"

abbrev at_seq : ℕ → Record → Record
at_seq n r = record r { seq = n; elapsed_ns = n; utc = codes "t"; input = source_name }

abbrev header_line : Record
header_line = at_seq 1 (record (bare header) {
  schema_ok = true;
  tool_ok = true;
  revision = codes "0123456789012345678901234567890123456789";
  modified = some false;
  a_basename = track_a;
  b_basename = track_b;
  obs_websocket_version = codes "5.4.0";
  rpc_version = 1;
  subscriptions = event_subscriptions;
  correlation_window_ns = correlation_window;
  max_bytes = min_max_trace_bytes;
  frame_bytes = max_frame_bytes;
  max_duration_ns = min_max_duration;
})

abbrev restarts_track : ℕ → Text → Record
restarts_track n track = at_seq n (record (bare media_action) {
  event = media_input_action_triggered;
  action = restart;
  basename = track;
})

-- A snapshot, requested at a time and answered at another.
abbrev snapshot_of : ℕ → ℕ → ℕ → ℕ → Trigger → Text → Record
snapshot_of n sent answered related trigger track = record (bare settings_snapshot) {
  seq = n;
  elapsed_ns = answered;
  utc = codes "t";
  input = source_name;
  get_input_settings = true;
  trigger = trigger;
  related_seq = related;
  request_sent_elapsed_ns = sent;
  response_elapsed_ns = answered;
  result = some true;
  code = 100;
  basename = track;
}

abbrev ended_b : Record
ended_b = at_seq 7 (record (bare playback_ended) {
  event = media_input_playback_ended;
  basename = track_b;
  last_restart_seq = 5;
  since_restart_ns = some 2;
})

-- A line is the letter of its record.
abbrev letters : List (ℕ × Record × List Text)
letters =
    let common =
      codes "seq" ∷ codes "utc" ∷ codes "elapsed_ns" ∷ codes "kind" ∷ codes "input" ∷ [] in
    let header_keys =
      codes "schema"
      ∷ codes "tool"
      ∷ codes "revision"
      ∷ codes "modified"
      ∷ codes "a_basename"
      ∷ codes "b_basename"
      ∷ codes "obs_websocket_version"
      ∷ codes "rpc_version"
      ∷ codes "subscriptions"
      ∷ codes "correlation_window_ns"
      ∷ codes "max_bytes"
      ∷ codes "max_frame_bytes"
      ∷ codes "max_duration_ns"
      ∷ common in
    let changed_keys = codes "event" ∷ codes "basename" ∷ common in
    let action_keys = codes "action" ∷ changed_keys in
    let snapshot_keys =
      codes "method"
      ∷ codes "trigger"
      ∷ codes "related_seq"
      ∷ codes "request_sent_elapsed_ns"
      ∷ codes "response_elapsed_ns"
      ∷ codes "result"
      ∷ codes "code"
      ∷ codes "basename"
      ∷ common in
    let ended_keys = codes "last_restart_seq" ∷ codes "since_restart_ns" ∷ changed_keys in
    let stopped_keys =
      codes "reason"
      ∷ codes "records"
      ∷ codes "bytes"
      ∷ codes "seq"
      ∷ codes "utc"
      ∷ codes "elapsed_ns"
      ∷ codes "kind"
      ∷ [] in
    (b'h', header_line, header_keys)
    ∷ (b'a', restarts_track 2 track_a, action_keys)
    ∷ (b's', snapshot_of 3 2 3 2 on_restart track_a, snapshot_keys)
    ∷ (
      b'c',
      at_seq 4
          (record (bare settings_changed) { event = input_settings_changed; basename = track_b }),
      changed_keys,
    )
    ∷ (b'b', restarts_track 5 track_b, action_keys)
    ∷ (b't', snapshot_of 6 5 6 5 on_restart track_b, snapshot_keys)
    ∷ (b'e', ended_b, ended_keys)
    ∷ (b'i', snapshot_of 8 8 9 7 ended_immediate track_b, snapshot_keys)
    ∷ (
      b'l',
      snapshot_of 9 (7 + correlation_window) (8 + correlation_window) 7 ended_settle track_b,
      snapshot_keys,
    )
    ∷ (
      b'x',
      record (bare stopped) {
        seq = 10;
        elapsed_ns = 3 * second;
        utc = codes "t";
        reason = signal;
        records = 9;
        bytes = 18;
      },
      stopped_keys,
    )
    ∷ []

look_up : ℕ → List (ℕ × Record × List Text) → Option (Record × List Text)
look_up c [] = none
look_up c ((d, r, keys) ∷ rest) =
    let later = look_up c rest in if c == d then some (r, keys) else later

decode_letter : Text → Option (Record × List Text)
unfolding look_up
decode_letter (c ∷ []) = look_up c letters
decode_letter _ = none

abbrev any_time : Text → Bool
any_time utc = true

abbrev trace : Text
trace =
    b'h' ∷ 10 ∷ b'a' ∷ 10 ∷ b's' ∷ 10 ∷ b'c' ∷ 10 ∷ b'b' ∷ 10 ∷ b't' ∷ 10 ∷ b'e' ∷ 10 ∷ b'i' ∷ 10
    ∷ b'l' ∷ 10 ∷ b'x' ∷ 10 ∷ []

abbrev expected : Verdict
expected = record {
  a_restart_seq = 2;
  b_restart_seq = 5;
  ended_seq = 7;
  immediate_seq = 8;
  settled_seq = 9;
  delta_ns = 2;
}

trace_passes : verify_trace decode_letter any_time (some trace) ≡ passes expected
unfolding verify_trace decode_letter contains_key contains_all specific_keys record_fields_allowed
    validate_header validate_body_record valid_snapshot_trigger line_ok sequence_ok check_line
    check_lines check_trace without_newline find_correlation text_eq safe_revision
    validate_safe_name validate_basename valid_mapped supported_obs_websocket_version
trace_passes = refl

verify_trace-IsAccepted_example : IsAccepted decode_letter any_time trace expected
verify_trace-IsAccepted_example =
    verify_trace-IsAccepted decode_letter any_time trace expected trace_passes

-- Every record is one letter.
abbrev encode_letter : Record → Option Text
encode_letter r = some (codes "r")

abbrev some_time : ℕ → Text
some_time at = codes "t"

abbrev opened : TraceWriter
opened = record {
  start = 0;
  max_bytes = min_max_trace_bytes;
  bytes = 0;
  seq = 0;
  closed = false;
  lines = [];
  stray = 0;
}

is_opened : new_trace_writer 0 min_max_trace_bytes ≡ some opened
unfolding new_trace_writer
is_opened = refl

abbrev uses : List (FileWrite × ℕ × Use)
uses =
    (took_line, 1, writes (bare settings_changed))
    ∷ (took_part 0, 2, writes (bare media_action))
    ∷ []

-- No byte of the line that the file refused stands in it.
no_stray : (use_all encode_letter some_time opened uses).stray ≡ 0
unfolding use_all use_once write write_locked elapsed_since
no_stray = refl

use_all-Books_example : Books encode_letter some_time (use_all encode_letter some_time opened uses)
use_all-Books_example =
    use_all-Books encode_letter some_time 0 min_max_trace_bytes opened uses is_opened

abbrev last_record : Record
last_record = record (bare stopped) {
  seq = 2;
  utc = codes "t";
  elapsed_ns = 3;
  reason = signal;
  records = 1;
  bytes = 2;
}

closes_well :
    (close encode_letter some_time took_line 3 signal
      (use_all encode_letter some_time opened uses)).1
    ≡ some (written last_record)
unfolding close use_all use_once write write_locked safe_stop_reason elapsed_since
closes_well = refl

close-IsStop_example :
    IsStop encode_letter some_time
      (use_all encode_letter some_time opened uses)
      (close encode_letter some_time took_line 3 signal
        (use_all encode_letter some_time opened uses)).0
      last_record
close-IsStop_example =
    close-IsStop encode_letter some_time 0 min_max_trace_bytes opened uses took_line 3 signal
      last_record is_opened no_stray closes_well
