-- ===== src/Evidence/Writer.antt =====
-- internal/obsevidence/trace.go: TraceWriter.
-- The JSON encoder and the format of a timestamp are parameters. What the file took of a line is an
-- argument: a write that fails may leave a part of its line in the file.
use lofi_bot.Prelude.{
  ℕ, ◌+◌, ◌-◌, ◌/◌, ◌%◌, Bool, true, false, not, min, ◌&&◌, ◌||◌, List, [], ◌∷◌, ◌++◌, Option, none,
  some, ltb, leb, if◌then◌else◌, length,
}
use lofi_bot.Prelude.Text.{Text, text_eq}
use lofi_bot.Evidence.Records.{
  min_max_trace_bytes, max_max_trace_bytes, min_max_duration, max_max_duration, max_frame_bytes,
  correlation_window, event_subscriptions, Kind, header, integrity_failure, stopped, other_event,
  no_known_action, other_trigger, Reason, failure, other_reason, Record, safe_revision,
  validate_safe_name, validate_basename, normalize_obs_websocket_version,
}
use lofi_bot.Prelude.{◌==◌}

pub data WriteError : Type 0 where
  invalid_config trace_closed trace_limit encode_failed write_failed : WriteError

pub data Written : Type 0 where
  written : Record → Written
  refused : WriteError → Written

pub record Header : Type 0 where
  pub revision : Text
  pub modified : Bool
  pub input : Text
  pub a_basename : Text
  pub b_basename : Text
  pub obs_websocket_version : Text
  pub rpc_version : ℕ
  pub max_bytes : ℕ
  pub max_duration : ℕ

-- What a write to the file did: it took the line, or failed with so many bytes of it taken.
pub data FileWrite : Type 0 where
  took_line : FileWrite
  took_part : ℕ → FileWrite

-- The writer, with the lines that its file took, the newest first, and the number of bytes that
-- failed writes left in the file, between or after those lines.
pub record TraceWriter : Type 0 where
  pub start : ℕ
  pub max_bytes : ℕ
  pub bytes : ℕ
  pub seq : ℕ
  pub closed : Bool
  pub lines : List (Record × Text)
  pub stray : ℕ

-- NewTraceWriter, of a path that is absolute and a file that was created.
unfoldable pub new_trace_writer : ℕ → ℕ → Option TraceWriter
new_trace_writer start max_bytes =
    if ltb max_bytes min_max_trace_bytes || ltb max_max_trace_bytes max_bytes
    then none
    else some (record {
      start = start;
      max_bytes = max_bytes;
      bytes = 0;
      seq = 0;
      closed = false;
      lines = [];
      stray = 0;
    })

-- A time before the start is no time after it.
unfoldable pub elapsed_since : ℕ → ℕ → ℕ
elapsed_since start at = at - start

-- A number below 1,000 in decimal.
unfoldable pub decimal : ℕ → Text
decimal n =
    if ltb n 10
    then (b'0' + n) ∷ []
    else if ltb n 100
    then (b'0' + n / 10) ∷ (b'0' + n % 10) ∷ []
    else (b'0' + n / 100) ∷ (b'0' + n / 10 % 10) ∷ (b'0' + n % 10) ∷ []

unfoldable pub print_version : ℕ × ℕ × ℕ → Text
unfolding decimal
print_version (major, minor, patch) =
    decimal major ++ (b'.' ∷ (decimal minor ++ (b'.' ∷ decimal patch)))

-- A record with nothing but its kind.
abbrev pub bare : Kind → Record
bare kind = record {
  schema_ok = false;
  tool_ok = false;
  seq = 0;
  utc = [];
  elapsed_ns = 0;
  kind = kind;
  revision = [];
  modified = none;
  input = [];
  a_basename = [];
  b_basename = [];
  obs_websocket_version = [];
  rpc_version = 0;
  subscriptions = 0;
  correlation_window_ns = 0;
  max_bytes = 0;
  frame_bytes = 0;
  max_duration_ns = 0;
  event = other_event;
  action = no_known_action;
  get_input_settings = false;
  basename = [];
  trigger = other_trigger;
  related_seq = 0;
  request_sent_elapsed_ns = 0;
  response_elapsed_ns = 0;
  result = none;
  code = 0;
  last_restart_seq = 0;
  since_restart_ns = none;
  reason = other_reason;
  records = 0;
  bytes = 0;
}

abbrev pub header_record : Header → Text → Record
header_record h version = record (bare header) {
  schema_ok = true;
  tool_ok = true;
  revision = safe_revision h.revision;
  modified = some h.modified;
  input = h.input;
  a_basename = h.a_basename;
  b_basename = h.b_basename;
  obs_websocket_version = version;
  rpc_version = h.rpc_version;
  subscriptions = event_subscriptions;
  correlation_window_ns = correlation_window;
  max_bytes = h.max_bytes;
  frame_bytes = max_frame_bytes;
  max_duration_ns = h.max_duration;
}

unfoldable pub safe_stop_reason : Reason → Reason
safe_stop_reason other_reason = failure
safe_stop_reason reason = reason

module _ (encode : Record → Option Text) (format_time : ℕ → Text) where
  abbrev pub stamped : ℕ → Record → TraceWriter → Record
  stamped at r w = record r {
    seq = w.seq + 1;
    utc = format_time at;
    elapsed_ns = elapsed_since w.start at;
  }

  abbrev pub put_line : FileWrite → Record → Text → TraceWriter → TraceWriter × Written
  put_line took_line r line w = (
    record w { seq = r.seq; bytes = w.bytes + (length line + 1); lines = (r, line) ∷ w.lines },
    written r,
  )
  put_line (took_part n) r line w =
      (record w { stray = w.stray + min n (length line + 1) }, refused write_failed)

  abbrev pub take_line : FileWrite → Record → Text → TraceWriter → TraceWriter × Written
  take_line file r line w =
      if ltb (w.max_bytes - w.bytes) (length line + 1)
      then (w, refused trace_limit)
      else put_line file r line w

  abbrev pub write_encoded : FileWrite → Record → Option Text → TraceWriter → TraceWriter × Written
  write_encoded file r none w = (w, refused encode_failed)
  write_encoded file r (some line) w = take_line file r line w

  unfoldable pub write_locked : FileWrite → ℕ → Record → TraceWriter → TraceWriter × Written
  unfolding elapsed_since
  write_locked file at r w =
      let result = write_encoded file (stamped at r w) (encode (stamped at r w)) w in
      if w.closed then (w, refused trace_closed) else result

  -- Write takes the lock around this.
  unfoldable pub write : FileWrite → ℕ → Record → TraceWriter → TraceWriter × Written
  unfolding write_locked
  write file at r w = write_locked file at r w

  abbrev pub header_fits : Header → Bool
  header_fits h =
      (validate_safe_name h.input
        && ((validate_basename h.a_basename && validate_basename h.b_basename)
            && not (text_eq h.a_basename h.b_basename)))
      && ((h.rpc_version == 1
            && (leb min_max_trace_bytes h.max_bytes && leb h.max_bytes max_max_trace_bytes))
          && (leb min_max_duration h.max_duration && leb h.max_duration max_max_duration))

  abbrev pub write_version :
      FileWrite → ℕ → Header → Option (ℕ × ℕ × ℕ) → TraceWriter → TraceWriter × Written
  write_version file at h none w = (w, refused invalid_config)
  write_version file at h (some version) w =
      let result = write file at (header_record h (print_version version)) w in
      if header_fits h then result else (w, refused invalid_config)

  unfoldable pub write_header : FileWrite → ℕ → Header → TraceWriter → TraceWriter × Written
  unfolding write print_version safe_revision validate_safe_name validate_basename
      normalize_obs_websocket_version
  write_header file at h w =
      write_version file at h (normalize_obs_websocket_version h.obs_websocket_version) w

  -- None of its reasons is one of a stop.
  unfoldable pub write_integrity_failure : FileWrite → ℕ → TraceWriter → TraceWriter
  unfolding write
  write_integrity_failure file at w = (write file at (bare integrity_failure) w).0

  abbrev pub stopped_record : Reason → TraceWriter → Record
  stopped_record reason w = record (bare stopped) {
    reason = safe_stop_reason reason;
    records = w.seq;
    bytes = w.bytes;
  }

  -- Close, with what became of its record; the errors of closing the file are left out.
  unfoldable pub close : FileWrite → ℕ → Reason → TraceWriter → TraceWriter × Option Written
  unfolding write_locked safe_stop_reason
  close file at reason w =
      let (w', result) = write_locked file at (stopped_record reason w) w in
      if w.closed then (w, none) else (record w' { closed = true }, some result)
