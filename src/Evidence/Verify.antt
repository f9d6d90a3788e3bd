-- ===== src/Evidence/Verify.antt =====
-- internal/obsevidence/verify.go: VerifyTrace, over the bytes of the file.
-- The JSON decoder is a parameter, which gives a line's record and its keys; so is the test of a
-- timestamp. The kinds of records and their keys are tested as the source tests them.
use lofi_bot.Prelude.{
  ℕ, ◌+◌, ◌-◌, ◌*◌, ◌^◌, Bool, true, false, not, ◌&&◌, ◌||◌, List, [], ◌∷◌, Option, none, some, ltb,
  leb, ◌==◌, if◌then◌else◌, length,
}
use lofi_bot.Prelude.Text.{Text}
use lofi_bot.Evidence.Records.{Record, split_on}
use lofi_bot.Evidence.Search.{Verdict, find_correlation, is_restart, is_media_action, is_ended}
use lofi_bot.Evidence.Checks.{
  record_fields_allowed, is_stopped, is_integrity_failure, validate_header, validate_body_record,
}

-- 16 KiB.
abbrev pub max_line_bytes : ℕ
max_line_bytes = 16 * 2 ^ 10

-- The records in their order, before others.
abbrev pub reversed_onto : List Record → List Record → List Record
reversed_onto [] rs = rs
reversed_onto (r ∷ before) rs = reversed_onto before (r ∷ rs)

abbrev pub prepend : ℕ → Option Text → Option Text
prepend c none = none
prepend c (some s) = some (c ∷ s)

-- The file without its last byte, which must be the end of a line.
unfoldable pub without_newline : Text → Option Text
without_newline [] = none
without_newline (c ∷ []) = if c == 10 then some [] else none
without_newline (c ∷ d ∷ cs) = prepend c (without_newline (d ∷ cs))

pub data Outcome : Type 0 where
  passes : Verdict → Outcome
  invalid_trace no_correlation : Outcome

abbrev pub outcome_of : Option Verdict → Outcome
outcome_of none = no_correlation
outcome_of (some v) = passes v

-- What the loop over the lines keeps; the records are in reverse.
pub record Progress : Type 0 where
  pub count : ℕ
  pub first : Record
  pub previous_elapsed : ℕ
  pub seen_restart : Bool
  pub offset : ℕ
  pub records : List Record

abbrev pub restarts : Record → Bool
restarts r = is_media_action r.kind && is_restart r.action

abbrev pub stop_ok : Record → ℕ → Bool → Bool
stop_ok r offset is_last = is_last && (r.records == r.seq - 1 && r.bytes == offset)

-- The checks after a record is valid.
unfoldable pub sequence_ok : Bool → ℕ → Bool → Record → Bool
sequence_ok seen_restart offset is_last r =
    (not (is_ended r.kind && (seen_restart && r.last_restart_seq == 0))
      && (not (is_stopped r.kind) || stop_ok r offset is_last))
    && not (is_integrity_failure r.kind)

abbrev pub is_last_line : List Text → Bool
is_last_line [] = true
is_last_line (line ∷ lines) = false

abbrev pub then_lines : (Progress → Option Progress) → Option Progress → Option Progress
then_lines rest none = none
then_lines rest (some p) = rest p

abbrev pub last_is_stopped : List Record → Bool
last_is_stopped [] = false
last_is_stopped (r ∷ before) = is_stopped r.kind

-- What the trace says, once its lines have passed.
abbrev pub conclude : Option Progress → Outcome
conclude none = invalid_trace
conclude (some p) =
    let found =
      find_correlation (reversed_onto p.records []) p.first.a_basename p.first.b_basename in
    if last_is_stopped p.records then outcome_of found else invalid_trace

module _ (decode : Text → Option (Record × List Text)) (is_time : Text → Bool) where
  -- The checks that every line has in common.
  unfoldable pub line_ok : ℕ → ℕ → Text → Record → List Text → Bool
  unfolding record_fields_allowed
  line_ok seq previous_elapsed line r keys =
      (not (length line == 0 || ltb max_line_bytes (length line))
        && (r.seq == seq && leb previous_elapsed r.elapsed_ns))
      && (is_time r.utc && record_fields_allowed r.kind keys)

  abbrev pub begin_with : Text → Bool → ℕ → Option (Record × List Text) → Option Progress
  begin_with line is_last file_size none = none
  begin_with line is_last file_size (some (r, keys)) =
      if line_ok 1 0 line r keys
        && (validate_header r file_size && sequence_ok (restarts r) 0 is_last r)
      then some (record {
        count = 1;
        first = r;
        previous_elapsed = r.elapsed_ns;
        seen_restart = restarts r;
        offset = length line + 1;
        records = r ∷ [];
      })
      else none

  abbrev pub continue_with : Text → Bool → Progress → Option (Record × List Text) → Option Progress
  continue_with line is_last p none = none
  continue_with line is_last p (some (r, keys)) =
      if line_ok (p.count + 1) p.previous_elapsed line r keys
        && (validate_body_record r p.first
            && sequence_ok (p.seen_restart || restarts r) p.offset is_last r)
      then some (record p {
        count = p.count + 1;
        previous_elapsed = r.elapsed_ns;
        seen_restart = p.seen_restart || restarts r;
        offset = p.offset + (length line + 1);
        records = r ∷ p.records;
      })
      else none

  -- A line after the first.
  unfoldable pub check_line : Text → Bool → Progress → Option Progress
  unfolding line_ok validate_body_record sequence_ok
  check_line line is_last p = continue_with line is_last p (decode line)

  unfoldable pub check_lines : List Text → Progress → Option Progress
  unfolding check_line
  check_lines [] p = some p
  check_lines (line ∷ lines) p =
      then_lines (λ q. check_lines lines q) (check_line line (is_last_line lines) p)

  unfoldable pub check_trace : List Text → ℕ → Option Progress
  unfolding check_lines line_ok validate_header sequence_ok
  check_trace [] file_size = none
  check_trace (line ∷ []) file_size = none
  check_trace (line ∷ next ∷ lines) file_size =
      then_lines (λ p. check_lines (next ∷ lines) p) (begin_with line false file_size (decode line))

  abbrev pub on_lines : ℕ → Option Text → Outcome
  on_lines file_size none = invalid_trace
  on_lines file_size (some s) = conclude (check_trace (split_on 10 s) file_size)

  -- The bytes are those that reading the file gave, none where that failed.
  unfoldable pub verify_trace : Option Text → Outcome
  unfolding check_trace without_newline find_correlation split_on
  verify_trace none = invalid_trace
  verify_trace (some data_) = on_lines (length data_) (without_newline data_)
