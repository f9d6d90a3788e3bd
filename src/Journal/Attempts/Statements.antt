-- ===== src/Journal/Attempts/Statements.antt =====
-- internal/journalstore/journal.go: the statements that the operations on an attempt share.
use lofi_bot.Prelude.{
  ℕ, Bool, not, ◌&&◌, [], Option, none, some, ltb, leb, ◌==◌, if◌then◌else◌, update_where,
  count_where, find_key,
}
use lofi_bot.Prelude.Text.{Text, text_eq}
use lofi_bot.Journal.Rows.{
  Time, running, dead, status_eq, is_terminal, null, Checkpoint, Attempt, Db, checkpoint_missing,
  no_active_attempt, Result, ok, err, ◌>>=◌, ◌>>◌, guard,
}

abbrev pub attempt_id : Attempt → ℕ
attempt_id r = r.update_id

unfoldable pub find_attempt : Db → ℕ → Option Attempt
find_attempt db id = find_key attempt_id id db.attempts

unfoldable pub require_checkpoint_row : Option Checkpoint → Result (Unit {0})
require_checkpoint_row none = err checkpoint_missing
require_checkpoint_row (some c) = ok tt

unfoldable pub require_single : ℕ → Result (Unit {0})
require_single n = guard (n == 1) no_active_attempt

-- UPDATE … WHERE update_id = ? AND q, which must affect one row.
unfoldable pub update_attempt : ℕ → (Attempt → Bool) → (Attempt → Attempt) → Db → Result Db
unfolding require_single
update_attempt id q f db = do
  require_single (count_where (λ r. attempt_id r == id && q r) db.attempts)
  ok (record db { attempts = update_where (λ r. attempt_id r == id && q r) f db.attempts })

abbrev pub is_open : Attempt → Bool
is_open r = not (is_terminal r.status)

abbrev pub is_owned : Text → Attempt → Bool
is_owned token r = status_eq r.status running && text_eq r.owner_token token

unfoldable pub advanced : ℕ → Time → Checkpoint → Checkpoint
advanced next now c = record c {
  next_offset = if ltb c.next_offset next then next else c.next_offset;
  updated_at = now;
}

unfoldable pub advance_row : ℕ → Time → Option Checkpoint → Result Checkpoint
unfolding advanced
advance_row next now none = err checkpoint_missing
advance_row next now (some c) =
    if leb c.confirmed_offset next then ok (advanced next now c) else err checkpoint_missing

unfoldable pub advance_next_offset : ℕ → Time → Db → Result Db
unfolding advance_row
advance_next_offset next now db = do
  c ← advance_row next now db.checkpoint
  ok (record db { checkpoint = some c })

unfoldable pub dead_row : ℕ → Text → Time → Attempt → Attempt
dead_row failures cause now r = record r {
  failure_count = failures;
  status = dead;
  owner_token = [];
  lease_until = null;
  last_error = cause;
  updated_at = now;
  finished_at = some now;
}

unfoldable pub mark_dead : ℕ → ℕ → Text → Time → Db → Result Db
unfolding update_attempt dead_row
mark_dead id failures cause now db = update_attempt id is_open (dead_row failures cause now) db
