-- ===== src/Journal/Attempts/Finish.antt =====
-- internal/journalstore/journal.go: CompleteUpdateAttempt, AbortUpdateAttempt, FailUpdateAttempt.
use lofi_bot.Prelude.{
  ℕ, ◌+◌, Bool, true, false, not, ◌&&◌, [], Option, none, some, ltb, leb, ◌==◌, if◌then◌else◌,
  length, update_where, count_where,
}
use lofi_bot.Prelude.Int.{ℤ, pos, negsuc, pos_part, ltb_ℤ}
use lofi_bot.Prelude.Text.{Text}
use lofi_bot.Journal.Rows.{
  Time, Status, pending, stuck, failed, done, Lease, null, until, Attempt, Db, max_error_bytes,
  bad_owner_token, bad_threshold, lease_not_future, no_rows, cause_too_long, negative_id, Result,
  ok, err, ◌>>=◌, ◌>>◌, guard, transact,
}
use lofi_bot.Journal.Labels.{validate_update_transition, owner_token_fits}
use lofi_bot.Journal.Attempts.Statements.{
  attempt_id, find_attempt, require_checkpoint_row, require_single, update_attempt, is_owned,
  advance_next_offset, mark_dead,
}

unfoldable pub done_row : Time → Attempt → Attempt
done_row now r = record r {
  status = done;
  owner_token = [];
  lease_until = null;
  last_error = [];
  updated_at = now;
  finished_at = some now;
}

unfoldable pub complete_tx : ℤ → ℤ → Text → Time → Db → Result (Unit {0} × Db)
unfolding update_attempt done_row advance_next_offset
complete_tx update_id next_offset token now db = do
  validate_update_transition update_id next_offset
  guard (owner_token_fits token) bad_owner_token
  db' ← update_attempt (pos_part update_id) (is_owned token) (done_row now) db
  db'' ← advance_next_offset (pos_part next_offset) now db'
  ok (tt, db'')

unfoldable pub complete_update_attempt : ℤ → ℤ → Text → Time → Db → Db × Result (Unit {0})
unfolding complete_tx
complete_update_attempt update_id next_offset token now db =
    transact db (complete_tx update_id next_offset token now db)

unfoldable pub pending_row : Time → Attempt → Attempt
pending_row now r = record r {
  status = pending;
  owner_token = [];
  lease_until = null;
  last_error = [];
  updated_at = now;
  finished_at = none;
}

-- One statement with no transaction: it stands also where the count of rows is then refused.
unfoldable pub abort_checked : ℕ → Text → Time → Db → Db × Result (Unit {0})
unfolding require_single pending_row
abort_checked id token now db = (
  record db {
    attempts =
        update_where (λ r. attempt_id r == id && is_owned token r) (pending_row now) db.attempts;
  },
  require_single (count_where (λ r. attempt_id r == id && is_owned token r) db.attempts),
)

unfoldable pub abort_update_attempt : ℤ → Text → Time → Db → Db × Result (Unit {0})
unfolding abort_checked
abort_update_attempt (negsuc n) token now db = (db, err negative_id)
abort_update_attempt (pos id) token now db =
    if owner_token_fits token then abort_checked id token now db else (db, err bad_owner_token)

-- SELECT failure_count of the attempt that the token owns.
unfoldable pub owned_failures : Text → Option Attempt → Result ℕ
owned_failures token none = err no_rows
owned_failures token (some r) = if is_owned token r then ok r.failure_count else err no_rows

-- The status, the owner and the lease of a failed attempt; a hold keeps the owner.
pub record Hold : Type 0 where
  pub status : Status
  pub owner : Text
  pub lease : Lease

unfoldable pub hold_for : Text → Option Time → Time → Result Hold
hold_for token none now = ok (record { status = failed; owner = []; lease = null })
hold_for token (some t) now =
    if ltb now t
    then ok (record { status = stuck; owner = token; lease = until t })
    else err lease_not_future

unfoldable pub failed_row : ℕ → Hold → Text → Time → Attempt → Attempt
failed_row failures hold cause now r = record r {
  failure_count = failures;
  status = hold.status;
  owner_token = hold.owner;
  lease_until = hold.lease;
  last_error = cause;
  updated_at = now;
  finished_at = none;
}

-- The third part of `FailUpdateAttempt`: the attempt is dead, or is left for a retry.
unfoldable pub fail_owned :
    ℕ → ℕ → Text → ℕ → Text → Option Time → Time → ℕ → Db → Result (Bool × Db)
unfolding mark_dead advance_next_offset hold_for update_attempt failed_row
fail_owned id next token max_failures cause hold_until now failures db =
    if leb max_failures failures
    then (do
      db' ← mark_dead id failures cause now db
      db'' ← advance_next_offset next now db'
      ok (true, db''))
    else (do
      hold ← hold_for token hold_until now
      db' ← update_attempt id (is_owned token) (failed_row failures hold cause now) db
      ok (false, db'))

unfoldable pub fail_tx : ℤ → ℤ → Text → ℤ → Text → Option Time → Time → Db → Result (Bool × Db)
unfolding require_checkpoint_row owned_failures fail_owned
fail_tx update_id next_offset token max_failures cause hold_until now db = do
  validate_update_transition update_id next_offset
  guard (ltb_ℤ (pos 0) max_failures) bad_threshold
  guard (owner_token_fits token) bad_owner_token
  guard (not (ltb max_error_bytes (length cause))) cause_too_long
  require_checkpoint_row db.checkpoint
  failures ← owned_failures token (find_attempt db (pos_part update_id))
  fail_owned (pos_part update_id) (pos_part next_offset) token (pos_part max_failures) cause
      hold_until now (failures + 1) db

unfoldable pub fail_update_attempt :
    ℤ → ℤ → Text → ℤ → Text → Option Time → Time → Db → Db × Result Bool
unfolding fail_tx
fail_update_attempt update_id next_offset token max_failures cause hold_until now db =
    transact db (fail_tx update_id next_offset token max_failures cause hold_until now db)
