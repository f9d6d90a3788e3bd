-- ===== src/Journal/Attempts/Begin.antt =====
-- internal/journalstore/journal.go: BeginUpdateAttempt.
use lofi_bot.Prelude.{ℕ, ◌+◌, true, false, ◌∷◌, [], Option, none, some, ltb, leb, if◌then◌else◌}
use lofi_bot.Prelude.Int.{ℤ, pos, pos_part, ltb_ℤ}
use lofi_bot.Prelude.Text.{Text}
use lofi_bot.Journal.Rows.{
  Time, Status, pending, running, stuck, failed, done, dead, Lease, null, malformed, until, Attempt,
  Db, max_kind_bytes, max_action_bytes, lease_expired_error, bad_owner_token, bad_threshold,
  lease_not_future, no_lease, bad_lease_text, Result, ok, err, ◌>>=◌, ◌>>◌, guard, transact,
}
use lofi_bot.Journal.Labels.{validate_label, update_successor, owner_token_fits}
use lofi_bot.Journal.Attempts.Statements.{
  find_attempt, require_checkpoint_row, update_attempt, is_open, advance_next_offset, mark_dead,
}

-- What `BeginUpdateAttempt` is told of an update.
pub record Request : Type 0 where
  pub update_id : ℤ
  pub update_kind : Text
  pub action : Text
  pub chat_id : ℤ
  pub message_id : ℤ
  pub actor_id : ℤ
  pub owner_token : Text
  pub lease_until : Time
  pub max_failures : ℤ

pub data Disposition : Type 0 where
  execute already_terminal busy poisoned : Disposition

pub record Begun : Type 0 where
  pub disposition : Disposition
  pub attempt_count : ℕ
  pub failure_count : ℕ

unfoldable pub first_row : Request → ℕ → Time → Attempt
first_row q id now = record {
  update_id = id;
  update_kind = q.update_kind;
  action = q.action;
  chat_id = q.chat_id;
  message_id = q.message_id;
  actor_id = q.actor_id;
  attempt_count = 1;
  failure_count = 0;
  status = running;
  owner_token = q.owner_token;
  lease_until = until q.lease_until;
  last_error = [];
  created_at = now;
  updated_at = now;
  finished_at = none;
}

unfoldable pub claimed_row : Request → ℕ → ℕ → Text → Time → Attempt → Attempt
claimed_row q attempts failures last_error now r = record r {
  update_kind = q.update_kind;
  action = q.action;
  chat_id = q.chat_id;
  message_id = q.message_id;
  actor_id = q.actor_id;
  attempt_count = attempts;
  failure_count = failures;
  status = running;
  owner_token = q.owner_token;
  lease_until = until q.lease_until;
  last_error = last_error;
  updated_at = now;
  finished_at = none;
}

unfoldable pub parse_lease : Lease → Result Time
parse_lease null = err no_lease
parse_lease malformed = err bad_lease_text
parse_lease (until t) = ok t

-- The end of `BeginUpdateAttempt`: the update is claimed anew.
unfoldable pub claim : Request → ℕ → Time → Attempt → ℕ → Text → Db → Result (Begun × Db)
unfolding update_attempt claimed_row
claim q id now r failures last_error db = do
  let attempts = r.attempt_count + 1
  db' ← update_attempt id is_open (claimed_row q attempts failures last_error now) db
  ok (record { disposition = execute; attempt_count = attempts; failure_count = failures }, db')

-- The update is terminal: the offset moves past it once more.
unfoldable pub finish_terminal : Disposition → ℕ → Time → Attempt → Db → Result (Begun × Db)
unfolding advance_next_offset
finish_terminal d next now r db = do
  db' ← advance_next_offset next now db
  ok (
    record { disposition = d; attempt_count = r.attempt_count; failure_count = r.failure_count },
    db',
  )

-- A running attempt whose lease ran out counts as a failure.
unfoldable pub expire_running : Request → ℕ → ℕ → Time → Attempt → Db → Result (Begun × Db)
unfolding mark_dead advance_next_offset claim
expire_running q id next now r db =
    let failures = r.failure_count + 1 in
    if leb (pos_part q.max_failures) failures
    then (do
      db' ← mark_dead id failures lease_expired_error now db
      db'' ← advance_next_offset next now db'
      ok (
        record {
          disposition = poisoned;
          attempt_count = r.attempt_count;
          failure_count = failures;
        },
        db'',
      ))
    else claim q id now r failures lease_expired_error db

unfoldable pub report_busy : Attempt → Db → Result (Begun × Db)
report_busy r db = ok (
  record { disposition = busy; attempt_count = r.attempt_count; failure_count = r.failure_count },
  db,
)

-- The switch over the status of the row that is there.
unfoldable pub resume : Request → ℕ → ℕ → Time → Status → Attempt → Db → Result (Begun × Db)
unfolding finish_terminal parse_lease expire_running report_busy claim
resume q id next now done r db = finish_terminal already_terminal next now r db
resume q id next now dead r db = finish_terminal poisoned next now r db
resume q id next now running r db = do
  expires_at ← parse_lease r.lease_until
  if ltb now expires_at then report_busy r db else expire_running q id next now r db
resume q id next now stuck r db = do
  expires_at ← parse_lease r.lease_until
  if ltb now expires_at then report_busy r db else claim q id now r r.failure_count r.last_error db
resume q id next now pending r db = claim q id now r r.failure_count [] db
resume q id next now failed r db = claim q id now r r.failure_count r.last_error db

-- INSERT … ON CONFLICT DO NOTHING, and what follows if the row was there.
unfoldable pub claim_or_resume : Request → ℕ → ℕ → Time → Option Attempt → Db → Result (Begun × Db)
unfolding first_row resume
claim_or_resume q id next now none db = ok (
  record { disposition = execute; attempt_count = 1; failure_count = 0 },
  record db { attempts = first_row q id now ∷ db.attempts },
)
claim_or_resume q id next now (some r) db = resume q id next now r.status r db

unfoldable pub check_request : Request → Time → Result ℕ
check_request q now = do
  next ← update_successor q.update_id
  validate_label q.update_kind max_kind_bytes false
  validate_label q.action max_action_bytes true
  guard (owner_token_fits q.owner_token) bad_owner_token
  guard (ltb_ℤ (pos 0) q.max_failures) bad_threshold
  guard (ltb now q.lease_until) lease_not_future
  ok next

unfoldable pub begin_tx : Request → Time → Db → Result (Begun × Db)
unfolding check_request require_checkpoint_row claim_or_resume
begin_tx q now db = do
  next ← check_request q now
  require_checkpoint_row db.checkpoint
  let id = pos_part q.update_id
  claim_or_resume q id next now (find_attempt db id) db

unfoldable pub begin_update_attempt : Request → Time → Db → Db × Result Begun
unfolding begin_tx
begin_update_attempt q now db = transact db (begin_tx q now db)
