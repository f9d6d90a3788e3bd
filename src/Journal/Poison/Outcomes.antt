-- ===== src/Journal/Poison/Outcomes.antt =====
-- FailUpdateAttempt by the owner: a retry below the threshold, the end at it.
use lofi_bot.Prelude.{
  ℕ, ◌+◌, ◌≤◌, ◌<◌, ◌≡◌, refl, subst, arith, [], Option, none, some, true, false, not, ltb, leb,
  max, length,
}
use lofi_bot.Prelude.Int.{ℤ, pos, pos_part, ltb_ℤ}
use lofi_bot.Prelude.Text.{Text}
use lofi_bot.Journal.Rows.{
  Time, dead, failed, stuck, null, until, Checkpoint, Attempt, Db, ok, max_error_bytes,
}
use lofi_bot.Journal.Labels.{validate_update_transition, owner_token_fits}
use lofi_bot.Journal.Attempts.{
  find_attempt, is_open, is_owned, update_attempt, advanced, mark_dead, dead_row, owned_failures,
  hold_for, Hold, failed_row, fail_owned, fail_tx, fail_update_attempt,
}
use lofi_bot.Journal.Invariant.{Inv, next_of}
use lofi_bot.Journal.Effects.{
  Writes, written_db, update_attempt_found, advance_next_offset_lem, advanced-next,
}
use lofi_bot.Journal.Fencing.{IsOwnedBy, is_owned_iff, checkpoint_row_present}

open_of_test : (token : Text) (r : Attempt) → is_owned token r ≡ true → is_open r ≡ true
open_of_test token r h = ground arith

-- A hold, where there is one, ends after now.
abbrev pub IsFuture : Time → Option Time → Type 0
IsFuture now none = Unit
IsFuture now (some t) = now < t

-- The row after a failure that may be retried: it waits, or stays with its owner under the hold.
abbrev pub retried : Text → Text → Time → Option Time → Attempt → Attempt
retried token cause now none r = record r {
  failure_count = r.failure_count + 1;
  status = failed;
  owner_token = [];
  lease_until = null;
  last_error = cause;
  updated_at = now;
  finished_at = none;
}
retried token cause now (some t) r = record r {
  failure_count = r.failure_count + 1;
  status = stuck;
  owner_token = token;
  lease_until = until t;
  last_error = cause;
  updated_at = now;
  finished_at = none;
}

taken : Text → Option Time → Hold
taken token none = record { status = failed; owner = []; lease = null }
taken token (some t) = record { status = stuck; owner = token; lease = until t }

hold_taken :
    (token : Text) (now : ℕ) (hold : Option Time)
    → IsFuture now hold
    → hold_for token hold now ≡ ok (taken token hold)
unfolding hold_for taken
hold_taken token now none future = refl
hold_taken token now (some t) future = ground arith

module _ (u n : ℤ) (token : Text) (most : ℕ) (cause : Text) (hold : Option Time) (now : ℕ) (db : Db)
    (c : Checkpoint) (r : Attempt) (inv : Inv db) (valid : validate_update_transition u n ≡ ok tt)
    (fits : owner_token_fits token ≡ true) (positive : 0 < most)
    (short : length cause ≤ max_error_bytes) (checkpoint : db.checkpoint ≡ some c)
    (found : find_attempt db (pos_part u) ≡ some r) (owned : IsOwnedBy token r) where
  owned_failures_found : owned_failures token (find_attempt db (pos_part u)) ≡ ok r.failure_count
  unfolding owned_failures
  owned_failures_found = rw found (rw ((is_owned_iff token r).1 owned) refl)

  fail_step :
      fail_tx u n token (pos most) cause hold now db
      ≡ fail_owned (pos_part u) (pos_part n) token most cause hold now (r.failure_count + 1) db
  unfolding fail_tx
  fail_step =
      let above : ltb_ℤ (pos 0) (pos most) ≡ true = ground arith in
      let below : not (ltb max_error_bytes (length cause)) ≡ true = ground arith in
      rw (valid, above, fits, below, checkpoint_row_present c checkpoint, owned_failures_found) refl

  dead_now : Attempt → Attempt
  dead_now = dead_row (r.failure_count + 1) cause now

  poisoned_db : Db
  poisoned_db = record (written_db db (pos_part u) is_open dead_now) {
    checkpoint = some (advanced (pos_part n) now c);
  }

  dead_wrote :
      (update_attempt (pos_part u) is_open dead_now db
        ≡ ok (written_db db (pos_part u) is_open dead_now))
      × Writes (pos_part u) (dead_now r) db (written_db db (pos_part u) is_open dead_now)
  unfolding dead_now dead_row
  dead_wrote =
      update_attempt_found db (pos_part u) is_open dead_now inv.rows.distinct (λ s. refl) r found
        (open_of_test token r ((is_owned_iff token r).1 owned))

  poison_step :
      c.confirmed_offset ≤ pos_part n
      → most ≤ r.failure_count + 1
      → fail_tx u n token (pos most) cause hold now db ≡ ok (true, poisoned_db)
  unfolding fail_owned mark_dead poisoned_db dead_now
  poison_step unconfirmed reached =
      let test : leb most (r.failure_count + 1) ≡ true = ground arith in
      let moved =
        advance_next_offset_lem (pos_part n) now (written_db db (pos_part u) is_open dead_now) c
          checkpoint unconfirmed in
      rw (fail_step, test, dead_wrote.0, moved) refl

  -- On a sound journal with valid arguments and a confirmed offset at most the next offset given,
  -- a failure that brings the owner's running attempt to the threshold reports `true`: the row
  -- becomes dead, finished now, with one failure more, this cause, and no owner or lease, and
  -- keeps all else; no other row changes; and the next offset is the larger of the old one and the
  -- one given.
  pub fail_poisons :
      c.confirmed_offset ≤ pos_part n
      → most ≤ r.failure_count + 1
      → (db' : Db) × (fail_update_attempt u n token (pos most) cause hold now db ≡ (db', ok true))
        × Writes
            (pos_part u)
            (record r {
              failure_count = r.failure_count + 1;
              status = dead;
              owner_token = [];
              lease_until = null;
              last_error = cause;
              updated_at = now;
              finished_at = some now;
            })
            db
            db'
        × (next_of db'.checkpoint ≡ max c.next_offset (pos_part n))
  unfolding fail_update_attempt poisoned_db find_attempt dead_now dead_row
  fail_poisons unconfirmed reached = (
    poisoned_db,
    rw (poison_step unconfirmed reached) refl,
    dead_wrote.1,
    advanced-next (pos_part n) now c,
  )

  held_db : Hold → Db
  held_db h =
      written_db db (pos_part u) (is_owned token) (failed_row (r.failure_count + 1) h cause now)

  retry_wrote :
      (h : Hold)
      → (update_attempt
            (pos_part u)
            (is_owned token)
            (failed_row (r.failure_count + 1) h cause now)
            db
          ≡ ok (
              written_db db
                (pos_part u)
                (is_owned token)
                (failed_row (r.failure_count + 1) h cause now)))
        × Writes (pos_part u) (failed_row (r.failure_count + 1) h cause now r) db (
            written_db db
              (pos_part u)
              (is_owned token)
              (failed_row (r.failure_count + 1) h cause now))
  unfolding failed_row
  retry_wrote h =
      update_attempt_found db (pos_part u) (is_owned token)
        (failed_row (r.failure_count + 1) h cause now) inv.rows.distinct (λ s. refl) r found
        ((is_owned_iff token r).1 owned)

  -- On a sound journal with valid arguments, a failure of the owner's running attempt that stays
  -- below the threshold reports `false`: the row has one failure more and this cause, and without
  -- a hold it becomes failed, with no owner or lease, with a hold that ends after now it becomes
  -- stuck, with its owner and a lease until the hold's end; it keeps all else, and neither another
  -- row nor the checkpoint changes.
  pub fail_retries :
      r.failure_count + 1 < most
      → IsFuture now hold
      → (db' : Db) × (fail_update_attempt u n token (pos most) cause hold now db ≡ (db', ok false))
        × Writes (pos_part u) (retried token cause now hold r) db db'
        × (db'.checkpoint ≡ db.checkpoint)
  unfolding fail_update_attempt fail_owned failed_row taken held_db
  fail_retries below future =
      let test : leb most (r.failure_count + 1) ≡ false = ground arith in
      let h = taken token hold in
      (
        held_db h,
        rw (fail_step, test, hold_taken token now hold future, (retry_wrote h).0) refl,
        subst (λ row. Writes (pos_part u) row db (held_db h)) (taken_row hold) (retry_wrote h).1,
        refl,
      )
    where
      taken_row :
          (o : Option Time)
          → failed_row (r.failure_count + 1) (taken token o) cause now r
            ≡ retried token cause now o r
      taken_row none = refl
      taken_row (some t) = refl
