-- ===== src/Journal/Fencing/Completion.antt =====
-- CompleteUpdateAttempt: the owner of a running attempt, and nobody else, finishes it.
use lofi_bot.Prelude.{
  ℕ, ◌≤◌, ◌≡◌, ◌↔◌, refl, arith, [], Option, none, some, true, max, hits, Bool-cases, inl, inr,
}
use lofi_bot.Prelude.Int.{ℤ, pos_part}
use lofi_bot.Prelude.Text.{Text, text_eq_iff}
use lofi_bot.Journal.Rows.{running, done, null, Checkpoint, Attempt, Db, ok, err, no_active_attempt}
use lofi_bot.Journal.Labels.{validate_update_transition, owner_token_fits}
use lofi_bot.Journal.Attempts.{
  attempt_id, find_attempt, is_owned, advanced, done_row, complete_tx, complete_update_attempt,
}
use lofi_bot.Journal.Invariant.{Inv, next_of}
use lofi_bot.Journal.Effects.{
  Writes, written_db, update_attempt_found, update_attempt_refused, advance_next_offset_lem,
  advanced-next,
}

-- The row is being worked on under this token.
pub record IsOwnedBy (token : Text) (r : Attempt) : Type 0 where
  pub is_running : r.status ≡ running
  pub token_matches : r.owner_token ≡ token

pub is_owned_iff : (token : Text) (r : Attempt) → (is_owned token r ≡ true) ↔ IsOwnedBy token r
is_owned_iff token r = (
  λ h. record {
    is_running = ground arith;
    token_matches = (text_eq_iff r.owner_token token).0 (ground arith);
  },
  λ o. rw (o.is_running, o.token_matches) ((text_eq_iff token token).1 refl),
)

module _ (u n : ℤ) (token : Text) (now : ℕ) (db : Db) (c : Checkpoint) (inv : Inv db)
    (valid : validate_update_transition u n ≡ ok tt) (fits : owner_token_fits token ≡ true)
    (checkpoint : db.checkpoint ≡ some c) (unconfirmed : c.confirmed_offset ≤ pos_part n) where
  -- The tables after the completion.
  completed_db : Db
  completed_db = record (written_db db (pos_part u) (is_owned token) (done_row now)) {
    checkpoint = some (advanced (pos_part n) now c);
  }

  complete_step :
      (r : Attempt)
      → find_attempt db (pos_part u) ≡ some r
      → is_owned token r ≡ true
      → complete_tx u n token now db ≡ ok (tt, completed_db)
  unfolding complete_tx completed_db
  complete_step r found owned =
      let wrote =
        (update_attempt_found db (pos_part u) (is_owned token) (done_row now) inv.rows.distinct
          (λ s. refl) r found owned).0 in
      let moved =
        advance_next_offset_lem (pos_part n) now
          (written_db db (pos_part u) (is_owned token) (done_row now)) c checkpoint unconfirmed in
      rw (valid, fits, wrote, moved)

  complete_miss :
      (o : Option Attempt)
      → find_attempt db (pos_part u) ≡ o
      → hits attempt_id (is_owned token) o ≡ 0
      → complete_update_attempt u n token now db ≡ (db, err no_active_attempt)
  unfolding complete_update_attempt complete_tx
  complete_miss o found miss =
      let refused =
        update_attempt_refused db (pos_part u) (is_owned token) (done_row now) inv.rows.distinct
          (λ s. refl) o found miss in
      rw (valid, fits, refused)

  -- On a sound journal, with a valid transition, a fitting token and a confirmed offset at most
  -- the next offset given, the owner of a running attempt completes it: the call succeeds; the row
  -- of the update becomes done, finished now, with no owner, lease or error, and keeps all else;
  -- no other row changes; and the next offset is the larger of the old one and the one given.
  pub complete_owned :
      (r : Attempt)
      → find_attempt db (pos_part u) ≡ some r
      → IsOwnedBy token r
      → (db' : Db) × (complete_update_attempt u n token now db ≡ (db', ok tt))
        × Writes
            (pos_part u)
            (record r {
              status = done;
              owner_token = [];
              lease_until = null;
              last_error = [];
              updated_at = now;
              finished_at = some now;
            })
            db
            db'
        × (next_of db'.checkpoint ≡ max c.next_offset (pos_part n))
  unfolding complete_update_attempt completed_db find_attempt done_row
  complete_owned r found owned =
      let test = (is_owned_iff token r).1 owned in
      (
        completed_db,
        rw (complete_step r found test),
        (update_attempt_found db (pos_part u) (is_owned token) (done_row now) inv.rows.distinct
            (λ s. refl) r found test).1,
        advanced-next (pos_part n) now c,
      )

  -- On a sound journal, with a valid transition, a fitting token and a confirmed offset at most
  -- the next offset given, a completion by anyone who does not own the attempt while it runs is
  -- refused as having no active attempt, and the journal stays as it was.
  pub complete_not_owned :
      ((r : Attempt) → find_attempt db (pos_part u) ≡ some r → ¬ IsOwnedBy token r)
      → complete_update_attempt u n token now db ≡ (db, err no_active_attempt)
  complete_not_owned stranger = go (find_attempt db (pos_part u)) refl
    where
      missed :
          (r : Attempt)
          → find_attempt db (pos_part u) ≡ some r
          → hits attempt_id (is_owned token) (some r) ≡ 0
      missed r e = elim (Bool-cases (is_owned token r)) [
        | inl yes_owned ↦ absurd (stranger r e ((is_owned_iff token r).0 yes_owned))
        | inr not_owned ↦ rw not_owned
      ]

      go :
          (o : Option Attempt)
          → find_attempt db (pos_part u) ≡ o
          → complete_update_attempt u n token now db ≡ (db, err no_active_attempt)
      go none e = complete_miss none e refl
      go (some r) e = complete_miss (some r) e (missed r e)
