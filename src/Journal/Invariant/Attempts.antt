-- ===== src/Journal/Invariant/Attempts.antt =====
-- The operations on an attempt keep the invariant of the journal.
use lofi_bot.Prelude.{
  ℕ, ◌+◌, refl, arith, Option, Bool, true, false, not, if◌then◌else◌, ltb, leb, length,
}
use lofi_bot.Prelude.Int.{ℤ, pos, negsuc, pos_part, ltb_ℤ}
use lofi_bot.Prelude.Text.{Text}
use lofi_bot.Journal.Rows.{
  Time, Db, Result, ok, err, guard, bad_owner_token, bad_threshold, cause_too_long, max_error_bytes,
  transact,
}
use lofi_bot.Journal.Labels.{validate_update_transition, owner_token_fits}
use lofi_bot.Journal.Attempts.{
  find_attempt, is_open, is_owned, dead_row, done_row, complete_tx, complete_update_attempt,
  owned_failures, hold_for, failed_row, fail_tx, require_checkpoint_row, fail_update_attempt,
  pending_row, abort_checked, abort_update_attempt,
}
use lofi_bot.Journal.Invariant.Defs.{next_of, Inv, Returns}
use lofi_bot.Journal.Invariant.Steps.{
  Returns-check, Returns-if, Kept, closing-Kept, reopening-Kept, RowsOk-update_where,
}
use lofi_bot.Journal.Invariant.RowChanges.{
  IsHeld-of_owned, done_row-RowOk, dead_row-RowOk, failed_row-RowOk, owned_count, below_next,
  guard-true, pending_row-RowOk,
}

complete_tx-Kept :
    (u n : ℤ) (token : Text) (now : ℕ) (db : Db)
    → Inv db
    → Returns (λ (p : Unit {0} × Db). Kept db p.1) (complete_tx u n token now db)
unfolding complete_tx find_attempt
complete_tx-Kept u n token now db v = Returns-check _ (validate_update_transition u n) _ λ _ valid.
    Returns-check _ (guard (owner_token_fits token) bad_owner_token) _ λ _ _.
      closing-Kept tt db (pos_part u) (pos_part n) now (is_owned token) (done_row now) (λ r. refl)
        (λ r found owned sound.
          done_row-RowOk _ now r (below_next u n db r valid found)
            (IsHeld-of_owned _ token r owned sound))
        v

-- A transaction that keeps the invariant does so after the commit or the rollback.
pub transact-Kept {ℓ} :
    {A : Type ℓ} (db : Db) (m : Result (A × Db))
    → Inv db
    → Returns (λ (p : A × Db). Kept db p.1) m
    → Kept db (transact db m).0
transact-Kept db (ok (a, db')) v h = h
transact-Kept db (err e) v h = (v, omega arith)

pub complete-Kept :
    (u n : ℤ) (token : Text) (now : ℕ) (db : Db)
    → Inv db
    → Kept db (complete_update_attempt u n token now db).0
unfolding complete_update_attempt
complete-Kept u n token now db v = transact-Kept db _ v (complete_tx-Kept u n token now db v)

fail_tx-Kept :
    (u n : ℤ) (token : Text) (max_failures : ℤ) (cause : Text) (hold_until : Option Time) (now : ℕ)
    (db : Db)
    → Inv db
    → Returns
        (λ (p : Bool × Db). Kept db p.1)
        (fail_tx u n token max_failures cause hold_until now db)
unfolding fail_tx find_attempt
fail_tx-Kept u n token max_failures cause hold_until now db v =
    let id = pos_part u in
    Returns-check _ (validate_update_transition u n) _ λ _ valid.
      Returns-check _ (guard (ltb_ℤ (pos 0) max_failures) bad_threshold) _ λ _ _.
        Returns-check _ (guard (owner_token_fits token) bad_owner_token) _ λ _ fits.
          Returns-check _ (guard (not (ltb max_error_bytes (length cause))) cause_too_long) _ λ _ _.
            Returns-check _ (require_checkpoint_row db.checkpoint) _ λ _ _.
              Returns-check _ (owned_failures token (find_attempt db id)) _ λ failures owned.
                Returns-if _ (leb (pos_part max_failures) (failures + 1)) _ _
                  (λ _.
                    closing-Kept true db id (pos_part n) now is_open
                      (dead_row (failures + 1) cause now) (λ r. refl)
                      (λ r found _ sound.
                        dead_row-RowOk _ _ cause now r (below_next u n db r valid found)
                          (owned_count _ token _ r failures owned found sound))
                      v)
                  (λ _. Returns-check _ (hold_for token hold_until now) _ λ hold held.
                    reopening-Kept false db id (is_owned token)
                      (failed_row (failures + 1) hold cause now) (λ r. refl)
                      (λ r found _ sound.
                        failed_row-RowOk _ _ token hold_until hold cause now r held
                          (guard-true _ _ fits)
                          (owned_count _ token _ r failures owned found sound))
                      v)

pub fail-Kept :
    (u n : ℤ) (token : Text) (max_failures : ℤ) (cause : Text) (hold_until : Option Time) (now : ℕ)
    (db : Db)
    → Inv db
    → Kept db (fail_update_attempt u n token max_failures cause hold_until now db).0
unfolding fail_update_attempt
fail-Kept u n token max_failures cause hold_until now db v =
    transact-Kept db _ v (fail_tx-Kept u n token max_failures cause hold_until now db v)

pub abort-Kept :
    (u : ℤ) (token : Text) (now : ℕ) (db : Db)
    → Inv db
    → Kept db (abort_update_attempt u token now db).0
unfolding abort_update_attempt
abort-Kept (negsuc u) token now db v = (v, omega arith)
abort-Kept (pos u) token now db v = go (owner_token_fits token)
  where
    go :
        (b : Bool)
        → Kept db (if b then abort_checked u token now db else (db, err bad_owner_token)).0
    go true =
        let bound = next_of db.checkpoint in
        (
          record {
            ordered = v.ordered;
            rows =
                RowsOk-update_where bound u (is_owned token) (pending_row now) db.attempts
                  (λ r. refl)
                  (λ r _ owned sound.
                    pending_row-RowOk bound now r (IsHeld-of_owned bound token r owned sound))
                  v.rows;
          },
          omega arith,
        )
    go false = (v, omega arith)
