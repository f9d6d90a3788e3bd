-- ===== src/Journal/Invariant/Begin.antt =====
-- BeginUpdateAttempt keeps the invariant of the journal.
use lofi_bot.Prelude.{
  ℕ, ◌+◌, ◌≤◌, ◌<◌, ◌≡◌, refl, sym, subst, arith, [], Option, none, some, true, find_key-id,
  All-find_key, ltb, leb,
}
use lofi_bot.Prelude.Int.{ℤ, pos, negsuc, pos_part}
use lofi_bot.Prelude.Text.{Text}
use lofi_bot.Journal.Rows.{
  Status, pending, running, stuck, failed, done, dead, Attempt, Db, lease_expired_error, ok,
}
use lofi_bot.Journal.Labels.{owner_token_fits, update_successor}
use lofi_bot.Journal.Attempts.{
  Request, Begun, Disposition, attempt_id, find_attempt, is_open, dead_row, advance_next_offset,
  require_checkpoint_row, check_request, first_row, claimed_row, claim, finish_terminal,
  expire_running, resume, claim_or_resume, parse_lease, begin_tx, begin_update_attempt,
  already_terminal, poisoned,
}
use lofi_bot.Journal.Invariant.Defs.{next_of, StatusOk, RowOk, Inv, Returns}
use lofi_bot.Journal.Invariant.Steps.{
  Returns-bind, Returns-check, Returns-if, Kept, closing-Kept, reopening-Kept, RowsOk-mono,
  advance_next_offset-Inv,
}
use lofi_bot.Journal.Invariant.RowChanges.{dead_row-RowOk}
use lofi_bot.Journal.Invariant.Attempts.{transact-Kept}

-- What `BeginUpdateAttempt` checks before it opens a transaction.
pub record IsAccepted (q : Request) (now next : ℕ) : Type 0 where
  pub follows : next ≡ pos_part q.update_id + 1
  pub owner_fits : owner_token_fits q.owner_token ≡ true
  pub threshold : 0 < pos_part q.max_failures
  pub in_future : now < q.lease_until

successor_follows : (u : ℤ) (next : ℕ) → update_successor u ≡ ok next → next ≡ pos_part u + 1
unfolding update_successor
successor_follows (negsuc n) next h = cc
successor_follows (pos n) next h = ground arith

pub check_request-IsAccepted :
    (q : Request) (now next : ℕ) → check_request q now ≡ ok next → IsAccepted q now next
unfolding check_request
check_request-IsAccepted q now next h = ground (arith, successor_follows q.update_id next)

module _ (q : Request) (now next : ℕ) (accepted : IsAccepted q now next) where
  claimed_row-RowOk :
      (bound attempts failures : ℕ) (last_error : Text) (r : Attempt)
      → failures + 1 ≤ attempts
      → RowOk bound (claimed_row q attempts failures last_error now r)
  unfolding claimed_row
  claimed_row-RowOk bound attempts failures last_error r h = record {
    failures = h;
    owned = accepted.owner_fits;
    deadline = q.lease_until;
    leased = refl;
    open_ended = refl;
  }

  claim-Kept :
      (id : ℕ) (r : Attempt) (failures : ℕ) (last_error : Text) (db : Db)
      → failures ≤ r.attempt_count
      → Inv db
      → Returns (λ (p : Begun × Db). Kept db p.1) (claim q id now r failures last_error db)
  unfolding claim
  claim-Kept id r failures last_error db h v =
      reopening-Kept _ db id is_open (claimed_row q (r.attempt_count + 1) failures last_error now)
        (λ s. refl)
        (λ s _ _ _.
          claimed_row-RowOk (next_of db.checkpoint) (r.attempt_count + 1) failures last_error s
            (omega arith))
        v

  finish_terminal-Kept :
      (d : Disposition) (r : Attempt) (db : Db)
      → Inv db
      → Returns (λ (p : Begun × Db). Kept db p.1) (finish_terminal d next now r db)
  unfolding finish_terminal
  finish_terminal-Kept d r db v =
      Returns-bind (Kept db) (λ (p : Begun × Db). Kept db p.1) (advance_next_offset next now db)
        (λ db'. ok (
          record {
            disposition = d;
            attempt_count = r.attempt_count;
            failure_count = r.failure_count;
          },
          db',
        ))
        (advance_next_offset-Inv next now db v.ordered (RowsOk-mono (omega arith) v.rows))
        (λ _ _ k. k)

  expire_running-Kept :
      (r : Attempt) (db : Db)
      → find_attempt db (pos_part q.update_id) ≡ some r
      → r.failure_count + 1 ≤ r.attempt_count
      → Inv db
      → Returns
          (λ (p : Begun × Db). Kept db p.1)
          (expire_running q (pos_part q.update_id) next now r db)
  unfolding expire_running find_attempt
  expire_running-Kept r db found h v =
      let id = pos_part q.update_id in
      Returns-if _ (leb (pos_part q.max_failures) (r.failure_count + 1)) _ _
        (λ _.
          closing-Kept _ db id next now is_open
            (dead_row (r.failure_count + 1) lease_expired_error now) (λ s. refl)
            (λ s here _ _.
              dead_row-RowOk _ _ lease_expired_error now s
                (omega (arith, find_key-id attempt_id id db.attempts s here, accepted.follows))
                (subst (λ (t : Attempt). r.failure_count + 1 ≤ t.attempt_count)
                  (same_row (sym found) here) h))
            v)
        (λ _. claim-Kept id r (r.failure_count + 1) lease_expired_error db h v)
    where
      same_row : {o : Option Attempt} {s : Attempt} → some r ≡ o → o ≡ some s → r ≡ s
      same_row e f = cc

  resume-Kept :
      (s : Status) (r : Attempt) (db : Db)
      → find_attempt db (pos_part q.update_id) ≡ some r
      → StatusOk (next_of db.checkpoint) s r
      → Inv db
      → Returns (λ (p : Begun × Db). Kept db p.1) (resume q (pos_part q.update_id) next now s r db)
  unfolding resume
  resume-Kept done r db found h v = finish_terminal-Kept already_terminal r db v
  resume-Kept dead r db found h v = finish_terminal-Kept poisoned r db v
  resume-Kept pending r db found h v =
      claim-Kept (pos_part q.update_id) r r.failure_count [] db h.failures v
  resume-Kept failed r db found h v =
      claim-Kept (pos_part q.update_id) r r.failure_count r.last_error db h.failures v
  resume-Kept running r db found h v = Returns-check _ (parse_lease r.lease_until) _ λ expires_at _.
      Returns-if _ (ltb now expires_at) _ _ (λ _. (v, omega arith))
        (λ _. expire_running-Kept r db found h.failures v)
  resume-Kept stuck r db found h v = Returns-check _ (parse_lease r.lease_until) _ λ expires_at _.
      Returns-if _ (ltb now expires_at) _ _ (λ _. (v, omega arith))
        (λ _. claim-Kept (pos_part q.update_id) r r.failure_count r.last_error db (omega arith) v)

  claim_or_resume-Kept :
      (o : Option Attempt) (db : Db)
      → find_attempt db (pos_part q.update_id) ≡ o
      → Inv db
      → Returns
          (λ (p : Begun × Db). Kept db p.1)
          (claim_or_resume q (pos_part q.update_id) next now o db)
  unfolding claim_or_resume find_attempt first_row
  claim_or_resume-Kept none db found v = (
    record {
      ordered = v.ordered;
      rows = record {
        distinct = (found, v.rows.distinct);
        each = (
          record {
            failures = omega arith;
            owned = accepted.owner_fits;
            deadline = q.lease_until;
            leased = refl;
            open_ended = refl;
          },
          v.rows.each,
        );
      };
    },
    omega arith,
  )
  claim_or_resume-Kept (some r) db found v =
      resume-Kept r.status r db found
        (All-find_key attempt_id (RowOk (next_of db.checkpoint)) _ db.attempts r found v.rows.each)
        v

begin_tx-Kept :
    (q : Request) (now : ℕ) (db : Db)
    → Inv db
    → Returns (λ (p : Begun × Db). Kept db p.1) (begin_tx q now db)
unfolding begin_tx
begin_tx-Kept q now db v = Returns-check _ (check_request q now) _ λ next accepted.
    Returns-check _ (require_checkpoint_row db.checkpoint) _ λ _ _.
      claim_or_resume-Kept q now next (check_request-IsAccepted q now next accepted) _ db refl v

pub begin-Kept :
    (q : Request) (now : ℕ) (db : Db) → Inv db → Kept db (begin_update_attempt q now db).0
unfolding begin_update_attempt
begin-Kept q now db v = transact-Kept db _ v (begin_tx-Kept q now db v)
