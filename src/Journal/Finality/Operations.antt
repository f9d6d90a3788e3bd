-- ===== src/Journal/Finality/Operations.antt =====
-- The operations on attempts, and the rows of finished updates.
use lofi_bot.Prelude.{
  ℕ, ◌+◌, ◌≡◌, refl, ◌∙◌, arith, [], ◌∷◌, Option, none, some, Bool, true, false, not, ltb, leb,
  ◌==◌, ◌&&◌, if◌then◌else◌, Distinct, find_key, ==_iff, length, update_where,
  find_key-update_where,
}
use lofi_bot.Prelude.Int.{ℤ, pos, negsuc, pos_part, ltb_ℤ}
use lofi_bot.Prelude.Text.{Text}
use lofi_bot.Journal.Rows.{
  Time, Status, pending, running, stuck, failed, done, dead, is_terminal, Attempt, Db, Result, ok,
  err, guard, transact, lease_expired_error, max_error_bytes, bad_owner_token, bad_threshold,
  cause_too_long,
}
use lofi_bot.Journal.Labels.{validate_update_transition, owner_token_fits}
use lofi_bot.Journal.Attempts.{
  Request, Begun, Disposition, already_terminal, poisoned, attempt_id, find_attempt, is_open,
  is_owned, advance_next_offset, dead_row, require_checkpoint_row, check_request, first_row,
  claimed_row, claim, finish_terminal, expire_running, resume, claim_or_resume, parse_lease,
  begin_tx, begin_update_attempt, complete_tx, complete_update_attempt, done_row, fail_tx,
  fail_owned, fail_update_attempt, owned_failures, hold_for, failed_row, abort_update_attempt,
  abort_checked, pending_row,
}
use lofi_bot.Journal.Invariant.{Returns, Returns-check, Returns-if}
use lofi_bot.Journal.Finality.Statements.{
  Persists, open_of_owned, advance-Persists, write-Persists, close-Persists,
}

module _ (db : Db) (distinct : Distinct attempt_id db.attempts) where
  claim-Persists :
      (q : Request) (id now : ℕ) (r : Attempt) (failures : ℕ) (last_error : Text)
      → Returns (λ (p : Begun × Db). Persists db p.1) (claim q id now r failures last_error db)
  unfolding claim claimed_row
  claim-Persists q id now r failures last_error =
      write-Persists db distinct _ id is_open
        (claimed_row q (r.attempt_count + 1) failures last_error now) (λ s. refl) (λ s h. h)

  finish_terminal-Persists :
      (d : Disposition) (next now : ℕ) (r : Attempt)
      → Returns (λ (p : Begun × Db). Persists db p.1) (finish_terminal d next now r db)
  unfolding finish_terminal
  finish_terminal-Persists d next now r =
      Returns-check _ (advance_next_offset next now db) _
        λ db' moved. advance-Persists db distinct next now db db' moved (λ _ _ found _. found)

  expire_running-Persists :
      (q : Request) (id next now : ℕ) (r : Attempt)
      → Returns (λ (p : Begun × Db). Persists db p.1) (expire_running q id next now r db)
  unfolding expire_running
  expire_running-Persists q id next now r =
      Returns-if _ (leb (pos_part q.max_failures) (r.failure_count + 1)) _ _
        (λ _.
          close-Persists db distinct _ id next now is_open
            (dead_row (r.failure_count + 1) lease_expired_error now) (λ s. refl) (λ s h. h))
        (λ _. claim-Persists q id now r (r.failure_count + 1) lease_expired_error)

  resume-Persists :
      (q : Request) (id next now : ℕ) (s : Status) (r : Attempt)
      → Returns (λ (p : Begun × Db). Persists db p.1) (resume q id next now s r db)
  unfolding resume
  resume-Persists q id next now done r = finish_terminal-Persists already_terminal next now r
  resume-Persists q id next now dead r = finish_terminal-Persists poisoned next now r
  resume-Persists q id next now pending r = claim-Persists q id now r r.failure_count []
  resume-Persists q id next now failed r = claim-Persists q id now r r.failure_count r.last_error
  resume-Persists q id next now running r =
      Returns-check _ (parse_lease r.lease_until) _ λ expires_at _.
        Returns-if _ (ltb now expires_at) _ _ (λ _ _ _ found _. found)
          (λ _. expire_running-Persists q id next now r)
  resume-Persists q id next now stuck r =
      Returns-check _ (parse_lease r.lease_until) _ λ expires_at _.
        Returns-if _ (ltb now expires_at) _ _ (λ _ _ _ found _. found)
          (λ _. claim-Persists q id now r r.failure_count r.last_error)

  insert-Persists :
      (q : Request) (id now : ℕ)
      → find_attempt db id ≡ none
      → Persists db (record db { attempts = first_row q id now ∷ db.attempts })
  unfolding find_attempt find_key first_row
  insert-Persists q id now absent j r found _ = new (id == j) refl
    where
      new :
          (b : Bool)
          → (id == j) ≡ b
          → (if b then some (first_row q id now) else find_key attempt_id j db.attempts) ≡ some r
      new false e = found
      new true e = absurd (clash ((==_iff id j).0 e))
        where
          clash : id ≡ j → ⊥
          clash k = cc

  claim_or_resume-Persists :
      (q : Request) (id next now : ℕ) (o : Option Attempt)
      → find_attempt db id ≡ o
      → Returns (λ (p : Begun × Db). Persists db p.1) (claim_or_resume q id next now o db)
  unfolding claim_or_resume
  claim_or_resume-Persists q id next now none absent = insert-Persists q id now absent
  claim_or_resume-Persists q id next now (some r) found = resume-Persists q id next now r.status r

  begin_tx-Persists :
      (q : Request) (now : ℕ) → Returns (λ (p : Begun × Db). Persists db p.1) (begin_tx q now db)
  unfolding begin_tx
  begin_tx-Persists q now = Returns-check _ (check_request q now) _ λ next _.
      Returns-check _ (require_checkpoint_row db.checkpoint) _
        λ _ _. claim_or_resume-Persists q (pos_part q.update_id) next now _ refl

  complete_tx-Persists :
      (u n : ℤ) (token : Text) (now : ℕ)
      → Returns (λ (p : Unit {0} × Db). Persists db p.1) (complete_tx u n token now db)
  unfolding complete_tx
  complete_tx-Persists u n token now = Returns-check _ (validate_update_transition u n) _ λ _ _.
      Returns-check _ (guard (owner_token_fits token) bad_owner_token) _ λ _ _.
        close-Persists db distinct tt (pos_part u) (pos_part n) now (is_owned token) (done_row now)
          (λ s. refl) (open_of_owned token)

  fail_owned-Persists :
      (id next : ℕ) (token : Text) (most : ℕ) (cause : Text) (hold : Option Time) (now failures : ℕ)
      → Returns
          (λ (p : Bool × Db). Persists db p.1)
          (fail_owned id next token most cause hold now failures db)
  unfolding fail_owned
  fail_owned-Persists id next token most cause hold now failures =
      Returns-if _ (leb most failures) _ _
        (λ _.
          close-Persists db distinct true id next now is_open (dead_row failures cause now)
            (λ s. refl) (λ s h. h))
        (λ _. Returns-check _ (hold_for token hold now) _ λ held _.
          write-Persists db distinct false id (is_owned token) (failed_row failures held cause now)
            (λ s. refl) (open_of_owned token))

  fail_tx-Persists :
      (u n : ℤ) (token : Text) (most : ℤ) (cause : Text) (hold : Option Time) (now : ℕ)
      → Returns (λ (p : Bool × Db). Persists db p.1) (fail_tx u n token most cause hold now db)
  unfolding fail_tx
  fail_tx-Persists u n token most cause hold now =
      Returns-check _ (validate_update_transition u n) _ λ _ _.
        Returns-check _ (guard (ltb_ℤ (pos 0) most) bad_threshold) _ λ _ _.
          Returns-check _ (guard (owner_token_fits token) bad_owner_token) _ λ _ _.
            Returns-check _ (guard (not (ltb max_error_bytes (length cause))) cause_too_long) _
              λ _ _. Returns-check _ (require_checkpoint_row db.checkpoint) _ λ _ _.
                Returns-check _ (owned_failures token (find_attempt db (pos_part u))) _
                  λ failures _.
                    fail_owned-Persists (pos_part u) (pos_part n) token (pos_part most) cause hold
                      now (failures + 1)

  transact-Persists :
      {A : Type 0} (m : Result (A × Db))
      → Returns (λ (p : A × Db). Persists db p.1) m
      → Persists db (transact db m).0
  transact-Persists (ok (a, db')) h = h
  transact-Persists (err e) h = λ _ _ found _. found

  pub begin-Persists : (q : Request) (now : ℕ) → Persists db (begin_update_attempt q now db).0
  unfolding begin_update_attempt
  begin-Persists q now = transact-Persists _ (begin_tx-Persists q now)

  pub complete-Persists :
      (u n : ℤ) (token : Text) (now : ℕ) → Persists db (complete_update_attempt u n token now db).0
  unfolding complete_update_attempt
  complete-Persists u n token now = transact-Persists _ (complete_tx-Persists u n token now)

  pub fail-Persists :
      (u n : ℤ) (token : Text) (most : ℤ) (cause : Text) (hold : Option Time) (now : ℕ)
      → Persists db (fail_update_attempt u n token most cause hold now db).0
  unfolding fail_update_attempt
  fail-Persists u n token most cause hold now =
      transact-Persists _ (fail_tx-Persists u n token most cause hold now)

  update_where-Persists :
      (j : ℕ) (p : Attempt → Bool) (f : Attempt → Attempt)
      → ((s : Attempt) → attempt_id (f s) ≡ attempt_id s)
      → (r : Attempt) → find_attempt db j ≡ some r
      → p r ≡ false
      → find_attempt (record db { attempts = update_where p f db.attempts }) j ≡ some r
  unfolding find_attempt
  update_where-Persists j p f same r found miss =
      find_key-update_where attempt_id j p f db.attempts same ∙ rw found (rw miss)

  closed_to :
      (u : ℕ) (token : Text) (r : Attempt)
      → is_terminal r.status ≡ true
      → (attempt_id r == u && is_owned token r) ≡ false
  closed_to u token r h = ground arith

  pub abort-Persists :
      (u : ℤ) (token : Text) (now : ℕ) → Persists db (abort_update_attempt u token now db).0
  unfolding abort_update_attempt abort_checked
  abort-Persists (negsuc u) token now = λ _ _ found _. found
  abort-Persists (pos u) token now = go (owner_token_fits token)
    where
      go :
          (b : Bool)
          → Persists db (if b then abort_checked u token now db else (db, err bad_owner_token)).0
      go true = λ j r found terminal.
          update_where-Persists j (λ s. attempt_id s == u && is_owned token s) (pending_row now)
            (λ s. refl) r found (closed_to u token r terminal)
      go false = λ _ _ found _. found
