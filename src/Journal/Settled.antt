-- ===== src/Journal/Settled.antt =====
-- Which updates the journal reports as settled, and which it hands out.
use lofi_bot.Prelude.{
  ℕ, ◌+◌, ◌≡◌, refl, sym, ap, ◌∙◌, arith, [], Option, none, some, Bool, true, false, not, ltb, leb,
  if◌then◌else◌, Distinct, ==_iff, length,
}
use lofi_bot.Prelude.Int.{ℤ, pos, pos_part, ltb_ℤ}
use lofi_bot.Prelude.Text.{Text}
use lofi_bot.Journal.Rows.{
  Time, Status, pending, running, stuck, failed, done, dead, is_terminal, Checkpoint,
  checkpoint_missing, Attempt, Db, Result, ok, err, ◌>>=◌, guard, lease_expired_error,
  max_error_bytes, bad_owner_token, bad_threshold, cause_too_long,
}
use lofi_bot.Journal.Labels.{validate_update_transition, owner_token_fits}
use lofi_bot.Journal.Attempts.{
  Request, Begun, Disposition, execute, already_terminal, poisoned, attempt_id, find_attempt,
  is_open, is_owned, update_attempt, advance_next_offset, advance_row, advanced, mark_dead,
  dead_row, require_checkpoint_row, check_request, claimed_row, claim, finish_terminal,
  expire_running, report_busy, resume, claim_or_resume, parse_lease, begin_tx, complete_tx,
  done_row, fail_tx, fail_owned, owned_failures, hold_for, failed_row,
}
use lofi_bot.Journal.Invariant.{ok-injective, confirmed_of, Returns, Returns-check, Returns-if}
use lofi_bot.Journal.Effects.{Writes, update_attempt_ok}
use lofi_bot.Journal.Finality.{advance-attempts}

-- The row of the update is there, and is done or dead.
abbrev pub TerminalIn : Db → ℕ → Type 0
TerminalIn db id = (r : Attempt) × (find_attempt db id ≡ some r) × (is_terminal r.status ≡ true)

-- The update is over for a claim that says so.
abbrev pub SaysOver : Disposition → Type 0
SaysOver already_terminal = Unit {0}
SaysOver poisoned = Unit {0}
SaysOver _ = ⊥

abbrev pub SaysExecute : Disposition → Type 0
SaysExecute execute = Unit {0}
SaysExecute _ = ⊥

-- The confirmed offset stays.
abbrev pub SameConfirmed : Db → Db → Type 0
SameConfirmed db db' = confirmed_of db'.checkpoint ≡ confirmed_of db.checkpoint

-- What a claim tells of the update before and after it.
abbrev pub Reports : ℕ → Db → Begun × Db → Type 0
Reports id db p =
    (SaysOver p.0.disposition → TerminalIn p.1 id)
    × (SaysExecute p.0.disposition → TerminalIn db id → ⊥)
    × SameConfirmed db p.1

at_written :
    (id : ℕ) (row : Attempt) (db db' : Db) → Writes id row db db' → find_attempt db' id ≡ some row
at_written id row db db' writes = writes id ∙ rw ((==_iff id id).1 refl) refl

advanced-TerminalIn :
    (id next now : ℕ) (db db' : Db)
    → advance_next_offset next now db ≡ ok db'
    → TerminalIn db id
    → TerminalIn db' id
unfolding find_attempt
advanced-TerminalIn id next now db db' moved (r, found, over) =
    (r, rw (advance-attempts next now db db' moved) found, over)

advance_row-confirmed :
    (next now : ℕ) (c c' : Checkpoint)
    → advance_row next now (some c) ≡ ok c'
    → c'.confirmed_offset ≡ c.confirmed_offset
unfolding advance_row advanced
advance_row-confirmed next now c c' h = go (leb c.confirmed_offset next) h
  where
    go :
        (b : Bool)
        → (if b then ok (advanced next now c) else err checkpoint_missing) ≡ ok c'
        → c'.confirmed_offset ≡ c.confirmed_offset
    go true e = sym (ap (λ (d : Checkpoint). d.confirmed_offset) (ok-injective e))
    go false e = cc

advanced-SameConfirmed :
    (next now : ℕ) (db db' : Db) → advance_next_offset next now db ≡ ok db' → SameConfirmed db db'
unfolding advance_next_offset advance_row
advanced-SameConfirmed next now db db' moved = go db.checkpoint moved
  where
    done_row_of :
        (c : Checkpoint) (m : Result Checkpoint)
        → m ≡ advance_row next now (some c)
        → (m >>= λ c. ok (record db { checkpoint = some c })) ≡ ok db'
        → confirmed_of db'.checkpoint ≡ c.confirmed_offset
    done_row_of c (err e) w h = cc
    done_row_of c (ok c') w h =
        sym (ap (λ (d : Db). confirmed_of d.checkpoint) (ok-injective h))
        ∙ advance_row-confirmed next now c c' (sym w)

    go :
        (o : Option Checkpoint)
        → (advance_row next now o >>= λ c. ok (record db { checkpoint = some c })) ≡ ok db'
        → confirmed_of db'.checkpoint ≡ confirmed_of o
    go none h = cc
    go (some c) h = done_row_of c (advance_row next now (some c)) refl h

module _ (db : Db) (distinct : Distinct attempt_id db.attempts) (id : ℕ) where
  written-SameConfirmed :
      (q : Attempt → Bool) (f : Attempt → Attempt)
      → ((r : Attempt) → attempt_id (f r) ≡ attempt_id r)
      → (db' : Db) → update_attempt id q f db ≡ ok db'
      → SameConfirmed db db'
  written-SameConfirmed q f same db' written =
      let (_, _, _, _, kept) = update_attempt_ok db id q f distinct same db' written in
      ap confirmed_of kept

  -- Only the row of an open attempt is written.
  opens_only :
      (q : Attempt → Bool) (f : Attempt → Attempt)
      → ((r : Attempt) → attempt_id (f r) ≡ attempt_id r)
      → ((r : Attempt) → q r ≡ true → is_open r ≡ true)
      → (db' : Db) → update_attempt id q f db ≡ ok db'
      → TerminalIn db id
      → ⊥
  opens_only q f same opens db' written (r, found, over) =
      let (s, here, test, _, _) = update_attempt_ok db id q f distinct same db' written in
      let open_s = opens s test in clash s here open_s
    where
      clash : (s : Attempt) → find_attempt db id ≡ some s → is_open s ≡ true → ⊥
      clash s here open_s = ground (arith, found, here, over, open_s)

  written-TerminalIn :
      (q : Attempt → Bool) (f : Attempt → Attempt)
      → ((r : Attempt) → attempt_id (f r) ≡ attempt_id r)
      → ((r : Attempt) → is_terminal (f r).status ≡ true)
      → (db' : Db) → update_attempt id q f db ≡ ok db'
      → TerminalIn db' id
  written-TerminalIn q f same over db' written =
      let (s, _, _, writes, _) = update_attempt_ok db id q f distinct same db' written in
      (f s, at_written id (f s) db db' writes, over s)

  claim-Reports :
      (q : Request) (now : ℕ) (r : Attempt) (failures : ℕ) (last_error : Text)
      → Returns (Reports id db) (claim q id now r failures last_error db)
  unfolding claim claimed_row
  claim-Reports q now r failures last_error =
      let row = claimed_row q (r.attempt_count + 1) failures last_error now in
      Returns-check _ (update_attempt id is_open row db) _ λ db' written. (
        λ over. absurd over,
        λ _. opens_only is_open row (λ s. refl) (λ s h. h) db' written,
        written-SameConfirmed is_open row (λ s. refl) db' written,
      )

  finish_terminal-Reports :
      (d : Disposition) (next now : ℕ) (r : Attempt)
      → (SaysExecute d → ⊥)
      → find_attempt db id ≡ some r
      → is_terminal r.status ≡ true
      → Returns (Reports id db) (finish_terminal d next now r db)
  unfolding finish_terminal
  finish_terminal-Reports d next now r no_execute found over =
      Returns-check _ (advance_next_offset next now db) _ λ db' moved. (
        λ _. advanced-TerminalIn id next now db db' moved (r, found, over),
        λ x. absurd (no_execute x),
        advanced-SameConfirmed next now db db' moved,
      )

  expire_running-Reports :
      (q : Request) (next now : ℕ) (r : Attempt)
      → Returns (Reports id db) (expire_running q id next now r db)
  unfolding expire_running mark_dead dead_row
  expire_running-Reports q next now r =
      let row = dead_row (r.failure_count + 1) lease_expired_error now in
      Returns-if _ (leb (pos_part q.max_failures) (r.failure_count + 1)) _ _
        (λ _. Returns-check _ (update_attempt id is_open row db) _ λ db' written.
          Returns-check _ (advance_next_offset next now db') _ λ db'' moved. (
            λ _.
                advanced-TerminalIn id next now db' db'' moved
                  (written-TerminalIn is_open row (λ s. refl) (λ s. refl) db' written),
            λ x. absurd x,
            advanced-SameConfirmed next now db' db'' moved
                ∙ written-SameConfirmed is_open row (λ s. refl) db' written,
          ))
        (λ _. claim-Reports q now r (r.failure_count + 1) lease_expired_error)

  resume-Reports :
      (q : Request) (next now : ℕ) (s : Status) (r : Attempt)
      → r.status ≡ s
      → find_attempt db id ≡ some r
      → Returns (Reports id db) (resume q id next now s r db)
  unfolding resume report_busy
  resume-Reports q next now done r e found =
      finish_terminal-Reports already_terminal next now r (λ x. x) found (rw e refl)
  resume-Reports q next now dead r e found =
      finish_terminal-Reports poisoned next now r (λ x. x) found (rw e refl)
  resume-Reports q next now pending r e found = claim-Reports q now r r.failure_count []
  resume-Reports q next now failed r e found = claim-Reports q now r r.failure_count r.last_error
  resume-Reports q next now running r e found =
      Returns-check _ (parse_lease r.lease_until) _ λ expires_at _.
        Returns-if _ (ltb now expires_at) _ _ (λ _. (λ x. absurd x, λ x. absurd x, refl))
          (λ _. expire_running-Reports q next now r)
  resume-Reports q next now stuck r e found =
      Returns-check _ (parse_lease r.lease_until) _ λ expires_at _.
        Returns-if _ (ltb now expires_at) _ _ (λ _. (λ x. absurd x, λ x. absurd x, refl))
          (λ _. claim-Reports q now r r.failure_count r.last_error)

  claim_or_resume-Reports :
      (q : Request) (next now : ℕ) (o : Option Attempt)
      → find_attempt db id ≡ o
      → Returns (Reports id db) (claim_or_resume q id next now o db)
  unfolding claim_or_resume
  claim_or_resume-Reports q next now none absent =
      (λ x. absurd x, λ _ (r, found, _). absurd (clash r (sym absent ∙ found)), refl)
    where
      clash : (r : Attempt) → none ≡ some r → ⊥
      clash r e = cc
  claim_or_resume-Reports q next now (some r) found =
      resume-Reports q next now r.status r refl found

pub begin_tx-Reports :
    (db : Db)
    → Distinct attempt_id db.attempts
    → (q : Request) (now : ℕ) → Returns (Reports (pos_part q.update_id) db) (begin_tx q now db)
unfolding begin_tx
begin_tx-Reports db distinct q now = Returns-check _ (check_request q now) _ λ next _.
    Returns-check _ (require_checkpoint_row db.checkpoint) _
      λ _ _. claim_or_resume-Reports db distinct (pos_part q.update_id) q next now _ refl

pub complete_tx-TerminalIn :
    (db : Db)
    → Distinct attempt_id db.attempts
    → (u n : ℤ) (token : Text) (now : ℕ)
    → Returns
        (λ (p : Unit {0} × Db). TerminalIn p.1 (pos_part u) × SameConfirmed db p.1)
        (complete_tx u n token now db)
unfolding complete_tx done_row
complete_tx-TerminalIn db distinct u n token now =
    Returns-check _ (validate_update_transition u n) _ λ _ _.
      Returns-check _ (guard (owner_token_fits token) bad_owner_token) _ λ _ _.
        Returns-check _ (update_attempt (pos_part u) (is_owned token) (done_row now) db) _
          λ db' written. Returns-check _ (advance_next_offset (pos_part n) now db') _ λ db'' moved.
            (
              advanced-TerminalIn (pos_part u) (pos_part n) now db' db'' moved (
                  written-TerminalIn db distinct (pos_part u) (is_owned token) (done_row now)
                    (λ s. refl) (λ s. refl) db' written),
              advanced-SameConfirmed (pos_part n) now db' db'' moved
                  ∙ written-SameConfirmed db distinct (pos_part u) (is_owned token) (done_row now)
                      (λ s. refl) db' written,
            )

-- A failure that reports the end of the update.
abbrev pub EndsIf : ℕ → Db → Bool × Db → Type 0
EndsIf id db (dead_now, db') = (dead_now ≡ true → TerminalIn db' id) × SameConfirmed db db'

fail_owned-EndsIf :
    (db : Db)
    → Distinct attempt_id db.attempts
    → (id next : ℕ) (token : Text) (most : ℕ) (cause : Text) (hold : Option Time) (now failures : ℕ)
    → Returns (EndsIf id db) (fail_owned id next token most cause hold now failures db)
unfolding fail_owned mark_dead dead_row failed_row
fail_owned-EndsIf db distinct id next token most cause hold now failures =
    let row = dead_row failures cause now in
    Returns-if _ (leb most failures) _ _
      (λ _. Returns-check _ (update_attempt id is_open row db) _ λ db' written.
        Returns-check _ (advance_next_offset next now db') _ λ db'' moved. (
          λ _.
              advanced-TerminalIn id next now db' db'' moved
                (written-TerminalIn db distinct id is_open row (λ s. refl) (λ s. refl) db' written),
          advanced-SameConfirmed next now db' db'' moved
              ∙ written-SameConfirmed db distinct id is_open row (λ s. refl) db' written,
        ))
      (λ _. Returns-check _ (hold_for token hold now) _ λ held _.
        Returns-check _ (update_attempt id (is_owned token) (failed_row failures held cause now) db)
          _
          λ db' written. (
            λ e. cc,
            written-SameConfirmed db distinct id (is_owned token)
                (failed_row failures held cause now) (λ s. refl) db' written,
          ))

pub fail_tx-EndsIf :
    (db : Db)
    → Distinct attempt_id db.attempts
    → (u n : ℤ) (token : Text) (most : ℤ) (cause : Text) (hold : Option Time) (now : ℕ)
    → Returns (EndsIf (pos_part u) db) (fail_tx u n token most cause hold now db)
unfolding fail_tx
fail_tx-EndsIf db distinct u n token most cause hold now =
    Returns-check _ (validate_update_transition u n) _ λ _ _.
      Returns-check _ (guard (ltb_ℤ (pos 0) most) bad_threshold) _ λ _ _.
        Returns-check _ (guard (owner_token_fits token) bad_owner_token) _ λ _ _.
          Returns-check _ (guard (not (ltb max_error_bytes (length cause))) cause_too_long) _ λ _ _.
            Returns-check _ (require_checkpoint_row db.checkpoint) _ λ _ _.
              Returns-check _ (owned_failures token (find_attempt db (pos_part u))) _ λ failures _.
                fail_owned-EndsIf db distinct (pos_part u) (pos_part n) token (pos_part most) cause
                  hold now (failures + 1)
