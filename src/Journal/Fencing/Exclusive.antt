-- ===== src/Journal/Fencing/Exclusive.antt =====
-- BeginUpdateAttempt: a claim that may execute is the only one until its lease ends.
use lofi_bot.Prelude.{
  ℕ, ◌+◌, ◌<◌, ◌≡◌, ◌≢◌, refl, subst, ap, ◌∙◌, [], Option, none, some, ltb, leb, Distinct, inl,
  find_key, ==_iff,
}
use lofi_bot.Prelude.Int.{pos_part}
use lofi_bot.Prelude.Text.{Text}
use lofi_bot.Journal.Rows.{
  Status, pending, running, stuck, failed, done, dead, until, Checkpoint, Attempt, Db, Result, ok,
  err, transact, lease_expired_error,
}
use lofi_bot.Journal.Attempts.{
  Request, Begun, Disposition, execute, already_terminal, busy, poisoned, attempt_id, find_attempt,
  is_open, update_attempt, advance_next_offset, mark_dead, require_checkpoint_row, check_request,
  first_row, claimed_row, claim, finish_terminal, expire_running, report_busy, resume,
  claim_or_resume, parse_lease, begin_tx, begin_update_attempt,
}
use lofi_bot.Journal.Invariant.{Inv, Returns, Returns-check, Returns-if, ok-injective}
use lofi_bot.Journal.Effects.{update_attempt_ok}
use lofi_bot.Journal.Fencing.Leases.{begin_busy}

-- The update is being worked on under the token and the lease of the request.
abbrev pub Claimed : Request → Db → Db → Type 0
Claimed q db db' =
    (r : Attempt) × (find_attempt db' (pos_part q.update_id) ≡ some r)
    × (r.status ≡ running)
    × (r.owner_token ≡ q.owner_token)
    × (r.lease_until ≡ until q.lease_until)
    × (db'.checkpoint ≡ db.checkpoint)

abbrev Grants : Request → Db → Result (Begun × Db) → Type 0
Grants q db = Returns (λ (p : Begun × Db). p.0.disposition ≡ execute → Claimed q db p.1)

module _ (q : Request) (now next : ℕ) (db : Db) (distinct : Distinct attempt_id db.attempts) where
  claim-Grants :
      (r : Attempt) (failures : ℕ) (last_error : Text)
      → Grants q db (claim q (pos_part q.update_id) now r failures last_error db)
  unfolding claim claimed_row
  claim-Grants r failures last_error =
      let id = pos_part q.update_id in
      let row = claimed_row q (r.attempt_count + 1) failures last_error now in
      Returns-check _ (update_attempt id is_open row db) _ λ db' written _.
        let (s, _, _, writes, same) =
          update_attempt_ok db id is_open row distinct (λ t. refl) db' written in
        (row s, rw ((==_iff id id).1 refl) at (writes id), refl, refl, refl, same)

  finish_terminal-Grants :
      (d : Disposition) (r : Attempt) → d ≢ execute → Grants q db (finish_terminal d next now r db)
  unfolding finish_terminal
  finish_terminal-Grants d r other =
      Returns-check _ (advance_next_offset next now db) _ λ db' _ e. absurd (other e)

  poisoned-ne-execute : poisoned ≢ execute
  poisoned-ne-execute e = cc

  expire_running-Grants :
      (r : Attempt) → Grants q db (expire_running q (pos_part q.update_id) next now r db)
  unfolding expire_running
  expire_running-Grants r =
      let id = pos_part q.update_id in
      Returns-if _ (leb (pos_part q.max_failures) (r.failure_count + 1)) _ _
        (λ _.
          Returns-check _ (mark_dead id (r.failure_count + 1) lease_expired_error now db) _ λ db' _.
            Returns-check _ (advance_next_offset next now db') _
              λ _ _ e. absurd (poisoned-ne-execute e))
        (λ _. claim-Grants r (r.failure_count + 1) lease_expired_error)

  busy-Grants : (r : Attempt) → Grants q db (report_busy r db)
  unfolding report_busy
  busy-Grants r e = cc

  resume-Grants :
      (s : Status) (r : Attempt) → Grants q db (resume q (pos_part q.update_id) next now s r db)
  unfolding resume
  resume-Grants done r = finish_terminal-Grants already_terminal r (λ e. cc)
  resume-Grants dead r = finish_terminal-Grants poisoned r (λ e. cc)
  resume-Grants pending r = claim-Grants r r.failure_count []
  resume-Grants failed r = claim-Grants r r.failure_count r.last_error
  resume-Grants running r = Returns-check _ (parse_lease r.lease_until) _ λ expires_at _.
      Returns-if _ (ltb now expires_at) _ _ (λ _. busy-Grants r) (λ _. expire_running-Grants r)
  resume-Grants stuck r = Returns-check _ (parse_lease r.lease_until) _ λ expires_at _.
      Returns-if _ (ltb now expires_at) _ _ (λ _. busy-Grants r)
        (λ _. claim-Grants r r.failure_count r.last_error)

  claim_or_resume-Grants :
      (o : Option Attempt) → Grants q db (claim_or_resume q (pos_part q.update_id) next now o db)
  unfolding claim_or_resume first_row find_attempt find_key
  claim_or_resume-Grants none = λ _. (
    first_row q (pos_part q.update_id) now,
    rw ((==_iff (pos_part q.update_id) (pos_part q.update_id)).1 refl),
    refl,
    refl,
    refl,
    refl,
  )
  claim_or_resume-Grants (some r) = resume-Grants r.status r

begin_tx-Grants : (q : Request) (now : ℕ) (db : Db) → Inv db → Grants q db (begin_tx q now db)
unfolding begin_tx
begin_tx-Grants q now db inv = Returns-check _ (check_request q now) _ λ next _.
    Returns-check _ (require_checkpoint_row db.checkpoint) _
      λ _ _. claim_or_resume-Grants q now next db inv.rows.distinct _

begun_of_transact :
    (q : Request) (db db' : Db) (b : Begun) (m : Result (Begun × Db))
    → Grants q db m
    → transact db m ≡ (db', ok b)
    → b.disposition ≡ execute
    → Claimed q db db'
begun_of_transact q db db' b (ok (b', d)) g e x =
    let same_db : d ≡ db' = ap (λ (p : Db × Result Begun). p.0) e in
    let same_begun : b' ≡ b = ok-injective (ap (λ (p : Db × Result Begun). p.1) e) in
    subst (λ (d : Db). Claimed q db d) same_db
      (g (ap (λ (t : Begun). t.disposition) same_begun ∙ x))
begun_of_transact q db db' b (err e') g e x = absurd (clash (ap (λ (p : Db × Result Begun). p.1) e))
  where
    clash : ◌≡◌ {A = Result Begun} (err e') (ok b) → ⊥
    clash k = cc

-- Let a claim of an update return `execute` on a sound journal with a checkpoint. Then until its
-- lease ends every further valid claim of the same update, by any owner, is told `busy` and leaves
-- the tables as they are.
pub begin_exclusive :
    (q p : Request) (now later next : ℕ) (db db' : Db) (c : Checkpoint) (b : Begun)
    → Inv db
    → db.checkpoint ≡ some c
    → begin_update_attempt q now db ≡ (db', ok b)
    → b.disposition ≡ execute
    → p.update_id ≡ q.update_id
    → check_request p later ≡ ok next
    → later < q.lease_until
    → (b' : Begun) × (begin_update_attempt p later db' ≡ (db', ok b')) × (b'.disposition ≡ busy)
unfolding begin_update_attempt
begin_exclusive q p now later next db db' c b inv checkpoint begun executes same accepted in_force =
    let (r, found, is_running, _, leased, kept) =
      begun_of_transact q db db' b _ (begin_tx-Grants q now db inv) begun executes in
    (
      _,
      begin_busy p later next db' c r accepted (kept ∙ checkpoint) (rw same found) (record {
        active = inl is_running;
        deadline = q.lease_until;
        leased = leased;
        in_force = in_force;
      }),
      refl,
    )
