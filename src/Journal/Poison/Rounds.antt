-- ===== src/Journal/Poison/Rounds.antt =====
-- An update that fails in every round of BeginUpdateAttempt and FailUpdateAttempt.
use lofi_bot.Prelude.{
  ℕ, suc, ◌+◌, ◌≤◌, ◌<◌, ◌≡◌, refl, sym, subst, ap, ◌∙◌, arith, List, [], ◌∷◌, Option, none, some,
  Bool, true, false, All, ltb, length, find_key, ==_iff,
}
use lofi_bot.Prelude.Int.{ℤ, pos, negsuc, pos_part, ltb_ℤ}
use lofi_bot.Prelude.Text.{Text}
use lofi_bot.Journal.Rows.{
  Time, failed, dead, Checkpoint, Attempt, Db, Result, ok, JournalError, guard, max_error_bytes,
  max_kind_bytes, max_action_bytes, bad_owner_token, bad_threshold, lease_not_future,
}
use lofi_bot.Journal.Labels.{
  validate_update_transition, update_successor, validate_label, owner_token_fits,
}
use lofi_bot.Journal.Attempts.{
  Request, find_attempt, is_open, check_request, first_row, claimed_row, claim, resume,
  claim_or_resume, begin_tx, begin_update_attempt, fail_update_attempt, failed_row, dead_row,
  hold_for,
}
use lofi_bot.Journal.Invariant.{Inv, begin-Kept, fail-Kept, next_of, Returns, Returns-check}
use lofi_bot.Journal.Effects.{Writes, update_attempt_found}
use lofi_bot.Journal.Fencing.{IsOwnedBy, checkpoint_row_present}
use lofi_bot.Journal.Poison.Outcomes.{fail_poisons, fail_retries}

guard_holds : (b : Bool) (e : JournalError) (t : Unit {0}) → guard b e ≡ ok t → b ≡ true
guard_holds true e t h = refl
guard_holds false e t h = cc

-- What the checks of a request leave to the operations that follow.
record IsAccepted (q : Request) (next : ℕ) : Type 0 where
  valid : validate_update_transition q.update_id (pos next) ≡ ok tt
  fits : owner_token_fits q.owner_token ≡ true
  threshold : ltb_ℤ (pos 0) q.max_failures ≡ true

successor_valid :
    (u : ℤ) (next : ℕ)
    → update_successor u ≡ ok next
    → validate_update_transition u (pos next) ≡ ok tt
unfolding update_successor validate_update_transition
successor_valid (pos u) next h = ground arith
successor_valid (negsuc u) next h = cc

check_request_accepts :
    (q : Request) (now : ℕ) → Returns (λ next. IsAccepted q next) (check_request q now)
unfolding check_request
check_request_accepts q now = Returns-check _ (update_successor q.update_id) _ λ next successor.
    Returns-check _ (validate_label q.update_kind max_kind_bytes false) _ λ _ _.
      Returns-check _ (validate_label q.action max_action_bytes true) _ λ _ _.
        Returns-check _ (guard (owner_token_fits q.owner_token) bad_owner_token) _ λ t fit.
          Returns-check _ (guard (ltb_ℤ (pos 0) q.max_failures) bad_threshold) _ λ s above.
            Returns-check _ (guard (ltb now q.lease_until) lease_not_future) _ λ _ _. record {
              valid = successor_valid q.update_id next successor;
              fits = guard_holds _ _ t fit;
              threshold = guard_holds _ _ s above;
            }

-- The update has failed k times, and waits for its next attempt.
abbrev pub FailedTimes : ℕ → Option Attempt → Type 0
FailedTimes k none = k ≡ 0
FailedTimes k (some r) = (r.status ≡ failed) × (r.failure_count ≡ k)

module _ (q : Request) (next : ℕ) (cause : Text) (short : length cause ≤ max_error_bytes) where
  -- The update is begun under the request, and its owner reports a failure at once.
  pub fail_once : Time → Db → Db
  fail_once now db =
      (fail_update_attempt q.update_id (pos next) q.owner_token q.max_failures cause none now
        (begin_update_attempt q now db).0).0

  pub fail_often : List Time → Db → Db
  fail_often [] db = db
  fail_often (t ∷ ts) db = fail_often ts (fail_once t db)

  -- The update is owned under the request, with k failures.
  Owned : ℕ → Db → Db → Type 0
  Owned k db db' =
      (r : Attempt) × (find_attempt db' (pos_part q.update_id) ≡ some r)
      × IsOwnedBy q.owner_token r
      × (r.failure_count ≡ k)
      × (db'.checkpoint ≡ db.checkpoint)

  begin_owns :
      (k now : ℕ) (db : Db) (c : Checkpoint) (o : Option Attempt)
      → Inv db
      → db.checkpoint ≡ some c
      → check_request q now ≡ ok next
      → find_attempt db (pos_part q.update_id) ≡ o
      → FailedTimes k o
      → Owned k db (begin_update_attempt q now db).0
  unfolding begin_update_attempt begin_tx claim_or_resume Owned find_attempt find_key first_row
      resume claim claimed_row
  begin_owns k now db c none v checkpoint accepted found waits =
      let id = pos_part q.update_id in
      rw (accepted, checkpoint_row_present c checkpoint, found)
        (
          first_row q id now,
          rw ((==_iff id id).1 refl) refl,
          record { is_running = refl; token_matches = refl },
          omega (arith, waits),
          refl,
        )
  begin_owns k now db c (some r) v checkpoint accepted found (is_failed, count) =
      let id = pos_part q.update_id in
      let f = claimed_row q (r.attempt_count + 1) r.failure_count r.last_error now in
      let (wrote, writes) =
        update_attempt_found db id is_open f v.rows.distinct (λ s. refl) r found
          (rw is_failed refl) in
      rw (accepted, checkpoint_row_present c checkpoint, found, is_failed, wrote)
        (
          f r,
          writes id ∙ rw ((==_iff id id).1 refl) refl,
          record { is_running = refl; token_matches = refl },
          count,
          refl,
        )

  IsAccepted-of : (now : ℕ) → check_request q now ≡ ok next → IsAccepted q next
  IsAccepted-of now accepted =
      subst (λ m. Returns (λ next. IsAccepted q next) m) accepted (check_request_accepts q now)

  threshold_pos : (z : ℤ) → ltb_ℤ (pos 0) z ≡ true → (z ≡ pos (pos_part z)) × (0 < pos_part z)
  threshold_pos (pos n) h = (refl, ground arith)
  threshold_pos (negsuc n) h = absurd (ground (arith, h))

  failed_db : ℤ → Time → Db → Db
  failed_db z now db =
      (fail_update_attempt q.update_id (pos next) q.owner_token z cause none now db).0

  written_row :
      (db db' : Db) (r : Attempt)
      → Writes (pos_part q.update_id) r db db'
      → find_attempt db' (pos_part q.update_id) ≡ some r
  written_row db db' r writes =
      writes (pos_part q.update_id)
      ∙ rw ((==_iff (pos_part q.update_id) (pos_part q.update_id)).1 refl) refl

  -- The update is dead after all the failures it may have, with the last cause, and the next poll is past it.
  pub GivenUp : Db → Type 0
  GivenUp db =
      (r : Attempt) × (find_attempt db (pos_part q.update_id) ≡ some r)
      × (r.status ≡ dead)
      × (r.failure_count ≡ pos_part q.max_failures)
      × (r.last_error ≡ cause)
      × (next ≤ next_of db.checkpoint)

  -- One more failure below the threshold: the update waits again, and the offset stays.
  retry_round :
      (k now : ℕ) (db : Db) (c : Checkpoint)
      → Inv db
      → db.checkpoint ≡ some c
      → check_request q now ≡ ok next
      → FailedTimes k (find_attempt db (pos_part q.update_id))
      → k + 1 < pos_part q.max_failures
      → Inv (fail_once now db)
        × ((fail_once now db).checkpoint ≡ some c)
        × FailedTimes (k + 1) (find_attempt (fail_once now db) (pos_part q.update_id))
  unfolding fail_once Owned hold_for failed_row failed_db
  retry_round k now db c v checkpoint accepted waits below =
      let begun = (begin_update_attempt q now db).0 in
      let (r, found, owned, count, kept) =
        begin_owns k now db c (find_attempt db (pos_part q.update_id)) v checkpoint accepted refl
          waits in
      let facts = IsAccepted-of now accepted in
      let (same, above) = threshold_pos q.max_failures facts.threshold in
      let sound = (begin-Kept q now db v).0 in
      let (after, failed_so, writes, still) =
        fail_retries q.update_id (pos next) q.owner_token (pos_part q.max_failures) cause none now
          begun c r sound facts.valid facts.fits above short (kept ∙ checkpoint) found owned
          (omega (arith, count)) tt in
      let moved : fail_once now db ≡ after =
        ap (λ z. failed_db z now begun) same ∙ ap (λ (p : Db × Result Bool). p.0) failed_so in
      (
        (fail-Kept q.update_id (pos next) q.owner_token q.max_failures cause none now begun
            sound).0,
        ap (λ (d : Db). d.checkpoint) moved ∙ (still ∙ (kept ∙ checkpoint)),
        subst (λ d. FailedTimes (k + 1) (find_attempt d (pos_part q.update_id))) (sym moved)
            (rw (written_row begun after _ writes) (refl, omega (arith, count))),
      )

  -- One more failure at the threshold: the update is dead, and the offset is past it.
  last_round :
      (k now : ℕ) (db : Db) (c : Checkpoint)
      → Inv db
      → db.checkpoint ≡ some c
      → check_request q now ≡ ok next
      → c.confirmed_offset ≤ next
      → FailedTimes k (find_attempt db (pos_part q.update_id))
      → k + 1 ≡ pos_part q.max_failures
      → GivenUp (fail_once now db)
  unfolding fail_once Owned dead_row GivenUp failed_db
  last_round k now db c v checkpoint accepted unconfirmed waits reached =
      let begun = (begin_update_attempt q now db).0 in
      let (r, found, owned, count, kept) =
        begin_owns k now db c (find_attempt db (pos_part q.update_id)) v checkpoint accepted refl
          waits in
      let facts = IsAccepted-of now accepted in
      let (same, above) = threshold_pos q.max_failures facts.threshold in
      let sound = (begin-Kept q now db v).0 in
      let (after, failed_so, writes, passed) =
        fail_poisons q.update_id (pos next) q.owner_token (pos_part q.max_failures) cause none now
          begun c r sound facts.valid facts.fits above short (kept ∙ checkpoint) found owned
          unconfirmed (omega (arith, count)) in
      let moved : fail_once now db ≡ after =
        ap (λ z. failed_db z now begun) same ∙ ap (λ (p : Db × Result Bool). p.0) failed_so in
      subst GivenUp (sym moved) (
        _,
        written_row begun after _ writes,
        refl,
        omega (arith, count),
        refl,
        omega (arith, passed),
      )

  -- On a sound journal let an update whose successor is not below the confirmed offset have failed
  -- k times and wait, or be new with k = 0. If it is then begun and failed at once (no hold, a
  -- cause that fits) in as many accepted rounds as are left to `max_failures`, the last round
  -- leaves its row dead with `max_failures` failures and the last cause, and the next offset past
  -- it.
  pub fail_often_lem :
      (ts : List Time) (t : Time) (k : ℕ) (db : Db) (c : Checkpoint)
      → Inv db
      → db.checkpoint ≡ some c
      → c.confirmed_offset ≤ next
      → All (λ now. check_request q now ≡ ok next) (t ∷ ts)
      → FailedTimes k (find_attempt db (pos_part q.update_id))
      → k + suc (length ts) ≡ pos_part q.max_failures
      → GivenUp (fail_often (t ∷ ts) db)
  unfolding fail_often
  fail_often_lem [] t k db c v checkpoint unconfirmed (accepted, _) waits count =
      last_round k t db c v checkpoint accepted unconfirmed waits (omega (arith, count))
  fail_often_lem (s ∷ ts) t k db c v checkpoint unconfirmed (accepted, rest) waits count =
      let (sound, still, waits') = retry_round k t db c v checkpoint accepted waits (omega arith) in
      fail_often_lem ts s (k + 1) (fail_once t db) c sound still unconfirmed rest waits'
        (omega (arith, count))
