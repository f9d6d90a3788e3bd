-- ===== src/Journal/Retention.antt =====
-- Which rows the upkeep of the journal may change or delete.
use lofi_bot.Prelude.{
  ℕ, ◌-◌, ◌≤◌, ◌<◌, ◌≡◌, ◌⊎◌, inl, inr, refl, sym, ap, ◌∙◌, arith, [], Option, none, some, true,
  ◌&&◌, ◌||◌, Distinct, update_selected,
}
use lofi_bot.Journal.Rows.{
  Time, Status, pending, running, stuck, failed, done, dead, Lease, null, malformed, until,
  status_eq, is_terminal, Attempt, Db, done_retention_limit, done_retention_age,
  dead_retention_limit, prune_batch_size, abandoned_update_error,
}
use lofi_bot.Journal.Attempts.{attempt_id, find_attempt}
use lofi_bot.Journal.Maintenance.{
  is_replayable, lease_over, abandoned_row, abandoned_ids, reconcile_abandoned, prune_terminal,
  upkeep, by_id,
}
use lofi_bot.Journal.Pruning.{prune_rows}
use lofi_bot.Journal.Invariant.{is_abandoned, reconcile-Distinct, prune-Distinct}

module _ (julianday : Time → ℕ) where
  -- Reconciling gives up attempts below the confirmed offset that no live lease protects, and leaves
  -- every other row as it is.
  pub reconcile_rows :
      (confirmed now : ℕ) (db : Db) (j : ℕ)
      → Distinct attempt_id db.attempts
      → let db' = reconcile_abandoned julianday confirmed now db in
        (find_attempt db' j ≡ find_attempt db j)
        ⊎ ((r : Attempt) × (find_attempt db j ≡ some r)
            × (find_attempt db' j ≡ some (abandoned_row julianday now r))
            × (is_abandoned julianday confirmed now r ≡ true))
  unfolding reconcile_abandoned abandoned_ids find_attempt abandoned_row
  reconcile_rows confirmed now db j d =
      update_selected attempt_id (is_abandoned julianday confirmed now) by_id prune_batch_size
        db.attempts d (abandoned_row julianday now) (λ r. refl) j

  -- The lease is missing, is no time, or has run out by now.
  abbrev pub IsOver : Time → Lease → Type 0
  IsOver now null = Unit
  IsOver now malformed = Unit
  IsOver now (until t) = julianday t ≤ julianday now

  abbrev pub IsFinished : Attempt → Type 0
  IsFinished r = (r.status ≡ done) ⊎ (r.status ≡ dead)

  -- The row waits, or is held without a lease in force.
  abbrev pub IsUnattended : Time → Attempt → Type 0
  IsUnattended now r =
      (r.status ≡ pending)
      ⊎ (r.status ≡ failed)
      ⊎ (((r.status ≡ running) ⊎ (r.status ≡ stuck)) × IsOver now r.lease_until)

  -- What became of a row: it was finished or unattended, and is gone, or it was unattended, and is
  -- dead.
  abbrev pub Outcome : Time → Attempt → Option Attempt → Type 0
  Outcome now r o =
      ((IsFinished r ⊎ IsUnattended now r) × (o ≡ none))
      ⊎ (IsUnattended now r
          × (o
              ≡ some (record r {
                status = dead;
                owner_token = [];
                lease_until = null;
                last_error = abandoned_update_error;
                updated_at = now;
                finished_at = some now;
              })))

  -- What a row must be for the upkeep to touch it, and what it leaves of it.
  abbrev pub IsUpkept : ℕ → Time → Attempt → Option Attempt → Type 0
  IsUpkept confirmed now r o = (r.update_id < confirmed) × Outcome now r o

  terminal-IsFinished : (r : Attempt) → is_terminal r.status ≡ true → IsFinished r
  terminal-IsFinished r e = go r.status refl e
    where
      go : (s : Status) → r.status ≡ s → is_terminal s ≡ true → IsFinished r
      go done same e = inl same
      go dead same e = inr same
      go pending same e = cc
      go running same e = cc
      go stuck same e = cc
      go failed same e = cc

  dead_attended : (now : Time) (r : Attempt) → r.status ≡ dead → IsUnattended now r → ⊥
  dead_attended now r e (inl h) = cc
  dead_attended now r e (inr (inl h)) = cc
  dead_attended now r e (inr (inr (inl h, over))) = cc
  dead_attended now r e (inr (inr (inr h, over))) = cc

  replayable-IsUnattended :
      (now : Time) (r : Attempt) → is_replayable julianday now r ≡ true → IsUnattended now r
  unfolding is_replayable
  replayable-IsUnattended now r e = go r.status refl e
    where
      over : (l : Lease) → lease_over julianday now l ≡ true → IsOver now l
      over null e = tt
      over malformed e = tt
      over (until t) e = ground arith

      go :
          (s : Status)
          → r.status ≡ s
          → ((status_eq s pending || status_eq s failed)
              || ((status_eq s running || status_eq s stuck)
                  && lease_over julianday now r.lease_until))
            ≡ true
          → IsUnattended now r
      go done same e = cc
      go dead same e = cc
      go pending same e = inl same
      go failed same e = inr (inl same)
      go running same e = inr (inr (inl same, over r.lease_until e))
      go stuck same e = inr (inr (inr same, over r.lease_until e))

  abbrev status_of : Option Attempt → Status
  status_of none = dead
  status_of (some r) = r.status

  abbrev Change : ℕ → Time → Option Attempt → Option Attempt → Type 0
  Change confirmed now before after =
      (after ≡ before) ⊎ ((r : Attempt) × (before ≡ some r) × IsUpkept confirmed now r after)

  abbrev Changed : ℕ → Time → Db → Db → Type 0
  Changed confirmed now db db' =
      (j : ℕ) → Change confirmed now (find_attempt db j) (find_attempt db' j)

  -- A row that is gone stays so; one that was given up may be deleted.
  Outcome-Change :
      (confirmed now : ℕ) (r : Attempt) (before after : Option Attempt)
      → Outcome now r before
      → Change confirmed now before after
      → Outcome now r after
  Outcome-Change confirmed now r before after (inl (free, gone)) (inl same) =
      inl (free, same ∙ gone)
  Outcome-Change confirmed now r before after (inl (free, gone)) (inr (s, found, _)) = cc
  Outcome-Change confirmed now r before after (inr (left, is_dead)) (inl same) =
      inr (left, same ∙ is_dead)
  Outcome-Change confirmed now r before after (inr (left, is_dead))
        (inr (s, found, (_, inl (_, gone)))) =
      inl (inr left, gone)
  Outcome-Change confirmed now r before after (inr (left, is_dead))
        (inr (s, found, (_, inr (left_s, _)))) =
      absurd (dead_attended now s (sym (ap status_of found) ∙ ap status_of is_dead) left_s)

  Changed-trans :
      (confirmed now : ℕ) (db db' db'' : Db)
      → Changed confirmed now db db'
      → Changed confirmed now db' db''
      → Changed confirmed now db db''
  Changed-trans confirmed now db db' db'' h k j = elim (h j) [
    | inr (r, found, (below, outcome)) ↦ inr (
      r,
      found,
      (
        below,
        Outcome-Change confirmed now r (find_attempt db' j) (find_attempt db'' j) outcome (k j),
      ),
    )
    | inl same ↦ elim (k j) [
      | inl same' ↦ inl (same' ∙ same)
      | inr (r, found, upkept) ↦ inr (r, sym same ∙ found, upkept)
    ]
  ]

  prune-Changed :
      (status : Status) (confirmed limit cutoff now : ℕ) (db : Db)
      → is_terminal status ≡ true
      → Distinct attempt_id db.attempts
      → Changed confirmed now db (prune_terminal status confirmed limit cutoff db).0
  prune-Changed status confirmed limit cutoff now db t d j =
      elim ((prune_rows status confirmed limit cutoff db d).0 j) [
        | inl same ↦ inl same
        | inr (r, found, gone, prunable) ↦
            let finished = terminal-IsFinished r (terminal r prunable.finished) in
            inr (r, found, (prunable.below, inl (inl finished, gone)))
      ]
    where
      terminal : (r : Attempt) → status_eq r.status status ≡ true → is_terminal r.status ≡ true
      terminal r e = ground arith

  reconcile-Changed :
      (confirmed now : ℕ) (db : Db)
      → Distinct attempt_id db.attempts
      → Changed confirmed now db (reconcile_abandoned julianday confirmed now db)
  unfolding abandoned_row
  reconcile-Changed confirmed now db d j = elim (reconcile_rows confirmed now db j d) [
    | inl same ↦ inl same
    | inr (r, found, given_up, test) ↦ inr (
      r,
      found,
      (below r test, inr (replayable-IsUnattended now r (replayable r test), given_up)),
    )
  ]
    where
      below :
          (r : Attempt) → is_abandoned julianday confirmed now r ≡ true → r.update_id < confirmed
      below r e = ground arith

      replayable :
          (r : Attempt)
          → is_abandoned julianday confirmed now r ≡ true
          → is_replayable julianday now r ≡ true
      replayable r e = ground arith

  -- In a table with distinct ids the upkeep (abandoned attempts reconciled, done and dead ones
  -- pruned) leaves every row as it is but rows of updates below the confirmed offset that are done
  -- or dead, which may be deleted, and such rows that are pending or failed, or running or stuck
  -- under a lease that is missing, is no time, or lies by `julianday` no later than now, which may
  -- become dead as abandoned now, with no owner or lease, or be deleted.
  pub upkeep_rows :
      (confirmed now : ℕ) (db : Db) (j : ℕ)
      → Distinct attempt_id db.attempts
      → (find_attempt (upkeep julianday confirmed now db).0 j ≡ find_attempt db j)
        ⊎ ((r : Attempt) × (find_attempt db j ≡ some r)
            × IsUpkept confirmed now r (find_attempt (upkeep julianday confirmed now db).0 j))
  unfolding upkeep
  upkeep_rows confirmed now db j d =
      let reconciled = reconcile_abandoned julianday confirmed now db in
      let pruned =
        (prune_terminal done confirmed done_retention_limit (now - done_retention_age)
          reconciled).0 in
      let distinct_then = reconcile-Distinct julianday confirmed now db d in
      let distinct_last =
        prune-Distinct done confirmed done_retention_limit (now - done_retention_age) reconciled
          distinct_then in
      Changed-trans confirmed now db reconciled _ (reconcile-Changed confirmed now db d)
        (Changed-trans confirmed now reconciled pruned _
          (prune-Changed done confirmed done_retention_limit _ now reconciled refl distinct_then)
          (prune-Changed dead confirmed dead_retention_limit _ now pruned refl distinct_last))
        j
