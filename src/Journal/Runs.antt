-- ===== src/Journal/Runs.antt =====
-- Any history of the journal: every operation, in any order, from a fresh database.
use lofi_bot.Prelude.{
  ℕ, ◌<◌, ◌⊎◌, inl, inr, ◌∙◌, true, ltb, leb, Distinct, find_key-id, ◌≡◌, refl, arith, List, [],
  ◌∷◌, Option, none, some,
}
use lofi_bot.Prelude.Int.{ℤ, pos, negsuc}
use lofi_bot.Prelude.Text.{Text}
use lofi_bot.Journal.Rows.{Time, Checkpoint, Attempt, Db, is_terminal, Result, ok, err, transact}
use lofi_bot.Journal.Attempts.{
  attempt_id, find_attempt, Request, begin_update_attempt, complete_update_attempt,
  abort_update_attempt, fail_update_attempt,
}
use lofi_bot.Journal.Maintenance.{
  migrate_update_journal, migrated, confirm_tx, confirm_update_offset, prune_tx,
  prune_update_journal, upkeep,
}
use lofi_bot.Journal.Finality.{
  Persists, begin-Persists, complete-Persists, abort-Persists, fail-Persists,
}
use lofi_bot.Journal.Retention.{upkeep_rows}
use lofi_bot.Journal.Invariant.{
  Inv, next_of, confirmed_of, begin-Kept, complete-Kept, abort-Kept, fail-Kept, confirm-Kept,
  prune-Kept, Kept, Returns, Returns-if,
}

pub data Call : Type 0 where
  begins : Request → Call
  completes : ℤ → ℤ → Text → Call
  aborts : ℤ → Text → Call
  fails : ℤ → ℤ → Text → ℤ → Text → Option Time → Call
  confirms : ℤ → Call
  prunes migrates : Call

migrated_lem :
    (now : ℕ) (c : Option Checkpoint)
    → (next_of (migrated now c) ≡ next_of c) × (confirmed_of (migrated now c) ≡ confirmed_of c)
unfolding migrated
migrated_lem now none = (refl, refl)
migrated_lem now (some c) = (refl, refl)

module _ (julianday : Time → ℕ) where
  -- A call at a time, of which only the effect on the tables is kept.
  unfoldable pub step : Db → Time × Call → Db
  step db (now, begins q) = (begin_update_attempt q now db).0
  step db (now, completes u n token) = (complete_update_attempt u n token now db).0
  step db (now, aborts u token) = (abort_update_attempt u token now db).0
  step db (now, fails u n token most cause hold) =
      (fail_update_attempt u n token most cause hold now db).0
  step db (now, confirms offset) = (confirm_update_offset julianday offset now db).0
  step db (now, prunes) = (prune_update_journal julianday now db).0
  step db (now, migrates) = migrate_update_journal now db

  pub run : Db → List (Time × Call) → Db
  run db [] = db
  run db (c ∷ cs) = run (step db c) cs

  migrate-Kept : (now : ℕ) (db : Db) → Inv db → Kept db (migrate_update_journal now db)
  unfolding migrate_update_journal
  migrate-Kept now db v =
      let (same_next, same_confirmed) = migrated_lem now db.checkpoint in
      (
        record { ordered = rw (same_next, same_confirmed) v.ordered; rows = rw same_next v.rows },
        omega (arith, same_next),
      )

  pub step-Kept : (db : Db) (c : Time × Call) → Inv db → Kept db (step db c)
  unfolding step
  step-Kept db (now, begins q) v = begin-Kept q now db v
  step-Kept db (now, completes u n token) v = complete-Kept u n token now db v
  step-Kept db (now, aborts u token) v = abort-Kept u token now db v
  step-Kept db (now, fails u n token most cause hold) v =
      fail-Kept u n token most cause hold now db v
  step-Kept db (now, confirms offset) v = confirm-Kept julianday offset now db v
  step-Kept db (now, prunes) v = prune-Kept julianday now db v
  step-Kept db (now, migrates) v = migrate-Kept now db v

  -- Whatever operations are called at whatever times, with any `julianday`, a journal in which Inv
  -- holds (no two rows of an update, a confirmed offset at most the next one, and each row
  -- consistent with its status: owner and lease while it is held, none while it waits or is
  -- finished, and finished rows below the next offset) keeps it, and neither the next nor the
  -- confirmed offset moves back.
  pub run-Kept : (db : Db) (cs : List (Time × Call)) → Inv db → Kept db (run db cs)
  unfolding run
  run-Kept db [] v = (v, omega arith)
  run-Kept db (c ∷ cs) v =
      let first = step-Kept db c v in
      let rest = run-Kept (step db c) cs first.0 in (rest.0, omega arith)

  -- A terminal row is still there, or its update is below the confirmed offset.
  abbrev pub Stays : Db → Db → Type 0
  Stays db db' =
      (j : ℕ) (r : Attempt)
      → find_attempt db j ≡ some r
      → is_terminal r.status ≡ true
      → (find_attempt db' j ≡ some r) ⊎ (j < confirmed_of db'.checkpoint)

  Persists-Stays : (db db' : Db) → Persists db db' → Stays db db'
  Persists-Stays db db' p j r found terminal = inl (p j r found terminal)

  upkeep-Stays :
      (confirmed now : ℕ) (db : Db)
      → Distinct attempt_id db.attempts
      → confirmed_of db.checkpoint ≡ confirmed
      → Stays db (upkeep julianday confirmed now db).0
  unfolding upkeep find_attempt
  upkeep-Stays confirmed now db d e j r found terminal =
      elim (upkeep_rows julianday confirmed now db j d) [
        | inl same ↦ inl (same ∙ found)
        | inr (s, found_s, upkept) ↦
            inr (omega (arith, e, find_key-id attempt_id j db.attempts s found_s, upkept.0))
      ]

  confirm_tx-Stays :
      (offset : ℤ) (now : ℕ) (c : Option Checkpoint) (db : Db)
      → Distinct attempt_id db.attempts
      → Returns (λ (p : Unit {0} × Db). Stays db p.1) (confirm_tx julianday offset now c db)
  unfolding confirm_tx find_attempt
  confirm_tx-Stays (negsuc n) now c db d = tt
  confirm_tx-Stays (pos offset) now none db d = tt
  confirm_tx-Stays (pos offset) now (some c) db d =
      Returns-if _ (ltb c.next_offset offset) _ _ (λ _. tt)
        (λ _.
          Returns-if _ (leb offset c.confirmed_offset) _ _ (λ _ j r found _. inl found)
            (λ _.
              upkeep-Stays offset now
                (record db {
                  checkpoint = some (record c { confirmed_offset = offset; updated_at = now });
                })
                d refl))

  prune_tx-Stays :
      (now : ℕ) (c : Option Checkpoint) (db : Db)
      → db.checkpoint ≡ c
      → Distinct attempt_id db.attempts
      → Returns (λ (p : (ℕ × ℕ) × Db). Stays db p.1) (prune_tx julianday now c db)
  unfolding prune_tx
  prune_tx-Stays now none db e d = tt
  prune_tx-Stays now (some c) db e d = upkeep-Stays c.confirmed_offset now db d (rw e refl)

  transact-Stays :
      {A : Type 0} (db : Db) (m : Result (A × Db))
      → Returns (λ (p : A × Db). Stays db p.1) m
      → Stays db (transact db m).0
  transact-Stays db (ok (a, db')) h = h
  transact-Stays db (err e) h = λ j r found _. inl found

  pub step-Stays : (db : Db) (c : Time × Call) → Inv db → Stays db (step db c)
  unfolding step confirm_update_offset prune_update_journal migrate_update_journal find_attempt
  step-Stays db (now, begins q) v =
      Persists-Stays db ((begin_update_attempt q now db).0)
        (begin-Persists db v.rows.distinct q now)
  step-Stays db (now, completes u n token) v =
      Persists-Stays db ((complete_update_attempt u n token now db).0)
        (complete-Persists db v.rows.distinct u n token now)
  step-Stays db (now, aborts u token) v =
      Persists-Stays db ((abort_update_attempt u token now db).0)
        (abort-Persists db v.rows.distinct u token now)
  step-Stays db (now, fails u n token most cause hold) v =
      Persists-Stays db ((fail_update_attempt u n token most cause hold now db).0)
        (fail-Persists db v.rows.distinct u n token most cause hold now)
  step-Stays db (now, confirms offset) v =
      transact-Stays db _ (confirm_tx-Stays offset now db.checkpoint db v.rows.distinct)
  step-Stays db (now, prunes) v =
      transact-Stays db _ (prune_tx-Stays now db.checkpoint db refl v.rows.distinct)
  step-Stays db (now, migrates) v = λ j r found _. inl found

  -- From a sound journal, whatever operations are called at whatever times, a terminal row (done
  -- or dead) is still there exactly as it was, or its update lies below the confirmed offset.
  pub run-Stays :
      (db : Db) (cs : List (Time × Call)) (j : ℕ) (r : Attempt)
      → Inv db
      → find_attempt db j ≡ some r
      → is_terminal r.status ≡ true
      → (find_attempt (run db cs) j ≡ some r) ⊎ (j < confirmed_of (run db cs).checkpoint)
  unfolding run
  run-Stays db [] j r v found terminal = inl found
  run-Stays db (c ∷ cs) j r v found terminal =
      let sound = (step-Kept db c v).0 in
      let later = run-Kept (step db c) cs sound in
      elim (step-Stays db c v j r found terminal) [
        | inl stays ↦ run-Stays (step db c) cs j r sound stays terminal
        | inr confirmed ↦ inr (omega (arith, later.1.1))
      ]
