-- ===== src/Journal/Invariant/Upkeep.antt =====
-- Reconciling and pruning keep the invariant, and change no row but those they are meant for.
use lofi_bot.Prelude.{
  ℕ, ◌-◌, ◌≤◌, ◌<◌, ◌≡◌, refl, arith, List, Option, none, some, Bool, true, false, ◌&&◌, ltb, leb,
  if◌then◌else◌, All-update_where, All-delete_where, Distinct, Distinct-update_where,
  Distinct-delete_where, find_key-id, contains_id, select_keys-Selected, Selected,
}
use lofi_bot.Prelude.Int.{ℤ, pos, negsuc}
use lofi_bot.Journal.Rows.{
  Time, Status, done, dead, Checkpoint, Attempt, Db, done_retention_limit, done_retention_age,
  dead_retention_limit, dead_retention_age, prune_batch_size, beyond_next_offset, ok, err,
}
use lofi_bot.Journal.Attempts.{attempt_id}
use lofi_bot.Journal.Maintenance.{
  is_replayable, abandoned_row, abandoned_ids, reconcile_abandoned, prune_terminal, upkeep,
  confirm_tx, confirm_update_offset, prune_tx, prune_update_journal, by_id,
}
use lofi_bot.Journal.Invariant.Defs.{next_of, RowOk, RowsOk, Inv, Returns}
use lofi_bot.Journal.Invariant.Steps.{Kept}
use lofi_bot.Journal.Invariant.RowChanges.{RowOk-failures}
use lofi_bot.Journal.Invariant.Attempts.{transact-Kept}

pub prune-Distinct :
    (status : Status) (confirmed limit cutoff : ℕ) (db : Db)
    → Distinct attempt_id db.attempts
    → Distinct attempt_id (prune_terminal status confirmed limit cutoff db).0.attempts
unfolding prune_terminal
prune-Distinct status confirmed limit cutoff db d = Distinct-delete_where attempt_id _ db.attempts d

prune-RowsOk :
    (status : Status) (confirmed limit cutoff bound : ℕ) (db : Db)
    → RowsOk bound db.attempts
    → RowsOk bound (prune_terminal status confirmed limit cutoff db).0.attempts
unfolding prune_terminal
prune-RowsOk status confirmed limit cutoff bound db v = record {
  distinct = prune-Distinct status confirmed limit cutoff db v.distinct;
  each = All-delete_where (RowOk bound) _ db.attempts v.each;
}

module _ (julianday : Time → ℕ) where
  abandoned_row-RowOk :
      (bound now : ℕ) (r : Attempt)
      → r.update_id < bound
      → RowOk bound r
      → RowOk bound (abandoned_row julianday now r)
  unfolding abandoned_row
  abandoned_row-RowOk bound now r h v = record {
    below = h;
    failures = RowOk-failures bound r.status r v;
    no_owner = refl;
    no_lease = refl;
    stamp = now;
    stamped = refl;
  }

  -- The test by which `reconcile_abandoned` selects.
  abbrev pub is_abandoned : ℕ → Time → Attempt → Bool
  is_abandoned confirmed now r = ltb r.update_id confirmed && is_replayable julianday now r

  pub abandoned-Selected :
      (confirmed now : ℕ) (rows : List Attempt) (k : ℕ)
      → Distinct attempt_id rows
      → contains_id k (abandoned_ids julianday confirmed now rows) ≡ true
      → Selected attempt_id (is_abandoned confirmed now) rows k
  unfolding abandoned_ids
  abandoned-Selected confirmed now rows k d h =
      select_keys-Selected attempt_id (is_abandoned confirmed now) by_id prune_batch_size rows k d h

  abandoned_below :
      (confirmed now : ℕ) (rows : List Attempt) (k : ℕ)
      → Distinct attempt_id rows
      → contains_id k (abandoned_ids julianday confirmed now rows) ≡ true
      → k < confirmed
  abandoned_below confirmed now rows k d h =
      let (r, found, test) = abandoned-Selected confirmed now rows k d h in
      ground (arith, find_key-id attempt_id k rows r found)

  pub reconcile-Distinct :
      (confirmed now : ℕ) (db : Db)
      → Distinct attempt_id db.attempts
      → Distinct attempt_id (reconcile_abandoned julianday confirmed now db).attempts
  unfolding reconcile_abandoned abandoned_row
  reconcile-Distinct confirmed now db d =
      Distinct-update_where attempt_id _ _ db.attempts (λ r. refl) d

  reconcile-RowsOk :
      (confirmed now bound : ℕ) (db : Db)
      → confirmed ≤ bound
      → RowsOk bound db.attempts
      → RowsOk bound (reconcile_abandoned julianday confirmed now db).attempts
  unfolding reconcile_abandoned
  reconcile-RowsOk confirmed now bound db h v =
      let ids = abandoned_ids julianday confirmed now db.attempts in
      record {
        distinct = reconcile-Distinct confirmed now db v.distinct;
        each =
            All-update_where (RowOk bound) (λ r. contains_id (attempt_id r) ids)
              (abandoned_row julianday now) db.attempts
              (λ r sound hit.
                abandoned_row-RowOk bound now r
                  (omega (
                    arith,
                    abandoned_below confirmed now db.attempts (attempt_id r) v.distinct hit,
                  ))
                  sound)
              v.each;
      }

  pub upkeep-RowsOk :
      (confirmed now bound : ℕ) (db : Db)
      → confirmed ≤ bound
      → RowsOk bound db.attempts
      → RowsOk bound (upkeep julianday confirmed now db).0.attempts
  unfolding upkeep
  upkeep-RowsOk confirmed now bound db h v =
      let reconciled = reconcile_abandoned julianday confirmed now db in
      let done_cutoff = now - done_retention_age in
      let pruned = (prune_terminal done confirmed done_retention_limit done_cutoff reconciled).0 in
      prune-RowsOk dead confirmed dead_retention_limit (now - dead_retention_age) bound pruned (
        prune-RowsOk done confirmed done_retention_limit done_cutoff bound reconciled
          (reconcile-RowsOk confirmed now bound db h v))

  upkeep-checkpoint :
      (confirmed now : ℕ) (db : Db)
      → (upkeep julianday confirmed now db).0.checkpoint ≡ db.checkpoint
  unfolding upkeep
  upkeep-checkpoint confirmed now db = refl

  confirm_tx-Kept :
      (offset : ℤ) (now : ℕ) (c : Option Checkpoint) (db : Db)
      → db.checkpoint ≡ c
      → Inv db
      → Returns (λ (p : Unit {0} × Db). Kept db p.1) (confirm_tx julianday offset now c db)
  unfolding confirm_tx
  confirm_tx-Kept (negsuc n) now c db e v = tt
  confirm_tx-Kept (pos offset) now none db e v = tt
  confirm_tx-Kept (pos offset) now (some c) db e v =
      go (ltb c.next_offset offset) refl (leb offset c.confirmed_offset) refl
    where
      moved : Db
      moved = record db {
        checkpoint = some (record c { confirmed_offset = offset; updated_at = now });
      }

      go :
          (b : Bool)
          → ltb c.next_offset offset ≡ b
          → (already : Bool) → leb offset c.confirmed_offset ≡ already
          → Returns
              (λ (p : Unit {0} × Db). Kept db p.1)
              (if b
                then err beyond_next_offset
                else if already
                then ok (tt, db)
                else ok (tt, (upkeep julianday offset now moved).0))
      go true t already e' = tt
      go false t true e' = (v, omega arith)
      go false t false e' =
          let within : offset ≤ c.next_offset = ground arith in
          let later : c.confirmed_offset ≤ offset = ground arith in
          let rows : RowsOk c.next_offset db.attempts = rw e at v.rows in
          (
            record {
              ordered = within;
              rows = upkeep-RowsOk offset now c.next_offset moved within rows;
            },
            rw e (omega arith),
          )

  pub confirm-Kept :
      (offset : ℤ) (now : ℕ) (db : Db)
      → Inv db
      → Kept db (confirm_update_offset julianday offset now db).0
  unfolding confirm_update_offset
  confirm-Kept offset now db v =
      transact-Kept db _ v (confirm_tx-Kept offset now db.checkpoint db refl v)

  prune_tx-Kept :
      (now : ℕ) (c : Option Checkpoint) (db : Db)
      → db.checkpoint ≡ c
      → Inv db
      → Returns (λ (p : (ℕ × ℕ) × Db). Kept db p.1) (prune_tx julianday now c db)
  unfolding prune_tx
  prune_tx-Kept now none db e v = tt
  prune_tx-Kept now (some c) db e v =
      let le : c.confirmed_offset ≤ next_of db.checkpoint = rw e (rw e at v.ordered) in
      (
        record {
          ordered = v.ordered;
          rows = upkeep-RowsOk c.confirmed_offset now (next_of db.checkpoint) db le v.rows;
        },
        omega arith,
      )

  pub prune-Kept : (now : ℕ) (db : Db) → Inv db → Kept db (prune_update_journal julianday now db).0
  unfolding prune_update_journal
  prune-Kept now db v = transact-Kept db _ v (prune_tx-Kept now db.checkpoint db refl v)
