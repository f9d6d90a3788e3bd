-- ===== src/Journal/Pruning.antt =====
-- Which rows a prune of the journal may delete.
use lofi_bot.Prelude.{
  ℕ, ◌≤◌, ◌<◌, ◌≡◌, ◌⊎◌, inl, inr, arith, List, none, some, Bool, true, not, ◌&&◌, ◌||◌, Distinct,
  contains_id, select_keys, delete_selected, count_where-contains, length-select_keys,
}
use lofi_bot.Journal.Rows.{Status, status_eq, Attempt, Db, prune_batch_size, finished_before}
use lofi_bot.Journal.Attempts.{attempt_id, find_attempt}
use lofi_bot.Journal.Maintenance.{
  is_confirmed, retained_ids, doomed_ids, prune_terminal, oldest_first,
}

-- The row may be deleted: it has the status, its update is confirmed, and the text of the time it
-- finished at sorts before the cutoff's, or it is not among the newest.
pub record IsPrunable (status : Status) (confirmed limit cutoff : ℕ) (rows : List Attempt)
    (r : Attempt) : Type 0 where
  pub finished : status_eq r.status status ≡ true
  pub below : r.update_id < confirmed
  pub outdated :
      (finished_before r.finished_at cutoff
        || not (contains_id (attempt_id r) (retained_ids status confirmed limit rows)))
      ≡ true

-- In a table with distinct ids a prune leaves every row as it is, or deletes it where it has the
-- status, is below the confirmed offset, and passes the test of IsPrunable; the number it reports is at most one batch.
pub prune_rows :
    (status : Status) (confirmed limit cutoff : ℕ) (db : Db)
    → Distinct attempt_id db.attempts
    → let (db', deleted) = prune_terminal status confirmed limit cutoff db in
      ((j : ℕ)
        → (find_attempt db' j ≡ find_attempt db j)
          ⊎ ((r : Attempt) × (find_attempt db j ≡ some r)
              × (find_attempt db' j ≡ none)
              × IsPrunable status confirmed limit cutoff db.attempts r))
      × (deleted ≤ prune_batch_size)
unfolding prune_terminal doomed_ids find_attempt
prune_rows status confirmed limit cutoff db d = (
  λ j. elim (delete_selected attempt_id doomed oldest_first prune_batch_size db.attempts d j) [
    | inl same ↦ inl same
    | inr (r, found, gone, test) ↦ inr (r, found, gone, prunable r test)
  ],
  omega (
    arith,
    count_where-contains attempt_id
        (select_keys attempt_id doomed oldest_first prune_batch_size db.attempts) db.attempts d,
    length-select_keys attempt_id doomed oldest_first prune_batch_size db.attempts,
  ),
)
  where
    doomed : Attempt → Bool
    doomed r =
        is_confirmed status confirmed r
        && (finished_before r.finished_at cutoff
            || not (contains_id (attempt_id r) (retained_ids status confirmed limit db.attempts)))

    prunable :
        (r : Attempt) → doomed r ≡ true → IsPrunable status confirmed limit cutoff db.attempts r
    prunable r test = record {
      finished = ground arith;
      below = ground arith;
      outdated = ground arith;
    }
