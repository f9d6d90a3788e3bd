-- ===== src/Journal/Maintenance.antt =====
-- internal/journalstore/journal.go: the migration, the checkpoint, and the upkeep of old rows.
-- SQLite's `julianday` of a time text is a parameter.
use lofi_bot.Prelude.{
  ℕ, ◌-◌, Bool, true, not, ◌&&◌, ◌||◌, List, [], Option, none, some, ltb, leb, ◌==◌, if◌then◌else◌,
  contains_id, select_keys, update_where, delete_where, count_where,
}
use lofi_bot.Prelude.Int.{ℤ, pos, negsuc}
use lofi_bot.Journal.Rows.{
  Time, Status, pending, running, stuck, failed, done, dead, status_eq, Lease, null, malformed,
  until, Checkpoint, Attempt, Db, done_retention_limit, done_retention_age, dead_retention_limit,
  dead_retention_age, prune_batch_size, abandoned_update_error, negative_offset, beyond_next_offset,
  invalid_checkpoint, no_rows, Result, ok, err, transact, finished_before, finished_key,
}
use lofi_bot.Journal.Attempts.{attempt_id}

-- CREATE TABLE IF NOT EXISTS, and INSERT … ON CONFLICT DO NOTHING of the checkpoint.
unfoldable pub migrated : Time → Option Checkpoint → Option Checkpoint
migrated now none = some (record { next_offset = 0; confirmed_offset = 0; updated_at = now })
migrated now (some c) = some c

unfoldable pub migrate_update_journal : Time → Db → Db
unfolding migrated
migrate_update_journal now db = record db { checkpoint = migrated now db.checkpoint }

unfoldable pub loaded : Option Checkpoint → Result (ℕ × ℕ)
loaded none = err no_rows
loaded (some c) =
    if ltb c.next_offset c.confirmed_offset
    then err invalid_checkpoint
    else ok (c.next_offset, c.confirmed_offset)

unfoldable pub load_update_checkpoint : Db → Result (ℕ × ℕ)
unfolding loaded
load_update_checkpoint db = loaded db.checkpoint

-- SELECT … WHERE p ORDER BY before LIMIT limit, of the primary keys.
unfoldable pub select_ids :
    (Attempt → Bool) → (Attempt → Attempt → Bool) → ℕ → List Attempt → List ℕ
select_ids p before limit rows = select_keys attempt_id p before limit rows

abbrev pub by_id : Attempt → Attempt → Bool
by_id r s = ltb r.update_id s.update_id

-- ORDER BY finished_at ASC, update_id ASC.
abbrev pub oldest_first : Attempt → Attempt → Bool
oldest_first r s =
    let a = finished_key r.finished_at in
    let b = finished_key s.finished_at in ltb a b || (a == b && ltb r.update_id s.update_id)

abbrev pub newest_first : Attempt → Attempt → Bool
newest_first r s = oldest_first s r

abbrev pub is_confirmed : Status → ℕ → Attempt → Bool
is_confirmed status confirmed r = status_eq r.status status && ltb r.update_id confirmed

unfoldable pub retained_ids : Status → ℕ → ℕ → List Attempt → List ℕ
unfolding select_ids
retained_ids status confirmed limit rows =
    select_ids (is_confirmed status confirmed) newest_first limit rows

unfoldable pub doomed_ids : Status → ℕ → ℕ → Time → List Attempt → List ℕ
unfolding select_ids retained_ids
doomed_ids status confirmed limit cutoff rows =
    let newest = retained_ids status confirmed limit rows in
    select_ids
      (λ r.
        is_confirmed status confirmed r
        && (finished_before r.finished_at cutoff || not (contains_id (attempt_id r) newest)))
      oldest_first prune_batch_size rows

unfoldable pub prune_terminal : Status → ℕ → ℕ → Time → Db → Db × ℕ
unfolding doomed_ids
prune_terminal status confirmed limit cutoff db =
    let ids = doomed_ids status confirmed limit cutoff db.attempts in
    (
      record db { attempts = delete_where (λ r. contains_id (attempt_id r) ids) db.attempts },
      count_where (λ r. contains_id (attempt_id r) ids) db.attempts,
    )

module _ (julianday : Time → ℕ) where
  abbrev pub lease_over : Time → Lease → Bool
  lease_over now null = true
  lease_over now malformed = true
  lease_over now (until t) = leb (julianday t) (julianday now)

  -- The rows that no owner can finish any more.
  unfoldable pub is_replayable : Time → Attempt → Bool
  is_replayable now r =
      (status_eq r.status pending || status_eq r.status failed)
      || ((status_eq r.status running || status_eq r.status stuck) && lease_over now r.lease_until)

  unfoldable pub abandoned_row : Time → Attempt → Attempt
  abandoned_row now r = record r {
    status = dead;
    owner_token = [];
    lease_until = null;
    last_error = abandoned_update_error;
    updated_at = now;
    finished_at = some now;
  }

  unfoldable pub abandoned_ids : ℕ → Time → List Attempt → List ℕ
  unfolding select_ids is_replayable
  abandoned_ids confirmed now rows =
      select_ids (λ r. ltb r.update_id confirmed && is_replayable now r) by_id prune_batch_size rows

  unfoldable pub reconcile_abandoned : ℕ → Time → Db → Db
  unfolding abandoned_ids abandoned_row
  reconcile_abandoned confirmed now db =
      let ids = abandoned_ids confirmed now db.attempts in
      record db {
        attempts =
            update_where (λ r. contains_id (attempt_id r) ids) (abandoned_row now) db.attempts;
      }

  -- The upkeep that a confirmation and the periodic run share; the counts are those of the prunes.
  unfoldable pub upkeep : ℕ → Time → Db → Db × ℕ × ℕ
  unfolding reconcile_abandoned prune_terminal
  upkeep confirmed now db =
      let reconciled = reconcile_abandoned confirmed now db in
      let (pruned_done, gone_done) =
        prune_terminal done confirmed done_retention_limit (now - done_retention_age) reconciled in
      let (pruned, gone_dead) =
        prune_terminal dead confirmed dead_retention_limit (now - dead_retention_age) pruned_done in
      (pruned, gone_done, gone_dead)

  unfoldable pub confirm_row : ℕ → Time → Checkpoint → Db → Result (Unit {0} × Db)
  unfolding upkeep
  confirm_row offset now c db =
      let moved = record c { confirmed_offset = offset; updated_at = now } in
      let after = upkeep offset now (record db { checkpoint = some moved }) in
      if ltb c.next_offset offset
      then err beyond_next_offset
      else if leb offset c.confirmed_offset
      then ok (tt, db)
      else ok (tt, after.0)

  unfoldable pub confirm_tx : ℤ → Time → Option Checkpoint → Db → Result (Unit {0} × Db)
  unfolding confirm_row
  confirm_tx (negsuc n) now c db = err negative_offset
  confirm_tx (pos offset) now none db = err no_rows
  confirm_tx (pos offset) now (some c) db = confirm_row offset now c db

  unfoldable pub confirm_update_offset : ℤ → Time → Db → Db × Result (Unit {0})
  unfolding confirm_tx
  confirm_update_offset offset now db = transact db (confirm_tx offset now db.checkpoint db)

  unfoldable pub prune_tx : Time → Option Checkpoint → Db → Result ((ℕ × ℕ) × Db)
  unfolding upkeep
  prune_tx now none db = err no_rows
  prune_tx now (some c) db =
      let (db', gone_done, gone_dead) = upkeep c.confirmed_offset now db in
      ok ((gone_done, gone_dead), db')

  unfoldable pub prune_update_journal : Time → Db → Db × Result (ℕ × ℕ)
  unfolding prune_tx
  prune_update_journal now db = transact db (prune_tx now db.checkpoint db)
