-- ===== src/Journal/Invariant/Defs.antt =====
-- The invariant of internal/journalstore/journal.go.
use lofi_bot.Prelude.{ℕ, ◌+◌, ◌≤◌, ◌<◌, ◌≡◌, List, [], Option, none, some, All, Distinct, true}
use lofi_bot.Journal.Rows.{
  Time, Status, pending, running, stuck, failed, done, dead, null, until, Checkpoint, Attempt, Db,
  Result, ok, err,
}
use lofi_bot.Journal.Labels.{owner_token_fits}
use lofi_bot.Journal.Attempts.{attempt_id}

abbrev pub next_of : Option Checkpoint → ℕ
next_of none = 0
next_of (some c) = c.next_offset

abbrev pub confirmed_of : Option Checkpoint → ℕ
confirmed_of none = 0
confirmed_of (some c) = c.confirmed_offset

-- A finished attempt: it lies below the offset, and nobody owns it.
pub record IsFinished (bound : ℕ) (r : Attempt) : Type 0 where
  pub below : r.update_id < bound
  pub failures : r.failure_count ≤ r.attempt_count
  pub no_owner : r.owner_token ≡ []
  pub no_lease : r.lease_until ≡ null
  pub stamp : Time
  pub stamped : r.finished_at ≡ some stamp

-- An attempt that an owner works on, or may still work on. The work that runs is not yet counted
-- as a failure.
pub record IsHeld (extra : ℕ) (r : Attempt) : Type 0 where
  pub failures : r.failure_count + extra ≤ r.attempt_count
  pub owned : owner_token_fits r.owner_token ≡ true
  pub deadline : Time
  pub leased : r.lease_until ≡ until deadline
  pub open_ended : r.finished_at ≡ none

-- An attempt that waits for its next owner.
pub record IsWaiting (r : Attempt) : Type 0 where
  pub failures : r.failure_count ≤ r.attempt_count
  pub no_owner : r.owner_token ≡ []
  pub no_lease : r.lease_until ≡ null
  pub open_ended : r.finished_at ≡ none

abbrev pub StatusOk : ℕ → Status → Attempt → Type 0
StatusOk bound pending r = IsWaiting r
StatusOk bound failed r = IsWaiting r
StatusOk bound running r = IsHeld 1 r
StatusOk bound stuck r = IsHeld 0 r
StatusOk bound done r = IsFinished bound r
StatusOk bound dead r = IsFinished bound r

abbrev pub RowOk : ℕ → Attempt → Type 0
RowOk bound r = StatusOk bound r.status r

-- The rows, with the finished ones below a bound.
pub record RowsOk (bound : ℕ) (rows : List Attempt) : Type 0 where
  pub distinct : Distinct attempt_id rows
  pub each : All (RowOk bound) rows

pub record Inv (db : Db) : Type 0 where
  pub ordered : confirmed_of db.checkpoint ≤ next_of db.checkpoint
  pub rows : RowsOk (next_of db.checkpoint) db.attempts

-- What holds of a result, if there is one.
abbrev pub Returns {ℓ κ} : {A : Type ℓ} → (A → Type κ) → Result A → Type κ
Returns P (ok a) = P a
Returns P (err e) = Unit
