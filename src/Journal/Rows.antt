-- ===== src/Journal/Rows.antt =====
-- internal/journalstore/journal.go: the two tables, their constants, and the order of times.
-- A time is its nanoseconds since 1970; a TEXT column that `formatTime` writes keeps that number,
-- and comparing two such texts is comparing their `text_key`.
use lofi_bot.Prelude.{
  ℕ, zero, suc, ◌+◌, ◌*◌, ◌/◌, ◌%◌, ◌^◌, Bool, true, false, List, Option, none, some, ltb, ◌==◌,
  if◌then◌else◌,
}
use lofi_bot.Prelude.Int.{ℤ}
use lofi_bot.Prelude.Text.{Text, codes}

abbrev pub Time : Type 0
Time = ℕ

-- The column has a CHECK for these six values.
pub data Status : Type 0 where
  pending running stuck failed done dead : Status

abbrev pub status_eq : Status → Status → Bool
status_eq pending pending = true
status_eq running running = true
status_eq stuck stuck = true
status_eq failed failed = true
status_eq done done = true
status_eq dead dead = true
status_eq _ _ = false

abbrev pub is_terminal : Status → Bool
is_terminal done = true
is_terminal dead = true
is_terminal _ = false

-- The column lease_until: NULL, a text that is no time, or a time.
pub data Lease : Type 0 where
  null malformed : Lease
  until : Time → Lease

pub record Checkpoint : Type 0 where
  pub next_offset : ℕ
  pub confirmed_offset : ℕ
  pub updated_at : Time

pub record Attempt : Type 0 where
  pub update_id : ℕ
  pub update_kind : Text
  pub action : Text
  pub chat_id : ℤ
  pub message_id : ℤ
  pub actor_id : ℤ
  pub attempt_count : ℕ
  pub failure_count : ℕ
  pub status : Status
  pub owner_token : Text
  pub lease_until : Lease
  pub last_error : Text
  pub created_at : Time
  pub updated_at : Time
  pub finished_at : Option Time

pub record Db : Type 0 where
  pub checkpoint : Option Checkpoint
  pub attempts : List Attempt

abbrev pub done_retention_limit : ℕ
done_retention_limit = 10000

abbrev pub day : ℕ
day = 86400000000000

abbrev pub done_retention_age : ℕ
done_retention_age = 30 * day

abbrev pub dead_retention_limit : ℕ
dead_retention_limit = 1000

abbrev pub dead_retention_age : ℕ
dead_retention_age = 90 * day

abbrev pub prune_batch_size : ℕ
prune_batch_size = 256

abbrev pub max_kind_bytes : ℕ
max_kind_bytes = 32

abbrev pub max_action_bytes : ℕ
max_action_bytes = 64

abbrev pub max_owner_token_bytes : ℕ
max_owner_token_bytes = 128

abbrev pub max_error_bytes : ℕ
max_error_bytes = 1024

pub abandoned_update_error : Text
abandoned_update_error = codes "update abandoned after Telegram confirmed a higher offset"

pub lease_expired_error : Text
lease_expired_error = codes "update owner lease expired before completion"

pub data JournalError : Type 0 where
  negative_id no_successor offset_mismatch label_required label_too_long label_unsupported :
      JournalError
  bad_owner_token bad_threshold lease_not_future checkpoint_missing no_active_attempt : JournalError
  no_lease bad_lease_text no_rows cause_too_long negative_offset beyond_next_offset : JournalError
  invalid_checkpoint : JournalError

-- What an operation returns, for a Go function with an error as its last result.
pub data Result {ℓ} (Value : Type ℓ) : Type ℓ where
  err : JournalError → Result Value
  ok : Value → Result Value

abbrev pub guard : Bool → JournalError → Result (Unit {0})
guard holds reason = if holds then ok tt else err reason

infixl 5 ◌>>=◌ ◌>>◌
abbrev pub ◌>>=◌ {κ ℓ} :
    {From : Type κ} {To : Type ℓ} → Result From → (From → Result To) → Result To
err reason >>= next = err reason
ok value >>= next = next value

abbrev pub ◌>>◌ {ℓ} : {To : Type ℓ} → Result (Unit {0}) → Result To → Result To
checked >> next = checked >>= λ _. next

-- Commit a transaction that succeeds, and roll back one that fails.
abbrev pub transact {ℓ} : {A : Type ℓ} → Db → Result (A × Db) → Db × Result A
transact db (ok (a, db')) = (db', ok a)
transact db (err e) = (db, err e)

-- RFC3339Nano drops the trailing zeros of the fraction, and `Z` comes after every digit: of nine
-- decimal places, those of the trailing zeros count as ten.
unfoldable pub fraction_key : ℕ → ℕ → ℕ
fraction_key zero n = 0
fraction_key (suc places) n =
    let rest = fraction_key places (n % 10 ^ places) in
    if n == 0 then 10 * 11 ^ places else n / 10 ^ places * 11 ^ places + rest

unfoldable pub text_key : Time → ℕ
unfolding fraction_key
text_key t = t / 10 ^ 9 * 11 ^ 10 + fraction_key 9 (t % 10 ^ 9)

-- The comparison `finished_at < ?`; no NULL passes it.
abbrev pub finished_before : Option Time → Time → Bool
finished_before none cutoff = false
finished_before (some t) cutoff = ltb (text_key t) (text_key cutoff)

-- NULL comes first in an ascending ORDER BY.
abbrev pub finished_key : Option Time → ℕ
finished_key none = 0
finished_key (some t) = suc (text_key t)
