-- ===== src/Journal/Invariant/RowChanges.antt =====
-- What the operations do to one row, and that the row stays sound.
use lofi_bot.Prelude.{
  ℕ, ◌+◌, ◌≤◌, ◌<◌, ◌≡◌, refl, subst, arith, Option, none, some, Bool, true, false, max,
  if◌then◌else◌, find_key-id, ltb,
}
use lofi_bot.Prelude.Int.{ℤ, pos, negsuc, pos_part}
use lofi_bot.Prelude.Text.{Text}
use lofi_bot.Journal.Rows.{
  Time, Status, pending, running, stuck, failed, done, dead, status_eq, until, Attempt, Db,
  JournalError, ok, err, guard, lease_not_future,
}
use lofi_bot.Journal.Labels.{validate_update_transition, owner_token_fits}
use lofi_bot.Journal.Attempts.{
  attempt_id, find_attempt, is_owned, dead_row, done_row, owned_failures, Hold, hold_for,
  failed_row, pending_row,
}
use lofi_bot.Journal.Invariant.Defs.{next_of, StatusOk, RowOk, IsHeld}

pub ok-injective {ℓ} : {A : Type ℓ} {a b : A} → ok a ≡ ok b → a ≡ b
ok-injective e = cc

-- A transition that is accepted moves to the next update.
pub transition_follows :
    (u n : ℤ) → validate_update_transition u n ≡ ok tt → pos_part n ≡ pos_part u + 1
unfolding validate_update_transition
transition_follows (negsuc u) n h = cc
transition_follows (pos u) (negsuc n) h = ground arith
transition_follows (pos u) (pos n) h = ground arith

pub status_of_eq : (s t : Status) → status_eq s t ≡ true → s ≡ t
status_of_eq s t h = ground arith

pub IsHeld-of_owned :
    (bound : ℕ) (token : Text) (r : Attempt) → is_owned token r ≡ true → RowOk bound r → IsHeld 1 r
IsHeld-of_owned bound token r h v =
    subst (λ s. StatusOk bound s r) (status_of_eq r.status running (ground arith)) v

pub RowOk-failures :
    (bound : ℕ) (s : Status) (r : Attempt) → StatusOk bound s r → r.failure_count ≤ r.attempt_count
RowOk-failures bound pending r v = v.failures
RowOk-failures bound failed r v = v.failures
RowOk-failures bound running r v = omega arith
RowOk-failures bound stuck r v = omega arith
RowOk-failures bound done r v = v.failures
RowOk-failures bound dead r v = v.failures

pub done_row-RowOk :
    (bound now : ℕ) (r : Attempt) → attempt_id r < bound → IsHeld 1 r → RowOk bound (done_row now r)
unfolding done_row
done_row-RowOk bound now r h v = record {
  below = h;
  failures = omega arith;
  no_owner = refl;
  no_lease = refl;
  stamp = now;
  stamped = refl;
}

pub below_next :
    (u n : ℤ) (db : Db) (r : Attempt)
    → validate_update_transition u n ≡ ok tt
    → find_attempt db (pos_part u) ≡ some r
    → attempt_id r < max (next_of db.checkpoint) (pos_part n)
unfolding find_attempt
below_next u n db r valid found =
    omega
      (arith, transition_follows u n valid, find_key-id attempt_id (pos_part u) db.attempts r found)

pub guard-true : (b : Bool) (e : JournalError) {a : Unit {0}} → guard b e ≡ ok a → b ≡ true
guard-true true e h = refl
guard-true false e h = cc

pub owned_failures_lem :
    (token : Text) (o : Option Attempt) (r : Attempt) (n : ℕ)
    → owned_failures token o ≡ ok n
    → o ≡ some r
    → (is_owned token r ≡ true) × (r.failure_count ≡ n)
unfolding owned_failures
owned_failures_lem token o r n h e = go (rw e at h)
  where
    go : owned_failures token (some r) ≡ ok n → (is_owned token r ≡ true) × (r.failure_count ≡ n)
    go k = ground arith

pub dead_row-RowOk :
    (bound failures : ℕ) (cause : Text) (now : ℕ) (r : Attempt)
    → attempt_id r < bound
    → failures ≤ r.attempt_count
    → RowOk bound (dead_row failures cause now r)
unfolding dead_row
dead_row-RowOk bound failures cause now r h k = record {
  below = h;
  failures = k;
  no_owner = refl;
  no_lease = refl;
  stamp = now;
  stamped = refl;
}

pub failed_row-RowOk :
    (bound failures : ℕ) (token : Text) (hold_until : Option Time) (hold : Hold) (cause : Text)
    (now : ℕ) (r : Attempt)
    → hold_for token hold_until now ≡ ok hold
    → owner_token_fits token ≡ true
    → failures ≤ r.attempt_count
    → RowOk bound (failed_row failures hold cause now r)
unfolding hold_for failed_row
failed_row-RowOk bound failures token none hold cause now r h o k =
    subst (λ (hd : Hold). RowOk bound (failed_row failures hd cause now r)) (ok-injective h)
      (record { failures = k; no_owner = refl; no_lease = refl; open_ended = refl })
failed_row-RowOk bound failures token (some t) hold cause now r h o k = go (ltb now t) h
  where
    go :
        (b : Bool)
        → (if b
            then ok (record { status = stuck; owner = token; lease = until t })
            else err lease_not_future)
          ≡ ok hold
        → RowOk bound (failed_row failures hold cause now r)
    go true e =
        subst (λ (hd : Hold). RowOk bound (failed_row failures hd cause now r)) (ok-injective e)
          (record {
            failures = omega arith;
            owned = o;
            deadline = t;
            leased = refl;
            open_ended = refl;
          })
    go false e = cc

pub owned_count :
    (bound : ℕ) (token : Text) (o : Option Attempt) (r : Attempt) (n : ℕ)
    → owned_failures token o ≡ ok n
    → o ≡ some r
    → RowOk bound r
    → n + 1 ≤ r.attempt_count
owned_count bound token o r n h e v =
    let (owned, count) = owned_failures_lem token o r n h e in
    omega (arith, IsHeld-of_owned bound token r owned v)

pub pending_row-RowOk : (bound now : ℕ) (r : Attempt) → IsHeld 1 r → RowOk bound (pending_row now r)
unfolding pending_row
pending_row-RowOk bound now r v = record {
  failures = omega arith;
  no_owner = refl;
  no_lease = refl;
  open_ended = refl;
}
