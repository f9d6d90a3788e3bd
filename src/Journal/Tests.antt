-- ===== src/Journal/Tests.antt =====
-- The journal at small tables: each theorem at an update that is begun, fails, ends or is pruned.
use lofi_bot.Prelude.{
  ℕ, ◌+◌, ◌/◌, ◌<◌, ◌≡◌, ◌⊎◌, refl, ap, ◌∙◌, arith, List, [], ◌∷◌, Option, none, some, true, false,
  max, find_key,
}
use lofi_bot.Prelude.Int.{pos}
use lofi_bot.Prelude.Text.{Text, codes}
use lofi_bot.Journal.Rows.{
  Time, running, stuck, dead, done, null, until, Checkpoint, Attempt, Db, ok, err,
  no_active_attempt,
}
use lofi_bot.Journal.Labels.{
  validate_update_transition, owner_token_fits, validate_label, all_label_bytes, label_byte,
  update_successor,
}
use lofi_bot.Journal.Attempts.{
  find_attempt, Request, Begun, busy, execute, check_request, begin_update_attempt, begin_tx,
  require_checkpoint_row, claim_or_resume, first_row, complete_update_attempt, fail_update_attempt,
}
use lofi_bot.Journal.Maintenance.{upkeep}
use lofi_bot.Journal.Invariant.{Inv, Kept, next_of, confirmed_of}
use lofi_bot.Journal.Effects.{Writes}
use lofi_bot.Journal.Fencing.{IsOwnedBy, complete_owned, complete_not_owned, begin_exclusive}
use lofi_bot.Journal.Poison.{fail_poisons, fail_retries, fail_often, fail_often_lem, GivenUp}
use lofi_bot.Journal.Retention.{IsUpkept, upkeep_rows}
use lofi_bot.Journal.Runs.{
  Call, begins, completes, fails, confirms, prunes, migrates, run, run-Kept, run-Stays,
}

-- A day count for the test: whole days since 1970.
abbrev whole_days : Time → ℕ
whole_days t = t / 86400000000000

abbrev worker : Text
worker = codes "worker"

abbrev cause : Text
cause = codes "send failed"

-- Update 5, under a lease until 100, with two failures allowed.
abbrev request : Request
request = record {
  update_id = pos 5;
  update_kind = codes "message";
  action = codes "start";
  chat_id = pos 1;
  message_id = pos 2;
  actor_id = pos 3;
  owner_token = worker;
  lease_until = 100;
  max_failures = pos 2;
}

abbrev checkpoint : Checkpoint
checkpoint = record { next_offset = 5; confirmed_offset = 5; updated_at = 0 }

abbrev fresh : Db
fresh = record { checkpoint = some checkpoint; attempts = [] }

-- The row of update 5 as it runs under the request, after some failures.
abbrev running_row : ℕ → Attempt
running_row failures = record {
  update_id = 5;
  update_kind = codes "message";
  action = codes "start";
  chat_id = pos 1;
  message_id = pos 2;
  actor_id = pos 3;
  attempt_count = failures + 1;
  failure_count = failures;
  status = running;
  owner_token = worker;
  lease_until = until 100;
  last_error = [];
  created_at = 10;
  updated_at = 10;
  finished_at = none;
}

-- The row of update 4, which is finished.
abbrev finished_row : Attempt
finished_row = record {
  update_id = 4;
  update_kind = codes "message";
  action = codes "start";
  chat_id = pos 1;
  message_id = pos 2;
  actor_id = pos 3;
  attempt_count = 1;
  failure_count = 0;
  status = done;
  owner_token = [];
  lease_until = null;
  last_error = [];
  created_at = 1;
  updated_at = 2;
  finished_at = some 2;
}

abbrev table : ℕ → Db
table failures = record {
  checkpoint = some checkpoint;
  attempts = running_row failures ∷ finished_row ∷ [];
}

accepted : (now : ℕ) → now < 100 → check_request request now ≡ ok 6
unfolding check_request update_successor validate_label all_label_bytes label_byte owner_token_fits
accepted now h = ground arith

fresh-Inv : Inv fresh
fresh-Inv = record { ordered = omega arith; rows = record { distinct = tt; each = tt } }

table-Inv : (failures : ℕ) → Inv (table failures)
unfolding find_key owner_token_fits
table-Inv failures = record {
  ordered = omega arith;
  rows = record {
    distinct = (refl, (refl, tt));
    each = (
      record {
        failures = omega arith;
        owned = refl;
        deadline = 100;
        leased = refl;
        open_ended = refl;
      },
      (
        record {
          below = omega arith;
          failures = omega arith;
          no_owner = refl;
          no_lease = refl;
          stamp = 2;
          stamped = refl;
        },
        tt,
      ),
    );
  };
}

valid : validate_update_transition (pos 5) (pos 6) ≡ ok tt
unfolding validate_update_transition
valid = refl

fits : owner_token_fits worker ≡ true
unfolding owner_token_fits
fits = refl

running_found : (failures : ℕ) → find_attempt (table failures) 5 ≡ some (running_row failures)
unfolding find_attempt find_key
running_found failures = refl

finished_found : find_attempt (table 0) 4 ≡ some finished_row
unfolding find_attempt find_key
finished_found = refl

owned : (failures : ℕ) → IsOwnedBy worker (running_row failures)
owned failures = record { is_running = refl; token_matches = refl }

-- Update 5 is begun, fails, is begun again and ends; the offset is confirmed, and the journal pruned.
abbrev history : List (Time × Call)
history =
    (0, migrates)
    ∷ (20, begins request)
    ∷ (30, fails (pos 5) (pos 6) worker (pos 2) cause none)
    ∷ (40, begins request)
    ∷ (50, completes (pos 5) (pos 6) worker)
    ∷ (60, confirms (pos 6))
    ∷ (70, prunes)
    ∷ []

run-Kept_example : Kept fresh (run whole_days fresh history)
run-Kept_example = run-Kept whole_days fresh history fresh-Inv

run-Stays_example :
    (find_attempt (run whole_days (table 0) history) 4 ≡ some finished_row)
    ⊎ (4 < confirmed_of (run whole_days (table 0) history).checkpoint)
run-Stays_example =
    run-Stays whole_days (table 0) history 4 finished_row (table-Inv 0) finished_found refl

complete_owned_example :
    (db' : Db) × (complete_update_attempt (pos 5) (pos 6) worker 50 (table 0) ≡ (db', ok tt))
    × Writes 5
        (record (running_row 0) {
          status = done;
          owner_token = [];
          lease_until = null;
          last_error = [];
          updated_at = 50;
          finished_at = some 50;
        })
        (table 0)
        db'
    × (next_of db'.checkpoint ≡ max 5 6)
complete_owned_example =
    complete_owned (pos 5) (pos 6) worker 50 (table 0) checkpoint (table-Inv 0) valid fits refl
      (omega arith) (running_row 0) (running_found 0) (owned 0)

fail_retries_example :
    (db' : Db) × (fail_update_attempt (pos 5) (pos 6) worker (pos 2) cause (some 80) 50 (table 0)
      ≡ (db', ok false))
    × Writes 5
        (record (running_row 0) {
          failure_count = 1;
          status = stuck;
          owner_token = worker;
          lease_until = until 80;
          last_error = cause;
          updated_at = 50;
          finished_at = none;
        })
        (table 0)
        db'
    × (db'.checkpoint ≡ (table 0).checkpoint)
fail_retries_example =
    fail_retries (pos 5) (pos 6) worker 2 cause (some 80) 50 (table 0) checkpoint (running_row 0)
      (table-Inv 0) valid fits (omega arith) (omega arith) refl (running_found 0) (owned 0)
      (omega arith) (omega arith)

fail_poisons_example :
    (db' : Db) × (fail_update_attempt (pos 5) (pos 6) worker (pos 2) cause none 50 (table 1)
      ≡ (db', ok true))
    × Writes 5
        (record (running_row 1) {
          failure_count = 2;
          status = dead;
          owner_token = [];
          lease_until = null;
          last_error = cause;
          updated_at = 50;
          finished_at = some 50;
        })
        (table 1)
        db'
    × (next_of db'.checkpoint ≡ max 5 6)
fail_poisons_example =
    fail_poisons (pos 5) (pos 6) worker 2 cause none 50 (table 1) checkpoint (running_row 1)
      (table-Inv 1) valid fits (omega arith) (omega arith) refl (running_found 1) (owned 1)
      (omega arith) (omega arith)

complete_not_owned_example :
    complete_update_attempt (pos 5) (pos 6) (codes "other") 50 (table 0)
    ≡ (table 0, err no_active_attempt)
unfolding validate_update_transition owner_token_fits find_attempt find_key
complete_not_owned_example =
    complete_not_owned (pos 5) (pos 6) (codes "other") 50 (table 0) checkpoint (table-Inv 0) refl
      refl refl (omega arith) stranger
  where
    owner_text : Option Attempt → Option Text
    owner_text none = none
    owner_text (some r) = some r.owner_token

    clash : some worker ≡ some (codes "other") → ⊥
    clash e = cc

    stranger : (r : Attempt) → some (running_row 0) ≡ some r → ¬ IsOwnedBy (codes "other") r
    stranger r e o = clash (ap owner_text e ∙ ap some o.token_matches)

-- A claim of the same update by somebody else.
abbrev rival : Request
rival = record request { owner_token = codes "rival" }

rival_accepted : check_request rival 50 ≡ ok 6
unfolding check_request update_successor validate_label all_label_bytes label_byte owner_token_fits
rival_accepted = ground arith

abbrev begun : Begun
begun = record { disposition = execute; attempt_count = 1; failure_count = 0 }

begun-fresh :
    begin_update_attempt request 20 fresh
    ≡ (record fresh { attempts = first_row request 5 20 ∷ [] }, ok begun)
unfolding begin_update_attempt begin_tx require_checkpoint_row claim_or_resume find_attempt find_key
begun-fresh = rw (accepted 20 (omega arith)) refl

begin_exclusive_example :
    (b' : Begun) × (begin_update_attempt rival 50
        (record fresh { attempts = first_row request 5 20 ∷ [] })
      ≡ (record fresh { attempts = first_row request 5 20 ∷ [] }, ok b'))
    × (b'.disposition ≡ busy)
begin_exclusive_example =
    begin_exclusive request rival 20 50 6 fresh
      (record fresh { attempts = first_row request 5 20 ∷ [] }) checkpoint begun fresh-Inv refl
      begun-fresh refl refl rival_accepted (omega arith)

fail_often_lem_example :
    GivenUp request 6 cause
      (omega arith)
      (fail_often request 6 cause (omega arith) (20 ∷ 40 ∷ []) fresh)
unfolding find_attempt find_key
fail_often_lem_example =
    fail_often_lem request 6 cause (omega arith) (40 ∷ []) 20 0 fresh checkpoint fresh-Inv refl
      (omega arith) (accepted 20 (omega arith), (accepted 40 (omega arith), tt)) refl refl

-- The lease of update 5 has run out, and its update is confirmed.
upkeep_rows_example :
    (find_attempt (upkeep whole_days 6 9000000000000000 (table 0)).0 5 ≡ find_attempt (table 0) 5)
    ⊎ ((r : Attempt) × (find_attempt (table 0) 5 ≡ some r)
        × IsUpkept whole_days 6 9000000000000000 r
            (find_attempt (upkeep whole_days 6 9000000000000000 (table 0)).0 5))
upkeep_rows_example =
    upkeep_rows whole_days 6 9000000000000000 (table 0) 5 (table-Inv 0).rows.distinct
