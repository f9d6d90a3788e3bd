-- ===== src/Telegram/Tests.antt =====
-- The service over a small journal: a message that is handled, and polled for again after a restart.
use lofi_bot.Prelude.{
  ℕ, ◌+◌, ◌/◌, ◌≤◌, ◌≡◌, ◌≢◌, ◌==◌, if◌then◌else◌, List, inl, refl, arith, [], ◌∷◌, none, some,
  true, false, length, take, min, replicate, find_key,
}
use lofi_bot.Prelude.Int.{pos}
use lofi_bot.Prelude.Text.{Text, codes}
use lofi_bot.Journal.Rows.{Time, done, null, Attempt, Db, ok, max_error_bytes}
use lofi_bot.Journal.Labels.{owner_token_fits}
use lofi_bot.Journal.Attempts.{check_request, find_attempt}
use lofi_bot.Journal.Invariant.{Inv}
use lofi_bot.Telegram.Handling.{Handling, returned, succeeded, bounded_journal_error}
use lofi_bot.Telegram.Metadata.{Update, command, metadata_for_update}
use lofi_bot.Telegram.Poller.{Turn, Run, poll_answered, poll_once, request_of}
use lofi_bot.Telegram.Settling.{Answered, Life, lives}
use lofi_bot.Telegram.World.{acting}
use lofi_bot.Telegram.Requests.{request_of-check_request, bounded_journal_error_lem}
use lofi_bot.Telegram.Restarts.{
  service_journal, service_view, service_journal-IsJournal, store_journal-Answered,
  settled_unhandled,
}

abbrev whole_days : Time → ℕ
whole_days t = t / 86400000000000

-- For ASCII text, whose runes have one byte.
abbrev ascii_width : Text → ℕ
ascii_width s = min 1 (length s)

abbrev service : Run
service = record {
  owner_token = codes "worker";
  timeouts = record {
    update_processing_timeout = pos 0;
    update_handler_stop_grace = pos 0;
    update_lease_buffer = pos 0;
    stuck_owner_lease = pos 0;
  };
}

abbrev status_message : Update
status_message = record {
  message = some (record {
    message_id = pos 2;
    from_id = some (pos 3);
    chat_id = some (pos 1);
    text_command = command (codes "Status");
    has_video = false;
    has_document = false;
    has_audio = false;
  });
  callback_query = none;
}

abbrev answered : Handling
answered = record {
  first = returned succeeded;
  second_chance = returned succeeded;
  cancelled = false;
  cancelled_later = false;
  deadline_exceeded = false;
}

abbrev turn : ℕ → Turn
turn id = record {
  update_id = id;
  metadata = metadata_for_update status_message;
  cancelled_before = false;
  lease_from = 10;
  begun_at = 10;
  handling = answered;
  cause = codes "send failed";
  hold_from = 12;
  settled_at = 12;
  aborted_at = 12;
}

abbrev done_row : Attempt
done_row = record {
  update_id = 5;
  update_kind = codes "message";
  action = codes "status";
  chat_id = pos 1;
  message_id = pos 2;
  actor_id = pos 3;
  attempt_count = 1;
  failure_count = 0;
  status = done;
  owner_token = [];
  lease_until = null;
  last_error = [];
  created_at = 1;
  updated_at = 2;
  finished_at = some 2;
}

abbrev table : Db
table = record {
  checkpoint = some (record { next_offset = 6; confirmed_offset = 5; updated_at = 2 });
  attempts = done_row ∷ [];
}

table-Inv : Inv table
unfolding find_key
table-Inv = record {
  ordered = omega arith;
  rows = record {
    distinct = (refl, tt);
    each = (
      record {
        below = omega arith;
        failures = omega arith;
        no_owner = refl;
        no_lease = refl;
        stamp = 2;
        stamped = refl;
      },
      tt,
    );
  };
}

abbrev polls : Life
polls = (service, poll_answered 11 (turn 5 ∷ turn 6 ∷ []) ∷ [])

-- The world of the tests is the log of the updates that were handled.
abbrev logs : Turn → List ℕ → List ℕ
logs t log = t.update_id ∷ log

abbrev runs_of : ℕ → List ℕ → ℕ
runs_of i [] = 0
runs_of i (id ∷ log) = let rest = runs_of i log in if id == i then rest + 1 else rest

store_journal-Answered_example :
    Answered
      (service_journal whole_days ascii_width logs)
      (acting (List ℕ) logs)
      (service_view whole_days ascii_width logs)
      (service_journal-IsJournal whole_days ascii_width logs)
      ascii_width
      service
      (turn 6 ∷ [])
      6
      (poll_once
        (service_journal whole_days ascii_width logs)
        (acting (List ℕ) logs)
        ascii_width
        service
        (poll_answered 11 (turn 6 ∷ []))
        6
        (table, 5 ∷ []))
store_journal-Answered_example =
    store_journal-Answered whole_days ascii_width logs service 11 (turn 6 ∷ []) 6 table (5 ∷ [])
      table-Inv (omega arith) (omega arith, tt)

done_row_found : find_attempt table 5 ≡ some done_row
unfolding find_attempt find_key
done_row_found = refl

other_runs : (t : Turn) (log : List ℕ) → t.update_id ≢ 5 → runs_of 5 (logs t log) ≡ runs_of 5 log
other_runs t log other = ground (arith, other)

-- Update 5 was handled once, and is sent twice more.
settled_unhandled_example :
    runs_of 5
      (lives
        (service_journal whole_days ascii_width logs)
        (acting (List ℕ) logs)
        ascii_width
        (polls ∷ polls ∷ [])
        (table, 5 ∷ [])).1
    ≡ 1
settled_unhandled_example =
    settled_unhandled whole_days ascii_width logs (runs_of 5) 5 other_runs (polls ∷ polls ∷ [])
      table (5 ∷ []) table-Inv (inl (done_row, done_row_found, refl))

token_fits : owner_token_fits service.owner_token ≡ true
unfolding owner_token_fits
token_fits = refl

request_of-check_request_example : check_request (request_of service (turn 5)) 12 ≡ ok 6
request_of-check_request_example =
    request_of-check_request service (turn 5) status_message 12 (omega arith) refl token_fits
      (omega arith) (omega arith)

-- A cause beyond the bound of 1,024 bytes.
bounded_journal_error_lem_example :
    ((k : ℕ) × (bounded_journal_error ascii_width (replicate 1030 b'x')
        ≡ take k (replicate 1030 b'x')))
    × (length (bounded_journal_error ascii_width (replicate 1030 b'x')) ≤ max_error_bytes)
bounded_journal_error_lem_example =
    bounded_journal_error_lem ascii_width (λ s h. (omega (arith, h), omega arith))
      (replicate 1030 b'x')
