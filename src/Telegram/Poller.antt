-- ===== src/Telegram/Poller.antt =====
-- internal/telegram/service.go: Run, over any journal.
-- The journal is Go's interface UpdateJournal: a record of operations on a state, each at a time.
-- A turn is one update with what its clocks, its handler and its context did; waiting between polls,
-- logging and the registration of commands change no state of the journal and are left out.
use lofi_bot.Prelude.{
  ℕ, Bool, true, false, ◌||◌, List, [], ◌∷◌, Option, none, some, ltb, if◌then◌else◌, ◌+◌,
}
use lofi_bot.Prelude.Int.{ℤ, pos}
use lofi_bot.Prelude.Text.{Text}
use lofi_bot.Journal.Rows.{Time, Result, ok, err, JournalError}
use lofi_bot.Journal.Attempts.{
  Request, Begun, Disposition, execute, already_terminal, busy, poisoned,
}
use lofi_bot.Telegram.Handling.{
  Timeouts, update_lease_until, effective_stuck_owner_lease, max_update_handler_failures, Handling,
  UpdateError, update_cancelled, update_stuck, update_failed, update_panicked,
  handle_update_bounded, bounded_journal_error,
}

pub record UpdateJournal (S : Type 0) : Type 0 where
  pub load_checkpoint : S → Result (ℕ × ℕ)
  pub confirm_offset : ℕ → Time → S → S × Result (Unit {0})
  pub begin_attempt : Request → Time → S → S × Result Begun
  pub complete_attempt : ℕ → ℕ → Text → Time → S → S × Result (Unit {0})
  pub abort_attempt : ℕ → Text → Time → S → S × Result (Unit {0})
  pub fail_attempt : ℕ → ℕ → Text → ℕ → Text → Option Time → Time → S → S × Result Bool

-- What `metadataForUpdate` tells of an update.
pub record Metadata : Type 0 where
  pub kind : Text
  pub action : Text
  pub chat_id : ℤ
  pub message_id : ℤ
  pub actor_id : ℤ

-- An actionable update as it is processed. The cause is the text of the handler's error, redacted.
pub record Turn : Type 0 where
  pub update_id : ℕ
  pub metadata : Metadata
  pub cancelled_before : Bool
  pub lease_from : Time
  pub begun_at : Time
  pub handling : Handling
  pub cause : Text
  pub hold_from : Time
  pub settled_at : Time
  pub aborted_at : Time

pub data Stop : Type 0 where
  stop_cancelled stop_busy stop_checkpoint : Stop
  stop_journal : JournalError → Stop
  stop_journals : JournalError → JournalError → Stop
  stop_handler : UpdateError → Stop
  stop_both : UpdateError → JournalError → Stop

-- The loop goes on with an offset, or `Run` returns.
pub data Progress : Type 0 where
  continues : ℕ → Progress
  stops : Stop → Progress

pub record Run : Type 0 where
  pub owner_token : Text
  pub timeouts : Timeouts

abbrev pub next_offset : Turn → ℕ
next_offset t = t.update_id + 1

unfoldable pub request_of : Run → Turn → Request
unfolding update_lease_until
request_of run t = record {
  update_id = pos t.update_id;
  update_kind = t.metadata.kind;
  action = t.metadata.action;
  chat_id = t.metadata.chat_id;
  message_id = t.metadata.message_id;
  actor_id = t.metadata.actor_id;
  owner_token = run.owner_token;
  lease_until = update_lease_until run.timeouts t.lease_from;
  max_failures = pos max_update_handler_failures;
}

-- One pass of the polling loop after the check of its context: a poll that fails waits and tries
-- again, one that answers confirms the offset it asked for.
pub data Poll : Type 0 where
  poll_failed : Poll
  poll_answered : Time → List Turn → Poll

-- What a turn's handler does to the state, while it runs, is a parameter.
module _ {S : Type 0} (j : UpdateJournal S) (handler : Turn → S → S)
    (last_rune_width : Text → ℕ) where
  open j use {
    load_checkpoint, confirm_offset, begin_attempt, complete_attempt, abort_attempt, fail_attempt,
  }

  abbrev pub after_abort : UpdateError → S × Result (Unit {0}) → S × Progress
  after_abort e (s, ok _) = (s, stops (stop_handler e))
  after_abort e (s, err failure) = (s, stops (stop_both e failure))

  unfoldable pub abort_turn : Run → Turn → UpdateError → S → S × Progress
  abort_turn run t e s = after_abort e (abort_attempt t.update_id run.owner_token t.aborted_at s)

  unfoldable pub record_update_failure : Run → Turn → Option Time → S → S × Result Bool
  unfolding bounded_journal_error
  record_update_failure run t hold s =
      fail_attempt t.update_id (next_offset t) run.owner_token max_update_handler_failures
        (bounded_journal_error last_rune_width t.cause) hold t.settled_at s

  abbrev pub is_panic : UpdateError → Bool
  is_panic (update_panicked e) = true
  is_panic _ = false

  -- A stuck handler stops the service, dead or not.
  abbrev pub after_stuck : UpdateError → S × Result Bool → S × Progress
  after_stuck e (s, ok dead) = (s, stops (stop_handler e))
  after_stuck e (s, err failure) = (s, stops (stop_both e failure))

  -- A failed handler stops it too, unless its update is now dead and it did not panic.
  abbrev pub after_failure : Turn → UpdateError → S × Result Bool → S × Progress
  after_failure t e (s, ok dead) =
      if dead
      then if is_panic e then (s, stops (stop_handler e)) else (s, continues (next_offset t))
      else (s, stops (stop_handler e))
  after_failure t e (s, err failure) = (s, stops (stop_both e failure))

  -- The switch over the handler's error.
  unfoldable pub settle_error : Run → Turn → Bool → UpdateError → S → S × Progress
  unfolding record_update_failure abort_turn effective_stuck_owner_lease
  settle_error run t cancelled update_stuck s = after_stuck update_stuck (
      record_update_failure run t (some (t.hold_from + effective_stuck_owner_lease run.timeouts)) s)
  settle_error run t cancelled update_cancelled s = abort_turn run t update_cancelled s
  settle_error run t true (update_failed e) s = abort_turn run t (update_failed e) s
  settle_error run t true (update_panicked e) s = abort_turn run t (update_panicked e) s
  settle_error run t false (update_failed e) s =
      after_failure t (update_failed e) (record_update_failure run t none s)
  settle_error run t false (update_panicked e) s =
      after_failure t (update_panicked e) (record_update_failure run t none s)

  abbrev pub after_release : JournalError → S × Result (Unit {0}) → S × Progress
  after_release failure (s, ok _) = (s, stops (stop_journal failure))
  after_release failure (s, err abort_failure) = (s, stops (stop_journals failure abort_failure))

  -- A completion that fails releases the claim.
  abbrev pub after_complete : Run → Turn → S × Result (Unit {0}) → S × Progress
  after_complete run t (s, ok _) = (s, continues (next_offset t))
  after_complete run t (s, err failure) =
      after_release failure (abort_attempt t.update_id run.owner_token t.aborted_at s)

  unfoldable pub complete_turn : Run → Turn → S → S × Progress
  complete_turn run t s =
      after_complete run t
        (complete_attempt t.update_id (next_offset t) run.owner_token t.settled_at s)

  abbrev pub after_handler : Run → Turn → Bool × Option UpdateError → S → S × Progress
  after_handler run t (timed_out, none) s = complete_turn run t s
  after_handler run t (timed_out, some e) s =
      settle_error run t (t.handling.cancelled || t.handling.cancelled_later) e s

  unfoldable pub execute_turn : Run → Turn → S → S × Progress
  unfolding complete_turn settle_error handle_update_bounded
  execute_turn run t s = after_handler run t (handle_update_bounded t.handling) (handler t s)

  abbrev pub on_disposition : Run → Turn → Disposition → S → S × Progress
  on_disposition run t already_terminal s = (s, continues (next_offset t))
  on_disposition run t poisoned s = (s, continues (next_offset t))
  on_disposition run t busy s = (s, stops stop_busy)
  on_disposition run t execute s = execute_turn run t s

  abbrev pub after_begin : Run → Turn → S × Result Begun → S × Progress
  after_begin run t (s, ok begun) = on_disposition run t begun.disposition s
  after_begin run t (s, err failure) = (s, stops (stop_journal failure))

  unfoldable pub take_turn : Run → Turn → ℕ → S → S × Progress
  unfolding execute_turn request_of
  take_turn run t offset s =
      let begun = after_begin run t (begin_attempt (request_of run t) t.begun_at s) in
      if t.cancelled_before
      then (s, stops stop_cancelled)
      else if ltb t.update_id offset
      then (s, continues offset)
      else begun

  abbrev pub then_turns : (ℕ → S → S × Progress) → S × Progress → S × Progress
  then_turns rest (s, continues offset) = rest offset s
  then_turns rest (s, stops e) = (s, stops e)

  -- The turns of one response, as long as the loop goes on.
  unfoldable pub take_turns : Run → List Turn → ℕ → S → S × Progress
  unfolding take_turn
  take_turns run [] offset s = (s, continues offset)
  take_turns run (t ∷ ts) offset s =
      then_turns (λ next s'. take_turns run ts next s') (take_turn run t offset s)

  abbrev pub after_confirm : Run → List Turn → ℕ → S × Result (Unit {0}) → S × Progress
  after_confirm run ts offset (s, ok _) = take_turns run ts offset s
  after_confirm run ts offset (s, err failure) = (s, stops (stop_journal failure))

  unfoldable pub poll_once : Run → Poll → ℕ → S → S × Progress
  unfolding take_turns
  poll_once run poll_failed offset s = (s, continues offset)
  poll_once run (poll_answered now ts) offset s =
      after_confirm run ts offset (confirm_offset offset now s)

  unfoldable pub poll_all : Run → List Poll → ℕ → S → S × Progress
  unfolding poll_once
  poll_all run [] offset s = (s, continues offset)
  poll_all run (p ∷ ps) offset s =
      then_turns (λ next s'. poll_all run ps next s') (poll_once run p offset s)

  abbrev pub after_load : Run → List Poll → S → Result (ℕ × ℕ) → S × Progress
  after_load run ps s (ok (next, confirmed)) =
      if ltb next confirmed then (s, stops stop_checkpoint) else poll_all run ps next s
  after_load run ps s (err failure) = (s, stops (stop_journal failure))

  -- A life of the service: it loads its offset, and polls.
  unfoldable pub run_service : Run → List Poll → S → S × Progress
  unfolding poll_all
  run_service run ps s = after_load run ps s (load_checkpoint s)
