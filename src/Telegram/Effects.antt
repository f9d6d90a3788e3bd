-- ===== src/Telegram/Effects.antt =====
-- What the steps of a turn leave of the world beside the journal.
use lofi_bot.Prelude.{ℕ, ◌≡◌, refl, Option, none, some, Bool, true, false, ◌||◌}
use lofi_bot.Prelude.Text.{Text}
use lofi_bot.Journal.Rows.{Result, ok, err, JournalError}
use lofi_bot.Telegram.Handling.{
  UpdateError, update_cancelled, update_stuck, update_failed, update_panicked,
  handle_update_bounded,
}
use lofi_bot.Telegram.Poller.{
  UpdateJournal, Turn, Run, next_offset, after_abort, abort_turn, record_update_failure,
  after_stuck, after_failure, settle_error, after_release, after_complete, complete_turn,
  after_handler, execute_turn,
}
use lofi_bot.Telegram.World.{beside, acting}

module _ {S : Type 0} (j : UpdateJournal S) (World : Type 0) (act : Turn → World → World)
    (last_rune_width : Text → ℕ) where
  after_release_world :
      (failure : JournalError) (p : (S × World) × Result (Unit {0}))
      → (after_release (beside World j) (acting World act) last_rune_width failure p).0.1 ≡ p.0.1
  after_release_world failure (s, ok _) = refl
  after_release_world failure (s, err other) = refl

  after_abort_world :
      (e : UpdateError) (p : (S × World) × Result (Unit {0}))
      → (after_abort (beside World j) (acting World act) last_rune_width e p).0.1 ≡ p.0.1
  after_abort_world e (s, ok _) = refl
  after_abort_world e (s, err other) = refl

  after_stuck_world :
      (e : UpdateError) (p : (S × World) × Result Bool)
      → (after_stuck (beside World j) (acting World act) last_rune_width e p).0.1 ≡ p.0.1
  after_stuck_world e (s, ok dead) = refl
  after_stuck_world e (s, err other) = refl

  module _ (run : Run) (t : Turn) where
    after_failure_world :
        (e : UpdateError) (p : (S × World) × Result Bool)
        → (after_failure (beside World j) (acting World act) last_rune_width t e p).0.1 ≡ p.0.1
    after_failure_world e (s, err other) = refl
    after_failure_world e (s, ok false) = refl
    after_failure_world (update_panicked e) (s, ok true) = refl
    after_failure_world (update_failed e) (s, ok true) = refl
    after_failure_world update_stuck (s, ok true) = refl
    after_failure_world update_cancelled (s, ok true) = refl

    complete_turn_world :
        (s : S × World)
        → (complete_turn (beside World j) (acting World act) last_rune_width run t s).0.1 ≡ s.1
    unfolding complete_turn
    complete_turn_world s = at (
        (beside World j).complete_attempt t.update_id (next_offset t) run.owner_token t.settled_at
          s)
      where
        at :
            (p : (S × World) × Result (Unit {0}))
            → (after_complete (beside World j) (acting World act) last_rune_width run t p).0.1
              ≡ p.0.1
        at (s', ok _) = refl
        at (s', err failure) =
            after_release_world failure
              ((beside World j).abort_attempt t.update_id run.owner_token t.aborted_at s')

    settle_error_world :
        (cancelled : Bool) (e : UpdateError) (s : S × World)
        → (settle_error (beside World j) (acting World act) last_rune_width run t cancelled e s).0.1
          ≡ s.1
    unfolding settle_error abort_turn record_update_failure
    settle_error_world cancelled update_stuck s = after_stuck_world update_stuck _
    settle_error_world cancelled update_cancelled s = after_abort_world update_cancelled _
    settle_error_world true (update_failed e) s = after_abort_world (update_failed e) _
    settle_error_world true (update_panicked e) s = after_abort_world (update_panicked e) _
    settle_error_world false (update_failed e) s = after_failure_world (update_failed e) _
    settle_error_world false (update_panicked e) s = after_failure_world (update_panicked e) _

    pub execute_turn_world :
        (s : S × World)
        → (execute_turn (beside World j) (acting World act) last_rune_width run t s).0.1 ≡ act t s.1
    unfolding execute_turn
    execute_turn_world s = at (handle_update_bounded t.handling)
      where
        s' : S × World
        s' = acting World act t s

        at :
            (p : Bool × Option UpdateError)
            → (after_handler (beside World j) (acting World act) last_rune_width run t p s').0.1
              ≡ act t s.1
        at (timed_out, none) = complete_turn_world s'
        at (timed_out, some e) =
            settle_error_world (t.handling.cancelled || t.handling.cancelled_later) e s'
