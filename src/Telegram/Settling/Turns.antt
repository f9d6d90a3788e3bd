-- ===== src/Telegram/Settling/Turns.antt =====
-- One update's turn: the loop goes on past it only when it is settled.
use lofi_bot.Prelude.{
  ℕ, ◌+◌, ◌≤◌, ◌<◌, ◌≡◌, ◌⊎◌, inl, inr, refl, arith, Option, none, some, Bool, true, false, ◌||◌,
  ltb, if◌then◌else◌,
}
use lofi_bot.Prelude.Text.{Text}
use lofi_bot.Journal.Rows.{Time, Result, ok, err, JournalError}
use lofi_bot.Journal.Attempts.{Begun, Disposition, execute, already_terminal, busy, poisoned}
use lofi_bot.Journal.Invariant.{Returns}
use lofi_bot.Journal.Settled.{SaysOver}
use lofi_bot.Telegram.Handling.{
  UpdateError, update_cancelled, update_stuck, update_failed, update_panicked,
  handle_update_bounded, bounded_journal_error, max_update_handler_failures,
  effective_stuck_owner_lease,
}
use lofi_bot.Telegram.Poller.{
  UpdateJournal, Turn, stop_cancelled, stop_handler, Progress, continues, stops, Run, next_offset,
  request_of, after_abort, abort_turn, record_update_failure, is_panic, after_stuck, after_failure,
  settle_error, after_release, after_complete, complete_turn, after_handler, execute_turn,
  on_disposition, after_begin, take_turn,
}
use lofi_bot.Telegram.Contract.{View, FollowsUnconfirmed, IsJournal}

pub FollowsUnconfirmed-trans :
    {S : Type 0} (v : View S) {s s' s'' : S}
    → FollowsUnconfirmed v s s'
    → FollowsUnconfirmed v s' s''
    → FollowsUnconfirmed v s s''
FollowsUnconfirmed-trans v a b = record {
  follows = record {
    sound = b.follows.sound;
    stays = λ i h. b.follows.stays i (a.follows.stays i h);
  };
  same = omega (arith, a.same, b.same);
}

module _ {S : Type 0} (j : UpdateJournal S) (handler : Turn → S → S) (v : View S)
    (laws : IsJournal j handler v) (last_rune_width : Text → ℕ) (run : Run) (t : Turn) where
  -- Where a turn that began at a state ends.
  abbrev pub Ends : S → S × Progress → Type 0
  Ends s (s', continues offset) =
      FollowsUnconfirmed v s s' × (offset ≡ t.update_id + 1) × v.Settled s' t.update_id
  Ends s (s', stops e) = FollowsUnconfirmed v s s'

  Ends-trans : {s s' : S} (p : S × Progress) → FollowsUnconfirmed v s s' → Ends s' p → Ends s p
  Ends-trans (s'', continues offset) a (b, e, settled) =
      (FollowsUnconfirmed-trans v a b, e, settled)
  Ends-trans (s'', stops e) a b = FollowsUnconfirmed-trans v a b

  abort_turn-Ends :
      (e : UpdateError) (s : S)
      → v.IsSound s
      → Ends s (abort_turn j handler last_rune_width run t e s)
  unfolding abort_turn
  abort_turn-Ends e s sound =
      at (j.abort_attempt t.update_id run.owner_token t.aborted_at s)
        (laws.abort_law t.update_id run.owner_token t.aborted_at s sound)
    where
      at :
          (p : S × Result (Unit {0}))
          → FollowsUnconfirmed v s p.0
          → Ends s (after_abort j handler last_rune_width e p)
      at (s', ok _) h = h
      at (s', err failure) h = h

  failed_law :
      (hold : Option Time) (s : S)
      → v.IsSound s
      → let p = record_update_failure j handler last_rune_width run t hold s in
        FollowsUnconfirmed v s p.0 × Returns (λ dead. dead ≡ true → v.Settled p.0 t.update_id) p.1
  unfolding record_update_failure
  failed_law hold s sound =
      laws.fail_law t.update_id (next_offset t) run.owner_token max_update_handler_failures
        (bounded_journal_error last_rune_width t.cause) hold t.settled_at s sound

  after_stuck-Ends :
      (e : UpdateError) (s : S) (p : S × Result Bool)
      → FollowsUnconfirmed v s p.0
      → Ends s (after_stuck j handler last_rune_width e p)
  after_stuck-Ends e s (s', ok dead) h = h
  after_stuck-Ends e s (s', err failure) h = h

  after_failure-Ends :
      (e : UpdateError) (s : S) (p : S × Result Bool)
      → FollowsUnconfirmed v s p.0
      → Returns (λ dead. dead ≡ true → v.Settled p.0 t.update_id) p.1
      → Ends s (after_failure j handler last_rune_width t e p)
  after_failure-Ends e s (s', ok true) h settled =
      quarantined (is_panic j handler last_rune_width e)
    where
      quarantined :
          (b : Bool)
          → Ends s (if b then (s', stops (stop_handler e)) else (s', continues (next_offset t)))
      quarantined true = h
      quarantined false = (h, refl, settled refl)
  after_failure-Ends e s (s', ok false) h settled = h
  after_failure-Ends e s (s', err failure) h settled = h

  settle_error-Ends :
      (cancelled : Bool) (e : UpdateError) (s : S)
      → v.IsSound s
      → Ends s (settle_error j handler last_rune_width run t cancelled e s)
  unfolding settle_error
  settle_error-Ends cancelled update_stuck s sound =
      after_stuck-Ends update_stuck s _
        (failed_law (some (t.hold_from + effective_stuck_owner_lease run.timeouts)) s sound).0
  settle_error-Ends cancelled update_cancelled s sound = abort_turn-Ends update_cancelled s sound
  settle_error-Ends true (update_failed e) s sound = abort_turn-Ends (update_failed e) s sound
  settle_error-Ends true (update_panicked e) s sound = abort_turn-Ends (update_panicked e) s sound
  settle_error-Ends false (update_failed e) s sound =
      let failed = failed_law none s sound in
      after_failure-Ends (update_failed e) s _ failed.0 failed.1
  settle_error-Ends false (update_panicked e) s sound =
      let failed = failed_law none s sound in
      after_failure-Ends (update_panicked e) s _ failed.0 failed.1

  after_release-Ends :
      (failure : JournalError) (s : S) (p : S × Result (Unit {0}))
      → FollowsUnconfirmed v s p.0
      → Ends s (after_release j handler last_rune_width failure p)
  after_release-Ends failure s (s', ok _) h = h
  after_release-Ends failure s (s', err other) h = h

  complete_turn-Ends :
      (s : S) → v.IsSound s → Ends s (complete_turn j handler last_rune_width run t s)
  unfolding complete_turn
  complete_turn-Ends s sound =
      let law =
        laws.complete_law t.update_id (next_offset t) run.owner_token t.settled_at s sound in
      at (j.complete_attempt t.update_id (next_offset t) run.owner_token t.settled_at s) law.0 law.1
    where
      at :
          (p : S × Result (Unit {0}))
          → FollowsUnconfirmed v s p.0
          → Returns (λ _. v.Settled p.0 t.update_id) p.1
          → Ends s (after_complete j handler last_rune_width run t p)
      at (s', ok _) h settled = (h, refl, settled)
      at (s', err failure) h settled =
          let released = j.abort_attempt t.update_id run.owner_token t.aborted_at s' in
          after_release-Ends failure s released (
            FollowsUnconfirmed-trans v h
              (laws.abort_law t.update_id run.owner_token t.aborted_at s' h.follows.sound))

  execute_turn-Ends :
      (s : S) → v.IsSound s → Ends s (execute_turn j handler last_rune_width run t s)
  unfolding execute_turn
  execute_turn-Ends s sound = at (handle_update_bounded t.handling)
    where
      handled : FollowsUnconfirmed v s (handler t s)
      handled = laws.handler_law t s sound

      at :
          (p : Bool × Option UpdateError)
          → Ends s (after_handler j handler last_rune_width run t p (handler t s))
      at (timed_out, none) =
          Ends-trans (complete_turn j handler last_rune_width run t (handler t s)) handled
            (complete_turn-Ends (handler t s) handled.follows.sound)
      at (timed_out, some e) =
          let cancelled = t.handling.cancelled || t.handling.cancelled_later in
          Ends-trans (settle_error j handler last_rune_width run t cancelled e (handler t s))
            handled (settle_error-Ends cancelled e (handler t s) handled.follows.sound)

  on_disposition-Ends :
      (d : Disposition) (s : S)
      → v.IsSound s
      → FollowsUnconfirmed v s s
      → (SaysOver d → v.Settled s t.update_id)
      → Ends s (on_disposition j handler last_rune_width run t d s)
  on_disposition-Ends already_terminal s sound same over = (same, refl, over tt)
  on_disposition-Ends poisoned s sound same over = (same, refl, over tt)
  on_disposition-Ends busy s sound same over = same
  on_disposition-Ends execute s sound same over = execute_turn-Ends s sound

  begun-Ends :
      (s : S)
      → v.IsSound s
      → Ends s (
          after_begin j handler last_rune_width run t
            (j.begin_attempt (request_of run t) t.begun_at s))
  unfolding request_of
  begun-Ends s sound =
      at (j.begin_attempt (request_of run t) t.begun_at s)
        (laws.begin_law (request_of run t) t.begun_at s sound)
        (laws.begin_over (request_of run t) t.begun_at s sound)
    where
      at :
          (p : S × Result Begun)
          → FollowsUnconfirmed v s p.0
          → Returns (λ (b : Begun). SaysOver b.disposition → v.Settled p.0 t.update_id) p.1
          → Ends s (after_begin j handler last_rune_width run t p)
      at (s', err failure) h over = h
      at (s', ok b) h over =
          Ends-trans (on_disposition j handler last_rune_width run t b.disposition s') h (
            on_disposition-Ends b.disposition s' h.follows.sound
              (record {
                follows = record { sound = h.follows.sound; stays = λ i k. k };
                same = omega arith;
              })
              over)

  -- The offset does not move back.
  abbrev pub NotBelow : ℕ → S × Progress → Type 0
  NotBelow offset (s', continues next) = offset ≤ next
  NotBelow offset (s', stops e) = Unit {0}

  Ends-NotBelow :
      (offset : ℕ) (s : S) (p : S × Progress) → offset ≤ t.update_id → Ends s p → NotBelow offset p
  Ends-NotBelow offset s (s', continues next) h e = omega (arith, e.1)
  Ends-NotBelow offset s (s', stops e) h _ = tt

  -- A turn below the offset is skipped, and any other ends as its operations do.
  abbrev pub Taken : ℕ → S → S × Progress → Type 0
  Taken offset s p =
      ((p ≡ (s, continues offset)) × (t.update_id < offset)) ⊎ (Ends s p × NotBelow offset p)

  pub take_turn-Taken :
      (offset : ℕ) (s : S)
      → v.IsSound s
      → Taken offset s (take_turn j handler last_rune_width run t offset s)
  unfolding take_turn
  take_turn-Taken offset s sound = at t.cancelled_before (ltb t.update_id offset) refl
    where
      begun : S × Progress
      begun =
          after_begin j handler last_rune_width run t
            (j.begin_attempt (request_of run t) t.begun_at s)

      at :
          (a b : Bool)
          → ltb t.update_id offset ≡ b
          → Taken offset s
              (if a then (s, stops stop_cancelled) else if b then (s, continues offset) else begun)
      at true b f =
          inr (
            record { follows = record { sound = sound; stays = λ i k. k }; same = omega arith },
            tt,
          )
      at false true f = inl (refl, ground (arith, f))
      at false false f = inr (
        begun-Ends s sound,
        Ends-NotBelow offset s begun (ground (arith, f)) (begun-Ends s sound),
      )
