-- ===== src/AsyncLog/Tests.antt =====
-- A queue of three records: filled, shut down and drained while the sink fails once.
use lofi_bot.Prelude.{ℕ, ◌+◌, refl, arith, true, false, List, [], ◌∷◌}
use lofi_bot.AsyncLog.Core.{
  Core, new_core, state_draining, draining, Event, handles, drains, aborts, writes, takes_queue,
  takes_default, run,
}
use lofi_bot.AsyncLog.Accounting.{IsAccounted, run-IsAccounted}
use lofi_bot.AsyncLog.Draining.{IsDrained, drain_steps, failures_of, run-IsDrained}

new_core-IsAccounted : IsAccounted (new_core {Item = ℕ})
unfolding new_core
new_core-IsAccounted = record {
  fits = omega arith;
  counted = refl;
  reached = omega arith;
  high = omega arith;
  reported = omega arith;
  pending = omega arith;
}

abbrev events : List (Event ℕ)
events =
    handles 7
    ∷ writes takes_default false
    ∷ writes takes_queue false
    ∷ handles 8
    ∷ drains
    ∷ handles 9
    ∷ aborts
    ∷ []

run-IsAccounted_example : IsAccounted (run (new_core {Item = ℕ}) events)
run-IsAccounted_example = run-IsAccounted new_core events new_core-IsAccounted

abbrev waiting : Core ℕ
waiting = record {
  state = state_draining;
  queue = 1 ∷ 2 ∷ 3 ∷ [];
  writer = draining;
  drain_closed = true;
  abort_closed = false;
  done_closed = false;
  total_drops = 5;
  pending_drops = 2;
  sink_errors = 1;
  depth = 3;
  high_water = 4;
}

run-IsDrained_example :
    IsDrained
      (1 + failures_of (false ∷ true ∷ false ∷ []))
      (run waiting (drain_steps (false ∷ true ∷ false ∷ [])))
run-IsDrained_example =
    run-IsDrained waiting (false ∷ true ∷ false ∷ [])
      (record { at_drain = refl; not_stopped = refl; not_aborted = refl }) refl
