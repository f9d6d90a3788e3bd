-- ===== src/AsyncLog/Core.antt =====
-- internal/asynclog/asynclog.go: core, with its callers and its writer goroutine as steps.
-- Handle, Abort and beginDrain hold one mutex, and are a step each; the writer takes a step for each
-- of its channel operations and counters. A select is a choice among the branches that are ready.
-- Records are of any type; the sink's failure is part of the writer's step.
use lofi_bot.Prelude.{
  ℕ, ◌+◌, ◌-◌, Bool, true, false, not, ◌&&◌, List, [], ◌∷◌, ◌++◌, ltb, leb, if◌then◌else◌, length,
}

abbrev pub queue_capacity : ℕ
queue_capacity = 256

pub data State : Type 0 where
  state_open state_draining state_stopped : State

abbrev pub is_open_state : State → Bool
is_open_state state_open = true
is_open_state _ = false

abbrev pub is_stopped_state : State → Bool
is_stopped_state state_stopped = true
is_stopped_state _ = false

-- Where the writer goroutine stands: in the loop of `run`, of `drainQueue` or of `discardQueued`, with
-- the record it has received, and in `emit` with the drops that it read.
pub data Writer (Item : Type 0) : Type 0 where
  looping selecting draining drain_selecting discarding finishing finished discard_received :
      Writer Item
  received dequeued drain_received : Item → Writer Item
  emitting : Bool → Item → ℕ → Writer Item

pub record Core (Item : Type 0) : Type 0 where
  pub state : State
  pub queue : List Item
  pub writer : Writer Item
  pub drain_closed : Bool
  pub abort_closed : Bool
  pub done_closed : Bool
  pub total_drops : ℕ
  pub pending_drops : ℕ
  pub sink_errors : ℕ
  pub depth : ℕ
  pub high_water : ℕ

-- The branch that a select takes, among those that are ready.
pub data Choice : Type 0 where
  takes_abort takes_queue takes_drain takes_default : Choice

pub data Event (Item : Type 0) : Type 0 where
  handles : Item → Event Item
  drains aborts : Event Item
  writes : Choice → Bool → Event Item

module _ {Item : Type 0} where
  unfoldable pub new_core : Core Item
  new_core = record {
    state = state_open;
    queue = [];
    writer = looping;
    drain_closed = false;
    abort_closed = false;
    done_closed = false;
    total_drops = 0;
    pending_drops = 0;
    sink_errors = 0;
    depth = 0;
    high_water = 0;
  }

  unfoldable pub record_drop : Core Item → Core Item
  record_drop c = record c { total_drops = c.total_drops + 1; pending_drops = c.pending_drops + 1 }

  unfoldable pub enqueue : Item → Core Item → Core Item
  enqueue item c =
      let depth = c.depth + 1 in
      record c {
        queue = c.queue ++ item ∷ [];
        depth = depth;
        high_water = if leb depth c.high_water then c.high_water else depth;
      }

  unfoldable pub handle : Item → Core Item → Core Item
  unfolding record_drop enqueue
  handle item c =
      if not (is_open_state c.state)
      then record_drop c
      else if ltb (length c.queue) queue_capacity
      then enqueue item c
      else record_drop c

  unfoldable pub begin_drain : Core Item → Core Item
  begin_drain c =
      if is_open_state c.state then record c { state = state_draining; drain_closed = true } else c

  unfoldable pub abort : Core Item → Core Item
  abort c =
      if is_stopped_state c.state
      then c
      else record c { state = state_stopped; abort_closed = true; done_closed = true }

  unfoldable pub record_dequeue : Core Item → Core Item
  record_dequeue c = record c { depth = c.depth - 1 }

  unfoldable pub clear_reported_drops : ℕ → Core Item → Core Item
  clear_reported_drops reported c =
      if ltb c.pending_drops reported
      then c
      else record c { pending_drops = c.pending_drops - reported }

  -- The writer after `emit`: back in the loop of `drainQueue`, or of `run`.
  abbrev pub resumed : Bool → Writer Item
  resumed true = draining
  resumed false = looping

  unfoldable pub emit : Bool → Bool → ℕ → Core Item → Core Item
  unfolding clear_reported_drops
  emit sink_failed in_drain pending c =
      let back = record c { writer = resumed in_drain } in
      if sink_failed
      then record back { sink_errors = c.sink_errors + 1 }
      else if ltb 0 pending
      then clear_reported_drops pending back
      else back

  unfoldable pub finish : Core Item → Core Item
  finish c = record c { state = state_stopped; done_closed = true; writer = finished }

  abbrev pub moved_if : Bool → Writer Item → Core Item → Core Item
  moved_if true w c = record c { writer = w }
  moved_if false w c = c

  -- A receive from the queue.
  abbrev pub receive : (Item → Writer Item) → List Item → Core Item → Core Item
  receive w [] c = c
  receive w (item ∷ items) c = record c { queue = items; writer = w item }

  abbrev pub is_empty : List Item → Bool
  is_empty [] = true
  is_empty (item ∷ items) = false

  -- The selects of `run` and of `drainQueue`; a branch that is not ready is not taken.
  unfoldable pub select_run : Choice → Core Item → Core Item
  select_run takes_abort c = moved_if c.abort_closed discarding c
  select_run takes_queue c = receive received c.queue c
  select_run takes_drain c = moved_if c.drain_closed draining c
  select_run takes_default c = c

  unfoldable pub select_drain : Choice → Core Item → Core Item
  select_drain takes_abort c = moved_if c.abort_closed discarding c
  select_drain takes_queue c = receive drain_received c.queue c
  select_drain takes_drain c = c
  select_drain takes_default c = moved_if (is_empty c.queue && not c.abort_closed) finishing c

  unfoldable pub discard_one : List Item → Core Item → Core Item
  discard_one [] c = record c { writer = finishing }
  discard_one (item ∷ items) c = record c { queue = items; writer = discard_received }

  unfoldable pub write : Choice → Bool → Writer Item → Core Item → Core Item
  unfolding select_run select_drain discard_one record_dequeue emit finish
  write choice sink_failed looping c = record c {
    writer = if c.abort_closed then discarding else selecting;
  }
  write choice sink_failed selecting c = select_run choice c
  write choice sink_failed (received item) c = record (record_dequeue c) { writer = dequeued item }
  write choice sink_failed (dequeued item) c = record c {
    writer = if is_stopped_state c.state then discarding else emitting false item c.pending_drops;
  }
  write choice sink_failed draining c = record c {
    writer = if is_stopped_state c.state then discarding else drain_selecting;
  }
  write choice sink_failed drain_selecting c = select_drain choice c
  write choice sink_failed (drain_received item) c = record (record_dequeue c) {
    writer = emitting true item c.pending_drops;
  }
  write choice sink_failed (emitting in_drain item pending) c = emit sink_failed in_drain pending c
  write choice sink_failed discarding c = discard_one c.queue c
  write choice sink_failed discard_received c = record (record_dequeue c) { writer = discarding }
  write choice sink_failed finishing c = finish c
  write choice sink_failed finished c = c

  unfoldable pub step : Core Item → Event Item → Core Item
  unfolding handle begin_drain abort write
  step c (handles item) = handle item c
  step c drains = begin_drain c
  step c aborts = abort c
  step c (writes choice sink_failed) = write choice sink_failed c.writer c

  unfoldable pub run : Core Item → List (Event Item) → Core Item
  unfolding step
  run c [] = c
  run c (e ∷ es) = run (step c e) es
