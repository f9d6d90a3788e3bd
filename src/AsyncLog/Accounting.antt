-- ===== src/AsyncLog/Accounting.antt =====
-- What holds of the queue and its counters between any two steps of the callers and the writer.
use lofi_bot.Prelude.{
  ℕ, suc, ◌+◌, ◌≤◌, ◌≡◌, refl, ap, arith, Bool, true, false, not, ◌&&◌, List, [], ◌∷◌, ◌++◌, length,
}
use lofi_bot.AsyncLog.Core.{
  queue_capacity, Writer, looping, selecting, draining, drain_selecting, discarding, finishing,
  finished, discard_received, received, dequeued, drain_received, emitting, Core, Choice,
  takes_abort, takes_queue, takes_drain, takes_default, Event, handles, drains, aborts, writes,
  record_drop, enqueue, handle, begin_drain, abort, record_dequeue, clear_reported_drops, emit,
  finish, moved_if, receive, is_empty, select_run, select_drain, discard_one, write, step, run,
}

module _ {Item : Type 0} where
  -- The records that were received and are still counted in the depth.
  abbrev pub in_hand : Writer Item → ℕ
  in_hand (received item) = 1
  in_hand (drain_received item) = 1
  in_hand discard_received = 1
  in_hand _ = 0

  -- The drops that the writer is about to report.
  abbrev pub reporting : Writer Item → ℕ
  reporting (emitting in_drain item pending) = pending
  reporting _ = 0

  -- The queue is full at the capacity, and the depth counts it and the record in hand; a record in
  -- hand may take the depth one above the capacity.
  pub record IsAccounted (c : Core Item) : Type 0 where
    pub fits : length c.queue ≤ queue_capacity
    pub counted : c.depth ≡ length c.queue + in_hand c.writer
    pub reached : c.depth ≤ c.high_water
    pub high : c.high_water ≤ queue_capacity + 1
    pub reported : reporting c.writer ≤ c.pending_drops
    pub pending : c.pending_drops ≤ c.total_drops

  length-snoc : (xs : List Item) (x : Item) → length (xs ++ x ∷ []) ≡ length xs + 1
  length-snoc [] x = refl
  length-snoc (y ∷ xs) x = omega (arith, length-snoc xs x)

  in_hand-le : (w : Writer Item) → in_hand w ≤ 1
  in_hand-le w = ground arith

  handle-IsAccounted : (item : Item) (c : Core Item) → IsAccounted c → IsAccounted (handle item c)
  unfolding handle enqueue record_drop
  handle-IsAccounted item c v = ground (arith, length-snoc c.queue item, in_hand-le c.writer)

  drain-IsAccounted : (c : Core Item) → IsAccounted c → IsAccounted (begin_drain c)
  unfolding begin_drain
  drain-IsAccounted c v = ground arith

  abort-IsAccounted : (c : Core Item) → IsAccounted c → IsAccounted (abort c)
  unfolding abort
  abort-IsAccounted c v = ground arith

  receive-IsAccounted :
      (w : Item → Writer Item) (xs : List Item) (c : Core Item)
      → ((item : Item) → in_hand (w item) ≡ 1)
      → ((item : Item) → reporting (w item) ≡ 0)
      → c.queue ≡ xs
      → in_hand c.writer ≡ 0
      → IsAccounted c
      → IsAccounted (receive w xs c)
  receive-IsAccounted w [] c one none_reported e free v = v
  receive-IsAccounted w (x ∷ xs) c one none_reported e free v =
      let v' : length c.queue ≡ suc (length xs) = ap length e in
      record {
        fits = omega (arith, v.fits, v');
        counted = omega (arith, one x, v.counted, v', free);
        reached = v.reached;
        high = v.high;
        reported = omega (arith, none_reported x);
        pending = v.pending;
      }

  moved_if-IsAccounted :
      (b : Bool) (w : Writer Item) (c : Core Item)
      → in_hand w ≡ 0
      → reporting w ≡ 0
      → in_hand c.writer ≡ 0
      → IsAccounted c
      → IsAccounted (moved_if b w c)
  moved_if-IsAccounted false w c h r free v = v
  moved_if-IsAccounted true w c h r free v = record {
    fits = v.fits;
    counted = omega (arith, v.counted);
    reached = v.reached;
    high = v.high;
    reported = omega arith;
    pending = v.pending;
  }

  select_run-IsAccounted :
      (k : Choice) (c : Core Item)
      → c.writer ≡ selecting
      → IsAccounted c
      → IsAccounted (select_run k c)
  unfolding select_run
  select_run-IsAccounted takes_abort c e v =
      moved_if-IsAccounted c.abort_closed discarding c refl refl (rw e refl) v
  select_run-IsAccounted takes_queue c e v =
      receive-IsAccounted received c.queue c (λ _. refl) (λ _. refl) refl (rw e refl) v
  select_run-IsAccounted takes_drain c e v =
      moved_if-IsAccounted c.drain_closed draining c refl refl (rw e refl) v
  select_run-IsAccounted takes_default c e v = v

  select_drain-IsAccounted :
      (k : Choice) (c : Core Item)
      → c.writer ≡ drain_selecting
      → IsAccounted c
      → IsAccounted (select_drain k c)
  unfolding select_drain
  select_drain-IsAccounted takes_abort c e v =
      moved_if-IsAccounted c.abort_closed discarding c refl refl (rw e refl) v
  select_drain-IsAccounted takes_queue c e v =
      receive-IsAccounted drain_received c.queue c (λ _. refl) (λ _. refl) refl (rw e refl) v
  select_drain-IsAccounted takes_drain c e v = v
  select_drain-IsAccounted takes_default c e v =
      moved_if-IsAccounted (is_empty c.queue && not c.abort_closed) finishing c refl refl
        (rw e refl) v

  discard_one-IsAccounted :
      (xs : List Item) (c : Core Item)
      → c.queue ≡ xs
      → c.writer ≡ discarding
      → IsAccounted c
      → IsAccounted (discard_one xs c)
  unfolding discard_one
  discard_one-IsAccounted [] c e w v = moved_if-IsAccounted true finishing c refl refl (rw w refl) v
  discard_one-IsAccounted (x ∷ xs) c e w v =
      receive-IsAccounted (λ _. discard_received) (x ∷ xs) c (λ _. refl) (λ _. refl) e (rw w refl) v

  write-IsAccounted :
      (k : Choice) (b : Bool) (w : Writer Item) (c : Core Item)
      → c.writer ≡ w
      → IsAccounted c
      → IsAccounted (write k b w c)
  unfolding write record_dequeue emit clear_reported_drops finish
  write-IsAccounted k b looping c e v = ground (arith, e)
  write-IsAccounted k b selecting c e v = select_run-IsAccounted k c e v
  write-IsAccounted k b (received item) c e v = ground (arith, e)
  write-IsAccounted k b (dequeued item) c e v = ground (arith, e)
  write-IsAccounted k b draining c e v = ground (arith, e)
  write-IsAccounted k b drain_selecting c e v = select_drain-IsAccounted k c e v
  write-IsAccounted k b (drain_received item) c e v = ground (arith, e)
  write-IsAccounted k b (emitting in_drain item pending) c e v = ground (arith, e)
  write-IsAccounted k b discarding c e v = discard_one-IsAccounted c.queue c refl e v
  write-IsAccounted k b discard_received c e v = ground (arith, e)
  write-IsAccounted k b finishing c e v = ground (arith, e)
  write-IsAccounted k b finished c e v = v

  step-IsAccounted : (c : Core Item) (e : Event Item) → IsAccounted c → IsAccounted (step c e)
  unfolding step
  step-IsAccounted c (handles item) v = handle-IsAccounted item c v
  step-IsAccounted c drains v = drain-IsAccounted c v
  step-IsAccounted c aborts v = abort-IsAccounted c v
  step-IsAccounted c (writes k b) v = write-IsAccounted k b c.writer c refl v

  -- Over any interleaving of calls of Handle, Abort and Shutdown's start with the writer's steps,
  -- a core in which IsAccounted holds keeps it: the queue holds at most 256 records, the depth
  -- counts the queue and a record in hand not yet taken off, the high-water mark is at least the
  -- depth and at most 257, and the drops about to be reported are at most the pending ones, those
  -- at most all.
  pub run-IsAccounted :
      (c : Core Item) (es : List (Event Item)) → IsAccounted c → IsAccounted (run c es)
  unfolding run
  run-IsAccounted c [] v = v
  run-IsAccounted c (e ∷ es) v = run-IsAccounted (step c e) es (step-IsAccounted c e v)
