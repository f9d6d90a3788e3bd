-- ===== src/AsyncLog/Draining.antt =====
-- Shutdown: the writer empties the queue, record by record, and finishes.
use lofi_bot.Prelude.{
  ℕ, ◌+◌, ◌≡◌, refl, ap, sym, subst, inl, inr, Bool-cases, ◌-◌, ◌∙◌, arith, Bool, true, false, List,
  [], ◌∷◌, ltb, if◌then◌else◌, length,
}
use lofi_bot.AsyncLog.Core.{
  State, state_open, state_draining, state_stopped, is_stopped_state, Writer, draining, finished,
  Core, emitting, takes_queue, takes_default, Event, writes, record_dequeue, clear_reported_drops,
  emit, finish, select_drain, write, step, run,
}

-- How often the sink fails.
pub failures_of : List Bool → ℕ
failures_of [] = 0
failures_of (b ∷ bs) = let rest = failures_of bs in if b then rest + 1 else rest

module _ {Item : Type 0} where
  -- The writer takes a record, and the sink fails for it or not.
  one_record : Bool → List (Event Item) → List (Event Item)
  one_record sink_failed rest =
      writes takes_default false
      ∷ writes takes_queue false
      ∷ writes takes_default false
      ∷ writes takes_default sink_failed
      ∷ rest

  -- The steps of the writer for the results of the sink, one for each record of the queue.
  pub drain_steps : List Bool → List (Event Item)
  unfolding one_record
  drain_steps [] =
      writes takes_default false ∷ writes takes_default false ∷ writes takes_default false ∷ []
  drain_steps (b ∷ bs) = one_record b (drain_steps bs)

  -- The writer is in `drainQueue`, and nobody has called Abort.
  pub record IsDraining (c : Core Item) : Type 0 where
    pub at_drain : c.writer ≡ draining
    pub not_stopped : is_stopped_state c.state ≡ false
    pub not_aborted : c.abort_closed ≡ false

  -- The writer has finished, with nothing left, and waiters of Shutdown are released.
  pub record IsDrained (errors : ℕ) (c : Core Item) : Type 0 where
    pub at_end : c.writer ≡ finished
    pub emptied : c.queue ≡ []
    pub released : c.done_closed ≡ true
    pub stopped : is_stopped_state c.state ≡ true
    pub counted : c.sink_errors ≡ errors

  -- A core whose writer is in `drainQueue`.
  core_at : State → List Item → Bool → Bool → ℕ → ℕ → ℕ → ℕ → ℕ → Core Item
  core_at s q d r t p e n h = record {
    state = s;
    queue = q;
    writer = draining;
    drain_closed = d;
    abort_closed = false;
    done_closed = r;
    total_drops = t;
    pending_drops = p;
    sink_errors = e;
    depth = n;
    high_water = h;
  }

  emit_lem :
      (b : Bool) (s : State) (q : List Item) (w : Writer Item) (d r : Bool) (t p e n h : ℕ)
      → (p' : ℕ) × (emit b true p (record (core_at s q d r t p e n h) { writer = w })
          ≡ core_at s q d r t p' (if b then e + 1 else e) n h)
  unfolding emit core_at clear_reported_drops
  emit_lem true s q w d r t p e n h = (p, refl)
  emit_lem false s q w d r t p e n h = elim (Bool-cases (ltb 0 p)) [
    | inl some_drops ↦
        (p - p, let same : ltb p p ≡ false = ground arith in rw (some_drops, same) refl)
    | inr no_drops ↦ (p, rw no_drops refl)
  ]

  one_record_lem :
      (b : Bool) (s : State) (x : Item) (xs : List Item) (d r : Bool) (t p e n h : ℕ)
      (rest : List (Event Item))
      → is_stopped_state s ≡ false
      → run (core_at s (x ∷ xs) d r t p e n h) (one_record b rest)
        ≡ run
            (emit b true p
              (record (core_at s xs d r t p e (n - 1) h) { writer = emitting true x p }))
            rest
  unfolding run step write one_record core_at select_drain record_dequeue
  one_record_lem b state_open x xs d r t p e n h rest live = refl
  one_record_lem b state_draining x xs d r t p e n h rest live = refl
  one_record_lem b state_stopped x xs d r t p e n h rest live = absurd (clash live)
    where
      clash : true ≡ false → ⊥
      clash k = cc

  nothing_left :
      (s : State) (d r : Bool) (t p e n h : ℕ)
      → is_stopped_state s ≡ false
      → IsDrained (e + 0) (run (core_at s [] d r t p e n h) (drain_steps []))
  unfolding run step write drain_steps core_at select_drain finish
  nothing_left state_open d r t p e n h live = record {
    at_end = refl;
    emptied = refl;
    released = refl;
    stopped = refl;
    counted = omega arith;
  }
  nothing_left state_draining d r t p e n h live = record {
    at_end = refl;
    emptied = refl;
    released = refl;
    stopped = refl;
    counted = omega arith;
  }
  nothing_left state_stopped d r t p e n h live = absurd (clash live)
    where
      clash : true ≡ false → ⊥
      clash k = cc

  drained :
      (bs : List Bool) (s : State) (q : List Item) (d r : Bool) (t p e n h : ℕ)
      → length bs ≡ length q
      → is_stopped_state s ≡ false
      → IsDrained (e + failures_of bs) (run (core_at s q d r t p e n h) (drain_steps bs))
  unfolding drain_steps failures_of
  drained [] s [] d r t p e n h same live = nothing_left s d r t p e n h live
  drained [] s (x ∷ xs) d r t p e n h same live = absurd (omega (arith, same))
  drained (b ∷ bs) s [] d r t p e n h same live = absurd (omega (arith, same))
  drained (b ∷ bs) s (x ∷ xs) d r t p e n h same live =
      let (p', emitted) = emit_lem b s xs (emitting true x p) d r t p e (n - 1) h in
      let rest =
        drained bs s xs d r t p' (if b then e + 1 else e) (n - 1) h (omega (arith, same)) live in
      rw (one_record_lem b s x xs d r t p e n h (drain_steps bs) live, emitted)
        (subst
          (λ k.
            IsDrained k
              (run (core_at s xs d r t p' (if b then e + 1 else e) (n - 1) h) (drain_steps bs)))
          (ground arith) rest)

  -- From a core whose writer stands in the drain loop, not stopped and not aborted, four steps of
  -- the writer for each queued record and three more, whatever the sink returns for each, end with
  -- the writer finished, the queue empty, the core stopped, the waiters of Shutdown released, and
  -- each failure of the sink counted.
  pub run-IsDrained :
      (c : Core Item) (bs : List Bool)
      → IsDraining c
      → length bs ≡ length c.queue
      → IsDrained (c.sink_errors + failures_of bs) (run c (drain_steps bs))
  unfolding core_at
  run-IsDrained c bs v same =
      subst (λ k. IsDrained (c.sink_errors + failures_of bs) (run k (drain_steps bs))) (sym at_core)
        done
    where
      with_parts : Writer Item → Bool → Core Item
      with_parts w a = record c { writer = w; abort_closed = a }

      at_core : c ≡ with_parts draining false
      at_core =
          ap (λ w. with_parts w c.abort_closed) v.at_drain ∙ ap (with_parts draining) v.not_aborted

      done :
          IsDrained
            (c.sink_errors + failures_of bs)
            (run (with_parts draining false) (drain_steps bs))
      done =
          drained bs c.state c.queue c.drain_closed c.done_closed c.total_drops c.pending_drops
            c.sink_errors c.depth c.high_water same v.not_stopped
