-- ===== src/Telegram/Durable.antt =====
-- The store's update journal as the one that the service polls with.
use lofi_bot.Prelude.{
  ℕ, ◌≤◌, ◌<◌, ◌≡◌, ◌⊎◌, inl, inr, refl, arith, Option, none, some, Bool, true, max, ltb,
}
use lofi_bot.Prelude.Int.{ℤ, pos, pos_part}
use lofi_bot.Prelude.Text.{Text}
use lofi_bot.Journal.Rows.{Time, Checkpoint, Attempt, Db, Result, ok, err, transact, is_terminal}
use lofi_bot.Journal.Attempts.{
  Request, Begun, find_attempt, begin_tx, begin_update_attempt, complete_tx,
  complete_update_attempt, abort_checked, abort_update_attempt, fail_tx, fail_update_attempt,
}
use lofi_bot.Journal.Maintenance.{
  confirm_row, confirm_tx, confirm_update_offset, loaded, load_update_checkpoint, upkeep,
  reconcile_abandoned, prune_terminal,
}
use lofi_bot.Journal.Invariant.{Inv, confirmed_of, Kept, Returns, Returns-if}
use lofi_bot.Journal.Runs.{
  Call, begins, completes, aborts, fails, confirms, step, step-Kept, step-Stays, Stays,
}
use lofi_bot.Journal.Settled.{
  TerminalIn, SameConfirmed, SaysOver, SaysExecute, begin_tx-Reports, complete_tx-TerminalIn,
  fail_tx-EndsIf,
}
use lofi_bot.Telegram.Poller.{UpdateJournal}
use lofi_bot.Telegram.Contract.{View, Follows, FollowsUnconfirmed, IsJournal}

-- A fact about the tables and the result of a transaction.
of_transact :
    {A : Type 0} (P : Db → Type 0) (Q : A → Db → Type 0) (db : Db) (m : Result (A × Db))
    → P db
    → Returns (λ (p : A × Db). P p.1 × Q p.0 p.1) m
    → P (transact db m).0 × Returns (λ a. Q a (transact db m).0) (transact db m).1
of_transact P Q db (ok (a, db')) h k = k
of_transact P Q db (err e) h k = (h, tt)

map-Returns :
    {A : Type 0} (P Q : A → Type 0) (m : Result A)
    → ((a : A) → P a → Q a)
    → Returns P m
    → Returns Q m
map-Returns P Q (ok a) f h = f a h
map-Returns P Q (err e) f h = tt

module _ (julianday : Time → ℕ) where
  unfoldable pub store_journal : UpdateJournal Db
  store_journal = record {
    load_checkpoint = load_update_checkpoint;
    confirm_offset = λ offset now db. confirm_update_offset julianday (pos offset) now db;
    begin_attempt = begin_update_attempt;
    complete_attempt =
        λ id next token now db. complete_update_attempt (pos id) (pos next) token now db;
    abort_attempt = λ id token now db. abort_update_attempt (pos id) token now db;
    fail_attempt = λ id next token most cause hold now db.
        fail_update_attempt (pos id) (pos next) token (pos most) cause hold now db;
  }

  -- Settled for good: done or dead, or below the offset that Telegram was told.
  abbrev pub IsSettled : Db → ℕ → Type 0
  IsSettled db i = TerminalIn db i ⊎ (i < confirmed_of db.checkpoint)

  abbrev pub store_view : View Db
  store_view = record {
    IsSound = Inv;
    Settled = IsSettled;
    confirmed = λ db. confirmed_of db.checkpoint;
  }

  Kept-Follows : (db db' : Db) → Kept db db' → Stays julianday db db' → Follows store_view db db'
  Kept-Follows db db' kept stays = record {
    sound = kept.0;
    stays = λ i settled. elim settled [
      | inr below ↦ inr (omega (arith, below, kept.1))
      | inl (r, found, over) ↦ still r over (stays i r found over)
    ];
  }
    where
      still :
          {i : ℕ} (r : Attempt)
          → is_terminal r.status ≡ true
          → (find_attempt db' i ≡ some r) ⊎ (i < confirmed_of db'.checkpoint)
          → IsSettled db' i
      still r over (inl found) = inl (r, found, over)
      still r over (inr below) = inr below

  begin_Reports :
      (q : Request) (now : Time) (db : Db)
      → Inv db
      → let p = begin_update_attempt q now db in
        SameConfirmed db p.0
        × Returns
            (λ (b : Begun).
              (SaysOver b.disposition → TerminalIn p.0 (pos_part q.update_id))
              × (SaysExecute b.disposition → TerminalIn db (pos_part q.update_id) → ⊥))
            p.1
  unfolding begin_update_attempt
  begin_Reports q now db v =
      of_transact (SameConfirmed db)
        (λ (b : Begun) (db' : Db).
          (SaysOver b.disposition → TerminalIn db' (pos_part q.update_id))
          × (SaysExecute b.disposition → TerminalIn db (pos_part q.update_id) → ⊥))
        db (begin_tx q now db) refl
        (map-Returns _ _ (begin_tx q now db) (λ (p : Begun × Db) h. (h.2, (h.0, h.1)))
          (begin_tx-Reports db v.rows.distinct q now))

  complete_Reports :
      (u n : ℤ) (token : Text) (now : Time) (db : Db)
      → Inv db
      → let p = complete_update_attempt u n token now db in
        SameConfirmed db p.0 × Returns (λ _. TerminalIn p.0 (pos_part u)) p.1
  unfolding complete_update_attempt
  complete_Reports u n token now db v =
      of_transact (SameConfirmed db) (λ _ (db' : Db). TerminalIn db' (pos_part u)) db
        (complete_tx u n token now db) refl
        (map-Returns _ _ (complete_tx u n token now db) (λ (p : Unit {0} × Db) h. (h.1, h.0))
          (complete_tx-TerminalIn db v.rows.distinct u n token now))

  fail_Reports :
      (u n : ℤ) (token : Text) (most : ℤ) (cause : Text) (hold : Option Time) (now : Time) (db : Db)
      → Inv db
      → let p = fail_update_attempt u n token most cause hold now db in
        SameConfirmed db p.0 × Returns (λ dead. dead ≡ true → TerminalIn p.0 (pos_part u)) p.1
  unfolding fail_update_attempt
  fail_Reports u n token most cause hold now db v =
      of_transact (SameConfirmed db)
        (λ (dead : Bool) (db' : Db). dead ≡ true → TerminalIn db' (pos_part u)) db
        (fail_tx u n token most cause hold now db) refl
        (map-Returns _ _ (fail_tx u n token most cause hold now db)
          (λ (p : Bool × Db) h. (h.1, h.0))
          (fail_tx-EndsIf db v.rows.distinct u n token most cause hold now))

  abort_confirmed :
      (id : ℕ) (token : Text) (now : Time) (db : Db)
      → SameConfirmed db (abort_update_attempt (pos id) token now db).0
  unfolding abort_update_attempt abort_checked
  abort_confirmed id token now db = ground arith

  confirm_bound :
      (offset : ℕ) (now : Time) (db : Db)
      → confirmed_of (confirm_update_offset julianday (pos offset) now db).0.checkpoint
        ≤ max (confirmed_of db.checkpoint) offset
  unfolding confirm_update_offset confirm_row upkeep prune_terminal reconcile_abandoned
  confirm_bound offset now db = go db.checkpoint refl
    where
      go :
          (c : Option Checkpoint)
          → db.checkpoint ≡ c
          → confirmed_of (transact db (confirm_tx julianday (pos offset) now c db)).0.checkpoint
            ≤ max (confirmed_of db.checkpoint) offset
      go none e = omega arith
      go (some c) e = ground (arith, e)

  load_Reports :
      (db : Db)
      → Returns (λ (p : ℕ × ℕ). p.1 ≡ confirmed_of db.checkpoint) (load_update_checkpoint db)
  unfolding load_update_checkpoint loaded
  load_Reports db = go db.checkpoint
    where
      go : (c : Option Checkpoint) → Returns (λ (p : ℕ × ℕ). p.1 ≡ confirmed_of c) (loaded c)
      go none = tt
      go (some c) = Returns-if _ (ltb c.next_offset c.confirmed_offset) _ _ (λ _. tt) (λ _. refl)

  still : (db : Db) (c : Time × Call) → Inv db → Follows store_view db (step julianday db c)
  still db c v =
      Kept-Follows db (step julianday db c) (step-Kept julianday db c v)
        (step-Stays julianday db c v)

  unconfirmed :
      (db db' : Db)
      → Follows store_view db db'
      → SameConfirmed db db'
      → FollowsUnconfirmed store_view db db'
  unconfirmed db db' follows same = record { follows = follows; same = omega (arith, same) }

  -- The laws of a journal hold of the store.
  pub store_journal-IsJournal : IsJournal store_journal (λ t db. db) store_view
  unfolding step store_journal load_update_checkpoint
  store_journal-IsJournal = record {
    load_law = load_Reports;
    confirm_law =
        λ offset now db v. (still db (now, confirms (pos offset)) v, confirm_bound offset now db);
    begin_law =
        λ q now db v. unconfirmed _ _ (still db (now, begins q) v) (begin_Reports q now db v).0;
    begin_over = λ q now db v.
        map-Returns _ _ (begin_update_attempt q now db).1 (λ b h over. inl (h.0 over))
          (begin_Reports q now db v).1;
    begin_open = λ q now db v open_ settled.
        map-Returns _ _ (begin_update_attempt q now db).1
          (λ b h executes. elim settled [
            | inl over ↦ h.1 executes over
            | inr below ↦ omega (arith, below, open_)
          ])
          (begin_Reports q now db v).1;
    complete_law = λ id next token now db v. (
      unconfirmed _ _ (still db (now, completes (pos id) (pos next) token) v)
          (complete_Reports (pos id) (pos next) token now db v).0,
      map-Returns _ _ (complete_update_attempt (pos id) (pos next) token now db).1 (λ _ h. inl h)
          (complete_Reports (pos id) (pos next) token now db v).1,
    );
    abort_law = λ id token now db v.
        unconfirmed _ _ (still db (now, aborts (pos id) token) v) (abort_confirmed id token now db);
    fail_law = λ id next token most cause hold now db v. (
      unconfirmed _ _ (still db (now, fails (pos id) (pos next) token (pos most) cause hold) v)
          (fail_Reports (pos id) (pos next) token (pos most) cause hold now db v).0,
      map-Returns _ _ (fail_update_attempt (pos id) (pos next) token (pos most) cause hold now db).1
          (λ dead h is_dead. inl (h is_dead))
          (fail_Reports (pos id) (pos next) token (pos most) cause hold now db v).1,
    );
    handler_law = λ t db v. unconfirmed db db (record { sound = v; stays = λ i h. h }) refl;
  }
