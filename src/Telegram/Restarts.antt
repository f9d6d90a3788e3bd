-- ===== src/Telegram/Restarts.antt =====
-- The polling service over the store's journal, across polls and restarts, with handlers that change
-- whatever is not in the journal's tables.
use lofi_bot.Prelude.{ℕ, ◌≤◌, ◌≡◌, ◌≢◌, List}
use lofi_bot.Prelude.Text.{Text}
use lofi_bot.Journal.Rows.{Time, Db}
use lofi_bot.Journal.Invariant.{Inv, confirmed_of}
use lofi_bot.Telegram.Poller.{UpdateJournal, Turn, Run, poll_answered, poll_once}
use lofi_bot.Telegram.Contract.{View, IsJournal}
use lofi_bot.Telegram.Settling.{Increasing, Answered, poll_once-Answered, Life, lives}
use lofi_bot.Telegram.World.{beside, acting, beside_view, beside-IsJournal}
use lofi_bot.Telegram.Unhandled.{lives_seen}
use lofi_bot.Telegram.Durable.{store_journal, store_journal-IsJournal, store_view, IsSettled}

module _ (julianday : Time → ℕ) (last_rune_width : Text → ℕ) {World : Type 0}
    (act : Turn → World → World) where
  -- The store's journal beside the world, its laws, and how it is seen.
  abbrev pub service_journal : UpdateJournal (Db × World)
  service_journal = beside World (store_journal julianday)

  abbrev pub service_view : View (Db × World)
  service_view = beside_view World (store_view julianday)

  pub service_journal-IsJournal : IsJournal service_journal (acting World act) service_view
  service_journal-IsJournal =
      beside-IsJournal World (store_view julianday) (store_journal julianday) (λ t db. db) act
        (store_journal-IsJournal julianday)

  -- Over the store's journal, with any julianday and rune widths, and handlers that do what they
  -- may beside the journal: when the confirmed offset of a sound journal is not above the offset
  -- that a poll asks for, and the response's ids rise, then, if the loop goes on after the
  -- response, each of its updates that is not below that offset is settled (its row is done or
  -- dead, or lies below the confirmed offset), whatever its handler did.
  pub store_journal-Answered :
      (run : Run) (now : Time) (ts : List Turn) (offset : ℕ) (db : Db) (world : World)
      → Inv db
      → confirmed_of db.checkpoint ≤ offset
      → Increasing 0 ts
      → Answered service_journal
          (acting World act)
          service_view
          service_journal-IsJournal
          last_rune_width
          run
          ts
          offset
          (poll_once service_journal
            (acting World act)
            last_rune_width
            run
            (poll_answered now ts)
            offset
            (db, world))
  store_journal-Answered run now ts offset db world =
      poll_once-Answered service_journal (acting World act) service_view service_journal-IsJournal
        last_rune_width run now ts offset (db, world)

  -- Over the store's journal, with any julianday and rune widths, and handlers that do what they
  -- may beside the journal: once an update of a sound journal is settled, whatever of the world no
  -- handler of another update changes (such as the number of this update's runs in a log of all
  -- runs) is left as it is by any sequence of later lives of the service, so its handler is not
  -- run again.
  pub settled_unhandled :
      {A : Type 0} (seen : World → A) (i : ℕ)
      → ((t : Turn) (w : World) → t.update_id ≢ i → seen (act t w) ≡ seen w)
      → (later : List Life) (db : Db) (world : World) → Inv db
      → IsSettled julianday db i
      → seen (lives service_journal (acting World act) last_rune_width later (db, world)).1
        ≡ seen world
  settled_unhandled seen i others later db world sound settled =
      lives_seen (store_journal julianday) (λ t db. db) (store_view julianday)
        (store_journal-IsJournal julianday) World act last_rune_width seen i others later
        (db, world) sound settled
