-- ===== src/Telegram/Contract.antt =====
-- What the polling loop relies on of a journal and of the handlers.
use lofi_bot.Prelude.{ℕ, ◌≤◌, ◌≡◌, max, Option, true}
use lofi_bot.Prelude.Int.{pos_part}
use lofi_bot.Prelude.Text.{Text}
use lofi_bot.Journal.Rows.{Time}
use lofi_bot.Journal.Attempts.{Request, Begun}
use lofi_bot.Journal.Invariant.{Returns}
use lofi_bot.Journal.Settled.{SaysOver, SaysExecute}
use lofi_bot.Telegram.Poller.{UpdateJournal, Turn}

-- How a journal is seen: when it is sound, which updates are settled for good, and the offset up to
-- which Telegram has been told.
pub record View (S : Type 0) : Type 1 where
  pub IsSound : S → Type 0
  pub Settled : S → ℕ → Type 0
  pub confirmed : S → ℕ

module _ {S : Type 0} (v : View S) where
  -- A state after another: still sound, and what was settled stays settled.
  pub record Follows (s s' : S) : Type 0 where
    pub sound : v.IsSound s'
    pub stays : (i : ℕ) → v.Settled s i → v.Settled s' i

  -- No operation but a confirmation raises the confirmed offset.
  pub record FollowsUnconfirmed (s s' : S) : Type 0 where
    pub follows : Follows s s'
    pub same : v.confirmed s' ≤ v.confirmed s

-- An operation may fail at any time, also after it has taken effect; the laws speak of successes.
pub record IsJournal {S : Type 0} (j : UpdateJournal S) (handler : Turn → S → S) (v : View S)
    : Type 0 where
  pub load_law : (s : S) → Returns (λ (p : ℕ × ℕ). p.1 ≡ v.confirmed s) (j.load_checkpoint s)
  pub confirm_law :
      (offset : ℕ) (now : Time) (s : S)
      → v.IsSound s
      → Follows v s (j.confirm_offset offset now s).0
        × (v.confirmed (j.confirm_offset offset now s).0 ≤ max (v.confirmed s) offset)
  pub begin_law :
      (q : Request) (now : Time) (s : S)
      → v.IsSound s
      → FollowsUnconfirmed v s (j.begin_attempt q now s).0
  pub begin_over :
      (q : Request) (now : Time) (s : S)
      → v.IsSound s
      → Returns
          (λ (b : Begun).
            SaysOver b.disposition → v.Settled (j.begin_attempt q now s).0 (pos_part q.update_id))
          (j.begin_attempt q now s).1
  pub begin_open :
      (q : Request) (now : Time) (s : S)
      → v.IsSound s
      → v.confirmed s ≤ pos_part q.update_id
      → v.Settled s (pos_part q.update_id)
      → Returns (λ (b : Begun). SaysExecute b.disposition → ⊥) (j.begin_attempt q now s).1
  pub complete_law :
      (id next : ℕ) (token : Text) (now : Time) (s : S)
      → v.IsSound s
      → FollowsUnconfirmed v s (j.complete_attempt id next token now s).0
        × Returns
            (λ _. v.Settled (j.complete_attempt id next token now s).0 id)
            (j.complete_attempt id next token now s).1
  pub abort_law :
      (id : ℕ) (token : Text) (now : Time) (s : S)
      → v.IsSound s
      → FollowsUnconfirmed v s (j.abort_attempt id token now s).0
  pub fail_law :
      (id next : ℕ) (token : Text) (most : ℕ) (cause : Text) (hold : Option Time) (now : Time)
      (s : S)
      → v.IsSound s
      → FollowsUnconfirmed v s (j.fail_attempt id next token most cause hold now s).0
        × Returns
            (λ dead.
              dead ≡ true → v.Settled (j.fail_attempt id next token most cause hold now s).0 id)
            (j.fail_attempt id next token most cause hold now s).1
  -- A handler does not write to the journal.
  pub handler_law : (t : Turn) (s : S) → v.IsSound s → FollowsUnconfirmed v s (handler t s)
