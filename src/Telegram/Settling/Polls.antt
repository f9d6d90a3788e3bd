-- ===== src/Telegram/Settling/Polls.antt =====
-- A poll's response: when the loop goes on, each of its updates is settled.
use lofi_bot.Prelude.{ℕ, ◌+◌, ◌≤◌, ◌<◌, ◌≡◌, ◌⊎◌, inl, inr, sym, subst, arith, List, [], ◌∷◌, All}
use lofi_bot.Prelude.Text.{Text}
use lofi_bot.Journal.Rows.{Time, Result, ok, err}
use lofi_bot.Telegram.Poller.{
  UpdateJournal, Turn, Progress, continues, stops, Run, take_turn, take_turns, then_turns, Poll,
  poll_failed, poll_answered, after_confirm, poll_once,
}
use lofi_bot.Telegram.Contract.{View, Follows, IsJournal}
use lofi_bot.Telegram.Settling.Turns.{Taken, take_turn-Taken}

-- Telegram sends its updates with rising ids.
abbrev pub Increasing : ℕ → List Turn → Type 0
Increasing low [] = Unit {0}
Increasing low (t ∷ ts) = (low ≤ t.update_id) × Increasing (t.update_id + 1) ts

module _ {S : Type 0} (j : UpdateJournal S) (handler : Turn → S → S) (v : View S)
    (laws : IsJournal j handler v) (last_rune_width : Text → ℕ) (run : Run) where
  Follows-trans : {s s' s'' : S} → Follows v s s' → Follows v s' s'' → Follows v s s''
  Follows-trans a b = record { sound = b.sound; stays = λ i h. b.stays i (a.stays i h) }

  -- Before each poll the confirmed offset is not above the one that is asked for.
  abbrev pub Loops : S → S × Progress → Type 0
  Loops s (s', continues offset) = Follows v s s' × (v.confirmed s' ≤ offset)
  Loops s (s', stops e) = Follows v s s'

  pub Loops-trans : {s s' : S} (p : S × Progress) → Follows v s s' → Loops s' p → Loops s p
  Loops-trans (s'', continues offset) a b = (Follows-trans a b.0, b.1)
  Loops-trans (s'', stops e) a b = Follows-trans a b

  pub same_state : (s : S) → v.IsSound s → Follows v s s
  same_state s sound = record { sound = sound; stays = λ i h. h }

  pub take_turn-Loops :
      (t : Turn) (offset : ℕ) (s : S)
      → v.IsSound s
      → v.confirmed s ≤ offset
      → Loops s (take_turn j handler last_rune_width run t offset s)
  take_turn-Loops t offset s sound below =
      at (take_turn j handler last_rune_width run t offset s)
        (take_turn-Taken j handler v laws last_rune_width run t offset s sound)
    where
      at : (p : S × Progress) → Taken j handler v laws last_rune_width run t offset s p → Loops s p
      at p (inl (e, skipped)) = subst (Loops s) (sym e) (same_state s sound, below)
      at (s', continues next) (inr (ends, up)) = (ends.0.follows, omega (arith, ends.0.same, up))
      at (s', stops e) (inr (ends, up)) = ends.follows

  pub take_turns-Loops :
      (ts : List Turn) (offset : ℕ) (s : S)
      → v.IsSound s
      → v.confirmed s ≤ offset
      → Loops s (take_turns j handler last_rune_width run ts offset s)
  unfolding take_turns
  take_turns-Loops [] offset s sound below = (same_state s sound, below)
  take_turns-Loops (t ∷ ts) offset s sound below =
      at (take_turn j handler last_rune_width run t offset s)
        (take_turn-Loops t offset s sound below)
        (λ next s' sound' below'. take_turns-Loops ts next s' sound' below')
    where
      at :
          (p : S × Progress)
          → Loops s p
          → ((next : ℕ) (s' : S)
              → v.IsSound s'
              → v.confirmed s' ≤ next
              → Loops s' (take_turns j handler last_rune_width run ts next s'))
          → Loops s (
              then_turns j handler last_rune_width
                (λ next s'. take_turns j handler last_rune_width run ts next s')
                p)
      at (s', continues next) h rest = Loops-trans _ h.0 (rest next s' h.0.sound h.1)
      at (s', stops e) h rest = h

  pub confirm_law :
      (offset : ℕ) (now : Time) (s : S)
      → v.IsSound s
      → v.confirmed s ≤ offset
      → let s' = (j.confirm_offset offset now s).0 in Follows v s s' × (v.confirmed s' ≤ offset)
  confirm_law offset now s sound below =
      let law = laws.confirm_law offset now s sound in (law.0, omega (arith, law.1))

  pub poll_once-Loops :
      (p : Poll) (offset : ℕ) (s : S)
      → v.IsSound s
      → v.confirmed s ≤ offset
      → Loops s (poll_once j handler last_rune_width run p offset s)
  unfolding poll_once
  poll_once-Loops poll_failed offset s sound below = (same_state s sound, below)
  poll_once-Loops (poll_answered now ts) offset s sound below =
      at (j.confirm_offset offset now s) (confirm_law offset now s sound below)
    where
      at :
          (p : S × Result (Unit {0}))
          → Follows v s p.0 × (v.confirmed p.0 ≤ offset)
          → Loops s (after_confirm j handler last_rune_width run ts offset p)
      at (s', ok _) h = Loops-trans _ h.0 (take_turns-Loops ts offset s' h.0.sound h.1)
      at (s', err failure) h = h.0

  -- What a response leaves behind when the loop goes on.
  abbrev pub Answered : List Turn → ℕ → S × Progress → Type 0
  Answered ts offset (s', continues next) =
      All (λ t. (t.update_id < offset) ⊎ v.Settled s' t.update_id) ts
  Answered ts offset (s', stops e) = Unit {0}

  -- Ids that rise above an offset are not below it.
  only_settled :
      (bound low : ℕ) (ts : List Turn) (s : S)
      → bound ≤ low
      → Increasing low ts
      → All (λ t. (t.update_id < bound) ⊎ v.Settled s t.update_id) ts
      → (offset : ℕ) → All (λ t. (t.update_id < offset) ⊎ v.Settled s t.update_id) ts
  only_settled bound low [] s le rising h offset = tt
  only_settled bound low (t ∷ ts) s le (up, rising) (here, h) offset =
      (at here, only_settled bound (t.update_id + 1) ts s (omega arith) rising h offset)
    where
      at :
          (t.update_id < bound) ⊎ v.Settled s t.update_id
          → (t.update_id < offset) ⊎ v.Settled s t.update_id
      at (inl below) = absurd (omega (arith, below, up, le))
      at (inr settled) = inr settled

  take_turns-Answered :
      (ts : List Turn) (low offset : ℕ) (s : S)
      → v.IsSound s
      → v.confirmed s ≤ offset
      → Increasing low ts
      → Answered ts offset (take_turns j handler last_rune_width run ts offset s)
  unfolding take_turns
  take_turns-Answered [] low offset s sound below rising = tt
  take_turns-Answered (t ∷ ts) low offset s sound below (up, rising) =
      at (take_turn j handler last_rune_width run t offset s)
        (take_turn-Taken j handler v laws last_rune_width run t offset s sound)
        (take_turn-Loops t offset s sound below)
        (λ next s' sound' below'. (
          take_turns-Loops ts next s' sound' below',
          take_turns-Answered ts (t.update_id + 1) next s' sound' below' rising,
        ))
    where
      Rest : ℕ → S → S × Progress → Type 0
      Rest next s' p = Loops s' p × Answered ts next p

      skip :
          (p : S × Progress)
          → t.update_id < offset
          → Answered ts offset p
          → Answered (t ∷ ts) offset p
      skip (s'', continues next) h answered = (inl h, answered)
      skip (s'', stops e) h answered = tt

      settle :
          (next : ℕ) (s' : S) (p : S × Progress)
          → next ≡ t.update_id + 1
          → v.Settled s' t.update_id
          → Rest next s' p
          → Answered (t ∷ ts) offset p
      settle next s' (s'', continues last) e settled (loops, answered) = (
        inr (loops.0.stays t.update_id settled),
        only_settled next (t.update_id + 1) ts s'' (omega arith) rising answered offset,
      )
      settle next s' (s'', stops e') e settled rest = tt

      at :
          (p : S × Progress)
          → Taken j handler v laws last_rune_width run t offset s p
          → Loops s p
          → ((next : ℕ) (s' : S)
              → v.IsSound s'
              → v.confirmed s' ≤ next
              → Rest next s' (take_turns j handler last_rune_width run ts next s'))
          → Answered (t ∷ ts) offset (
              then_turns j handler last_rune_width
                (λ next s'. take_turns j handler last_rune_width run ts next s')
                p)
      at p (inl (e, skipped)) h rest =
          subst
            (λ p. Answered (t ∷ ts) offset (
              then_turns j handler last_rune_width
                (λ next s'. take_turns j handler last_rune_width run ts next s') p))
            (sym e)
            (skip (take_turns j handler last_rune_width run ts offset s) skipped
              (rest offset s sound below).1)
      at (s', continues next) (inr (ends, _)) h rest =
          settle next s' (take_turns j handler last_rune_width run ts next s') ends.1 ends.2
            (rest next s' h.0.sound h.1)
      at (s', stops e) (inr ends) h rest = tt

  pub poll_once-Answered :
      (now : Time) (ts : List Turn) (offset : ℕ) (s : S)
      → v.IsSound s
      → v.confirmed s ≤ offset
      → Increasing 0 ts
      → Answered ts offset (poll_once j handler last_rune_width run (poll_answered now ts) offset s)
  unfolding poll_once
  poll_once-Answered now ts offset s sound below rising =
      at (j.confirm_offset offset now s) (confirm_law offset now s sound below)
    where
      at :
          (p : S × Result (Unit {0}))
          → Follows v s p.0 × (v.confirmed p.0 ≤ offset)
          → Answered ts offset (after_confirm j handler last_rune_width run ts offset p)
      at (s', ok _) h = take_turns-Answered ts 0 offset s' h.0.sound h.1 rising
      at (s', err failure) h = tt
