-- ===== src/Telegram/Settling/Lives.antt =====
-- Several lives of the service, one after the other.
use lofi_bot.Prelude.{
  ℕ, ◌≤◌, ◌≡◌, refl, arith, List, [], ◌∷◌, Bool, true, false, ltb, if◌then◌else◌,
}
use lofi_bot.Prelude.Text.{Text}
use lofi_bot.Journal.Rows.{Result, ok, err}
use lofi_bot.Journal.Invariant.{Returns}
use lofi_bot.Telegram.Poller.{
  UpdateJournal, Turn, Progress, continues, stops, stop_checkpoint, Run, Poll, poll_once, poll_all,
  then_turns, after_load, run_service,
}
use lofi_bot.Telegram.Contract.{View, Follows, IsJournal}
use lofi_bot.Telegram.Settling.Polls.{Loops, Loops-trans, same_state, poll_once-Loops}

-- A life: the configuration that the service started with, and its polls.
abbrev pub Life : Type 0
Life = Run × List Poll

-- The state after the lives, each of which finds what the one before left.
unfoldable pub lives :
    {S : Type 0} → UpdateJournal S → (Turn → S → S) → (Text → ℕ) → List Life → S → S
unfolding run_service
lives j handler last_rune_width [] s = s
lives j handler last_rune_width (life ∷ later) s =
    lives j handler last_rune_width later (run_service j handler last_rune_width life.0 life.1 s).0

module _ {S : Type 0} (j : UpdateJournal S) (handler : Turn → S → S) (v : View S)
    (laws : IsJournal j handler v) (last_rune_width : Text → ℕ) where
  poll_all-Loops :
      (run : Run) (ps : List Poll) (offset : ℕ) (s : S)
      → v.IsSound s
      → v.confirmed s ≤ offset
      → Loops j handler v laws last_rune_width run s
          (poll_all j handler last_rune_width run ps offset s)
  unfolding poll_all
  poll_all-Loops run [] offset s sound below =
      (same_state j handler v laws last_rune_width run s sound, below)
  poll_all-Loops run (p ∷ ps) offset s sound below =
      at (poll_once j handler last_rune_width run p offset s)
        (poll_once-Loops j handler v laws last_rune_width run p offset s sound below)
        (λ next s' sound' below'. poll_all-Loops run ps next s' sound' below')
    where
      at :
          (p : S × Progress)
          → Loops j handler v laws last_rune_width run s p
          → ((next : ℕ) (s' : S)
              → v.IsSound s'
              → v.confirmed s' ≤ next
              → Loops j handler v laws last_rune_width run s'
                  (poll_all j handler last_rune_width run ps next s'))
          → Loops j handler v laws last_rune_width run s (
              then_turns j handler last_rune_width
                (λ next s'. poll_all j handler last_rune_width run ps next s')
                p)
      at (s', continues next) h rest =
          Loops-trans j handler v laws last_rune_width run _ h.0 (rest next s' h.0.sound h.1)
      at (s', stops e) h rest = h

  of_Loops :
      (run : Run) (s : S) (p : S × Progress)
      → Loops j handler v laws last_rune_width run s p
      → Follows v s p.0
  of_Loops run s (s', continues offset) h = h.0
  of_Loops run s (s', stops e) h = h

  pub run_service-Follows :
      (run : Run) (ps : List Poll) (s : S)
      → v.IsSound s
      → Follows v s (run_service j handler last_rune_width run ps s).0
  unfolding run_service
  run_service-Follows run ps s sound = at (j.load_checkpoint s) (laws.load_law s)
    where
      polled :
          (next : ℕ) (b : Bool)
          → (b ≡ false → v.confirmed s ≤ next)
          → Follows v s
              (if b
                then (s, stops stop_checkpoint)
                else poll_all j handler last_rune_width run ps next s).0
      polled next true h = same_state j handler v laws last_rune_width run s sound
      polled next false h =
          of_Loops run s (poll_all j handler last_rune_width run ps next s)
            (poll_all-Loops run ps next s sound (h refl))

      at :
          (r : Result (ℕ × ℕ))
          → Returns (λ (p : ℕ × ℕ). p.1 ≡ v.confirmed s) r
          → Follows v s (after_load j handler last_rune_width run ps s r).0
      at (ok (next, confirmed)) h = polled next (ltb next confirmed) (λ e. ground (arith, h, e))
      at (err failure) h = same_state j handler v laws last_rune_width run s sound

  pub lives-Follows :
      (later : List Life) (s : S)
      → v.IsSound s
      → Follows v s (lives j handler last_rune_width later s)
  unfolding lives
  lives-Follows [] s sound = record { sound = sound; stays = λ i h. h }
  lives-Follows (life ∷ later) s sound =
      let first = run_service-Follows life.0 life.1 s sound in
      let rest =
        lives-Follows later (run_service j handler last_rune_width life.0 life.1 s).0 first.sound in
      record { sound = rest.sound; stays = λ i h. rest.stays i (first.stays i h) }
