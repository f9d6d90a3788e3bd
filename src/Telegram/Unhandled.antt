-- ===== src/Telegram/Unhandled.antt =====
-- What the turns of a settled update leave of the world that handlers change.
use lofi_bot.Prelude.{
  ℕ, ◌≤◌, ◌≡◌, ◌≢◌, refl, sym, subst, ◌∙◌, arith, List, [], ◌∷◌, Bool, true, false, ltb,
  if◌then◌else◌,
}
use lofi_bot.Prelude.Text.{Text}
use lofi_bot.Journal.Rows.{Result, ok, err}
use lofi_bot.Journal.Attempts.{Begun, Disposition, execute, already_terminal, busy, poisoned}
use lofi_bot.Journal.Invariant.{Returns}
use lofi_bot.Journal.Settled.{SaysExecute}
use lofi_bot.Telegram.Poller.{
  UpdateJournal, Turn, Progress, continues, stops, stop_cancelled, stop_checkpoint, Run, Poll,
  poll_failed, poll_answered, request_of, on_disposition, after_begin, take_turn, take_turns,
  then_turns, after_confirm, poll_once, poll_all, after_load, run_service,
}
use lofi_bot.Telegram.Contract.{View, IsJournal}
use lofi_bot.Telegram.Settling.{
  Loops, take_turn-Loops, confirm_law, poll_once-Loops, Life, lives, run_service-Follows,
}
use lofi_bot.Telegram.Effects.{execute_turn_world}
use lofi_bot.Telegram.World.{beside, acting, beside_view, beside-IsJournal}

module _ {S : Type 0} (j : UpdateJournal S) (quiet : Turn → S → S) (v : View S)
    (laws : IsJournal j quiet v) (World : Type 0) (act : Turn → World → World)
    (last_rune_width : Text → ℕ) {A : Type 0} (seen : World → A) (i : ℕ)
    (others : (t : Turn) (w : World) → t.update_id ≢ i → seen (act t w) ≡ seen w) where
  abbrev journal : UpdateJournal (S × World)
  journal = beside World j

  abbrev handler : Turn → S × World → S × World
  handler = acting World act

  abbrev view : View (S × World)
  view = beside_view World v

  journal_laws : IsJournal journal handler view
  journal_laws = beside-IsJournal World v j quiet act laws

  on_disposition_seen :
      (run : Run) (t : Turn) (d : Disposition) (s : S × World)
      → (t.update_id ≡ i → SaysExecute d → ⊥)
      → seen (on_disposition journal handler last_rune_width run t d s).0.1 ≡ seen s.1
  on_disposition_seen run t already_terminal s never = refl
  on_disposition_seen run t poisoned s never = refl
  on_disposition_seen run t busy s never = refl
  on_disposition_seen run t execute s never =
      subst (λ w. seen w ≡ seen s.1) (sym (execute_turn_world j World act last_rune_width run t s))
        (others t s.1 (λ e. never e tt))

  begun_seen :
      (run : Run) (t : Turn) (s : S × World)
      → view.IsSound s
      → view.Settled s i
      → (t.update_id ≡ i → view.confirmed s ≤ t.update_id)
      → seen
          (after_begin journal handler last_rune_width run t
            (journal.begin_attempt (request_of run t) t.begun_at s)).0.1
        ≡ seen s.1
  unfolding request_of
  begun_seen run t s sound settled below =
      at (journal.begin_attempt (request_of run t) t.begun_at s) (λ same.
        laws.begin_open (request_of run t) t.begun_at s.0 sound (below same)
          (subst (view.Settled s) (sym same) settled))
    where
      at :
          (p : (S × World) × Result Begun)
          → (t.update_id ≡ i → Returns (λ (b : Begun). SaysExecute b.disposition → ⊥) p.1)
          → seen (after_begin journal handler last_rune_width run t p).0.1 ≡ seen p.0.1
      at (s', err failure) never = refl
      at (s', ok b) never = on_disposition_seen run t b.disposition s' never

  take_turn_seen :
      (run : Run) (t : Turn) (offset : ℕ) (s : S × World)
      → view.IsSound s
      → view.Settled s i
      → view.confirmed s ≤ offset
      → seen (take_turn journal handler last_rune_width run t offset s).0.1 ≡ seen s.1
  unfolding take_turn
  take_turn_seen run t offset s sound settled below =
      at t.cancelled_before (ltb t.update_id offset) refl
    where
      begun : (S × World) × Progress
      begun =
          after_begin journal handler last_rune_width run t
            (journal.begin_attempt (request_of run t) t.begun_at s)

      Seen : (S × World) × Progress → Type 0
      Seen p = seen p.0.1 ≡ seen s.1

      at :
          (a b : Bool)
          → ltb t.update_id offset ≡ b
          → Seen
              (if a then (s, stops stop_cancelled) else if b then (s, continues offset) else begun)
      at true b e = refl
      at false true e = refl
      at false false e = begun_seen run t s sound settled (λ same. ground (arith, e, below))

  -- If one step leaves what is seen as it is, and the rest does from whatever the step leaves, then
  -- so do both.
  then_turns_seen :
      (run : Run) (rest : ℕ → S × World → (S × World) × Progress) (s : S × World)
      (p : (S × World) × Progress)
      → Loops journal handler view journal_laws last_rune_width run s p
      → view.Settled s i
      → seen p.0.1 ≡ seen s.1
      → ((next : ℕ) (s' : S × World)
          → view.IsSound s'
          → view.Settled s' i
          → view.confirmed s' ≤ next
          → seen (rest next s').0.1 ≡ seen s'.1)
      → seen (then_turns journal handler last_rune_width rest p).0.1 ≡ seen s.1
  then_turns_seen run rest s (s', continues next) h settled same later =
      later next s' h.0.sound (h.0.stays i settled) h.1 ∙ same
  then_turns_seen run rest s (s', stops e) h settled same later = same

  take_turns_seen :
      (run : Run) (ts : List Turn) (offset : ℕ) (s : S × World)
      → view.IsSound s
      → view.Settled s i
      → view.confirmed s ≤ offset
      → seen (take_turns journal handler last_rune_width run ts offset s).0.1 ≡ seen s.1
  unfolding take_turns
  take_turns_seen run [] offset s sound settled below = refl
  take_turns_seen run (t ∷ ts) offset s sound settled below =
      then_turns_seen run (λ next s'. take_turns journal handler last_rune_width run ts next s') s
        (take_turn journal handler last_rune_width run t offset s)
        (take_turn-Loops journal handler view journal_laws last_rune_width run t offset s sound
          below)
        settled (take_turn_seen run t offset s sound settled below)
        (λ next s' sound' settled' below'. take_turns_seen run ts next s' sound' settled' below')

  poll_once_seen :
      (run : Run) (p : Poll) (offset : ℕ) (s : S × World)
      → view.IsSound s
      → view.Settled s i
      → view.confirmed s ≤ offset
      → seen (poll_once journal handler last_rune_width run p offset s).0.1 ≡ seen s.1
  unfolding poll_once
  poll_once_seen run poll_failed offset s sound settled below = refl
  poll_once_seen run (poll_answered now ts) offset s sound settled below =
      let told =
        confirm_law journal handler view journal_laws last_rune_width run offset now s sound
          below in
      at (journal.confirm_offset offset now s) told.0.sound (told.0.stays i settled) told.1
    where
      at :
          (p : (S × World) × Result (Unit {0}))
          → view.IsSound p.0
          → view.Settled p.0 i
          → view.confirmed p.0 ≤ offset
          → seen (after_confirm journal handler last_rune_width run ts offset p).0.1 ≡ seen p.0.1
      at (s', ok _) sound' settled' below' = take_turns_seen run ts offset s' sound' settled' below'
      at (s', err failure) sound' settled' below' = refl

  poll_all_seen :
      (run : Run) (ps : List Poll) (offset : ℕ) (s : S × World)
      → view.IsSound s
      → view.Settled s i
      → view.confirmed s ≤ offset
      → seen (poll_all journal handler last_rune_width run ps offset s).0.1 ≡ seen s.1
  unfolding poll_all
  poll_all_seen run [] offset s sound settled below = refl
  poll_all_seen run (p ∷ ps) offset s sound settled below =
      then_turns_seen run (λ next s'. poll_all journal handler last_rune_width run ps next s') s
        (poll_once journal handler last_rune_width run p offset s)
        (poll_once-Loops journal handler view journal_laws last_rune_width run p offset s sound
          below)
        settled (poll_once_seen run p offset s sound settled below)
        (λ next s' sound' settled' below'. poll_all_seen run ps next s' sound' settled' below')

  run_service_seen :
      (run : Run) (ps : List Poll) (s : S × World)
      → view.IsSound s
      → view.Settled s i
      → seen (run_service journal handler last_rune_width run ps s).0.1 ≡ seen s.1
  unfolding run_service
  run_service_seen run ps s sound settled = at (journal.load_checkpoint s) (journal_laws.load_law s)
    where
      Seen : (S × World) × Progress → Type 0
      Seen p = seen p.0.1 ≡ seen s.1

      polled :
          (next : ℕ) (b : Bool)
          → (b ≡ false → view.confirmed s ≤ next)
          → Seen (
              if b
              then (s, stops stop_checkpoint)
              else poll_all journal handler last_rune_width run ps next s)
      polled next true h = refl
      polled next false h = poll_all_seen run ps next s sound settled (h refl)

      at :
          (r : Result (ℕ × ℕ))
          → Returns (λ (p : ℕ × ℕ). p.1 ≡ view.confirmed s) r
          → Seen (after_load journal handler last_rune_width run ps s r)
      at (ok (next, confirmed)) h = polled next (ltb next confirmed) (λ e. ground (arith, h, e))
      at (err failure) h = refl

  pub lives_seen :
      (later : List Life) (s : S × World)
      → view.IsSound s
      → view.Settled s i
      → seen (lives journal handler last_rune_width later s).1 ≡ seen s.1
  unfolding lives
  lives_seen [] s sound settled = refl
  lives_seen (life ∷ later) s sound settled =
      let first =
        run_service-Follows journal handler view journal_laws last_rune_width life.0 life.1 s
          sound in
      lives_seen later (run_service journal handler last_rune_width life.0 life.1 s).0 first.sound
        (first.stays i settled)
      ∙ run_service_seen life.0 life.1 s sound settled
