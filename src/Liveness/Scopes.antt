-- ===== src/Liveness/Scopes.antt =====
-- What scopes promise: they close in any order, and a phase boundary ends them all.
use lofi_bot.Prelude.{
  ℕ, ◌+◌, ◌-◌, ◌%◌, ◌^◌, ◌≤◌, ◌<◌, ◌≡◌, ◌≢◌, ◌⊎◌, min, refl, sym, ap, subst, ◌∙◌, arith, Bool, true,
  false, List, [], ◌∷◌, some, ◌==◌, if◌then◌else◌, length, All, ==_iff,
}
use lofi_bot.Liveness.Worker.{
  ActiveScope, WorkerState, ScopeHandle, is_valid, is_special, max_active_scopes, phase_of,
  sequence_of, sequence_size, next_sequence, publish, clear_scopes, advance, base_phase,
  entered_base, scope, holds_token, without_token, restored, restore_scope, close, checkpoint,
  phase_unknown,
}
use lofi_bot.Liveness.Invariant.{Inv, Descending, Shows, publish_lem, entered}

-- No active scope has a token above the bound.
absent_above :
    (token bound : ℕ) (scopes : List ActiveScope)
    → Descending bound scopes
    → bound < token
    → holds_token token scopes ≡ false
unfolding holds_token
absent_above token bound [] d h = refl
absent_above token bound (a ∷ as') (p, q, r) h =
    ground (arith, absent_above token (a.token - 1) as')

absent_after :
    (token bound : ℕ) (scopes : List ActiveScope)
    → Descending bound scopes
    → holds_token token (without_token token scopes) ≡ false
unfolding holds_token without_token
absent_after token bound [] d = refl
absent_after token bound (a ∷ as') (p, q, r) =
    ground (arith, absent_above token (a.token - 1) as', absent_after token (a.token - 1) as')

restored-active : (s : WorkerState) (left : List ActiveScope) → (restored s left).active ≡ left
unfolding publish
restored-active s [] = refl
restored-active s (a ∷ as') = refl

-- In a sound state, closing a handle a second time changes nothing.
pub close_twice : (h : ScopeHandle) (s : WorkerState) → Inv s → close h (close h s) ≡ close h s
unfolding close restore_scope
close_twice h s v = go (h.token == 0) (holds_token h.token s.active) refl refl
  where
    once : (a b : Bool) → WorkerState
    once a b = if a then s else if b then restored s (without_token h.token s.active) else s

    go :
        (a b : Bool)
        → (h.token == 0) ≡ a
        → holds_token h.token s.active ≡ b
        → (if h.token == 0
            then once a b
            else if holds_token h.token (once a b).active
            then restored (once a b) (without_token h.token (once a b).active)
            else once a b)
          ≡ once a b
    go true b e d = rw e refl
    go false false e d = rw (e, d) refl
    go false true e d =
        rw
          (
            e,
            restored-active s (without_token h.token s.active),
            absent_after h.token s.next_scope_token s.active v.tokens,
          )
          refl

abbrev pub newest_phase : ℕ → List ActiveScope → ℕ
newest_phase base [] = base
newest_phase base (a ∷ as') = a.phase

-- Only the scopes that are left decide what is shown.
restored-phase :
    (s : WorkerState) (left : List ActiveScope)
    → s.scope_base < 256
    → All (λ a. is_special a.phase ≡ true) left
    → phase_of (restored s left) ≡ newest_phase s.scope_base left
restored-phase s [] base specials =
    (publish_lem s.scope_base (record s { scope_base = phase_unknown; active = [] }) base).0
restored-phase s (a ∷ as') base specials =
    (publish_lem a.phase (record s { active = a ∷ as' }) (ground (arith, specials.0))).0

-- In a sound state with an active scope, closing a handle with another token than the newest
-- scope's leaves the shown phase as it is.
pub close_outer :
    (h : ScopeHandle) (s : WorkerState) (a : ActiveScope) (older : List ActiveScope)
    → Inv s
    → s.active ≡ a ∷ older
    → h.token ≢ a.token
    → phase_of (close h s) ≡ phase_of s
unfolding close restore_scope without_token
close_outer h s a older v e other = go (h.token == 0) (holds_token h.token s.active)
  where
    shown : Shows (phase_of s) s.scope_base (a ∷ older)
    shown = subst (Shows (phase_of s) s.scope_base) e v.shown

    specials : All (λ a. is_special a.phase ≡ true) (a ∷ older)
    specials = subst (All (λ a. is_special a.phase ≡ true)) e v.specials

    left : without_token h.token (a ∷ older) ≡ a ∷ without_token h.token older
    left = ground (arith, other)

    hidden : phase_of (restored s (without_token h.token s.active)) ≡ phase_of s
    hidden =
        ap (λ l. phase_of (restored s (without_token h.token l))) e
        ∙ ap (λ l. phase_of (restored s l)) left
        ∙ (publish_lem a.phase (record s { active = a ∷ without_token h.token older })
            (ground (arith, specials.0))).0
        ∙ sym shown.0

    go :
        (b d : Bool)
        → phase_of (if b then s else if d then restored s (without_token h.token s.active) else s)
          ≡ phase_of s
    go true d = refl
    go false false = refl
    go false true = hidden

entered_base_small :
    (s : WorkerState) (scopes : List ActiveScope)
    → Shows (phase_of s) s.scope_base scopes
    → entered_base s scopes < 256
entered_base_small s [] shown = ground arith
entered_base_small s (a ∷ as') shown = ground (arith, shown.1)

newest_entered :
    (s : WorkerState) (scopes : List ActiveScope)
    → newest_phase (entered_base s scopes) scopes ≡ newest_phase (base_phase (phase_of s)) scopes
newest_entered s [] = refl
newest_entered s (a ∷ as') = refl

-- The handle that `scope` returns.
abbrev entered_handle : ℕ → WorkerState → ScopeHandle
entered_handle phase s = record { token = (s.next_scope_token + 1) % 2 ^ 64; phase = phase }

close-entered :
    (phase : ℕ) (s : WorkerState)
    → s.next_scope_token + 1 < 2 ^ 64
    → close (entered_handle phase s) (publish phase (entered phase s))
      ≡ restored (publish phase (entered phase s)) s.active
unfolding close restore_scope holds_token without_token publish
close-entered phase s room =
    let token = (s.next_scope_token + 1) % 2 ^ 64 in
    let nonzero : (token == 0) ≡ false = ground arith in
    rw (nonzero, (==_iff token token).1 refl) refl

-- The phase that a worker returns to when its last scope closes: the phase that it showed, if that
-- is one of the six ordinary ones (1 to 6), and operation (2) if it is not.
abbrev pub IsReturn : ℕ → ℕ → Type 0
IsReturn before after =
    ((1 ≤ before) × (before ≤ 6) × (after ≡ before)) ⊎ (((before ≡ 0) ⊎ (7 ≤ before)) × (after ≡ 2))

-- The phase after the close: that of the newest scope left, or with none the one to return to.
abbrev pub ShowsAgain : ℕ → List ActiveScope → ℕ → Type 0
ShowsAgain before [] after = IsReturn before after
ShowsAgain before (a ∷ as') after = after ≡ a.phase

base_phase-IsReturn : (before : ℕ) → IsReturn before (base_phase before)
base_phase-IsReturn before = ground arith

shows_again :
    (before after : ℕ) (scopes : List ActiveScope)
    → after ≡ newest_phase (base_phase before) scopes
    → ShowsAgain before scopes after
shows_again before after [] e = subst (IsReturn before) (sym e) (base_phase-IsReturn before)
shows_again before after (a ∷ as') e = e

-- In a sound state with room for a scope and a token left, opening a special phase succeeds and
-- shows that phase; closing its handle leaves the scopes that were active before, and shows the
-- phase of the newest of them, or with none the phase that was shown before, if that was an
-- ordinary one (1 to 6), and operation (2) if it was not.
pub close-scope :
    (phase : ℕ) (s : WorkerState)
    → Inv s
    → is_special phase ≡ true
    → length s.active < max_active_scopes
    → s.next_scope_token + 1 < 2 ^ 64
    → (s' : WorkerState) × (h : ScopeHandle) × (scope phase s ≡ some (s', h))
      × (phase_of s' ≡ phase)
      × ((close h s').active ≡ s.active)
      × ShowsAgain (phase_of s) s.active (phase_of (close h s'))
unfolding scope
close-scope phase s v special room tokens =
    let token = (s.next_scope_token + 1) % 2 ^ 64 in
    let s' = publish phase (entered phase s) in
    let fresh : (token == 0) ≡ false = ground arith in
    let few : (length s.active == max_active_scopes) ≡ false = ground (arith, room) in
    (
      s',
      entered_handle phase s,
      rw (special, few, fresh) refl,
      (publish_lem phase (entered phase s) (ground (arith, special))).0,
      ap (λ (d : WorkerState). d.active) (close-entered phase s tokens)
          ∙ restored-active s' s.active,
      shows_again (phase_of s) (phase_of (close (entered_handle phase s) s')) s.active (
          ap (λ (d : WorkerState). phase_of d) (close-entered phase s tokens)
          ∙ restored-phase s' s.active (entered_base_small s s.active v.shown) v.specials
          ∙ newest_entered s s.active),
    )

abbrev PairKeeps : WorkerState → WorkerState × ℕ → Type 0
PairKeeps s p = p.0 ≡ s

if_same : {A : Type 0} (b : Bool) (x : A) → (if b then x else x) ≡ x
if_same true x = refl
if_same false x = refl

saturates :
    (sequence : ℕ)
    → sequence < sequence_size
    → next_sequence sequence ≡ min (sequence + 1) (2 ^ 56 - 1)
saturates sequence fits = ground arith

-- An advance to a valid phase succeeds, shows that phase and adds one to the sequence, which stays
-- at 2 ^ 56 - 1 once it is there; after it, whatever handle is closed or checkpointed changes
-- nothing.
pub advance_invalidates :
    (phase : ℕ) (s : WorkerState) (h : ScopeHandle)
    → is_valid phase ≡ true
    → (s' : WorkerState) × (advance phase s ≡ some (s', sequence_of s'))
      × (phase_of s' ≡ phase)
      × (sequence_of s' ≡ min (sequence_of s + 1) (2 ^ 56 - 1))
      × (close h s' ≡ s')
      × ((checkpoint h s').0 ≡ s')
unfolding advance clear_scopes close restore_scope checkpoint publish holds_token
advance_invalidates phase s h valid =
    let s' = publish phase (clear_scopes s) in
    let published = publish_lem phase (clear_scopes s) (ground (arith, valid)) in
    (
      s',
      rw valid refl,
      published.0,
      published.1 ∙ saturates (sequence_of s) (omega arith),
      if_same (h.token == 0) s',
      passed (h.token == 0) s',
    )
  where
    passed :
        (b : Bool) (s' : WorkerState) → PairKeeps s' (if b then (s', 0) else (s', sequence_of s'))
    passed true s' = refl
    passed false s' = refl
