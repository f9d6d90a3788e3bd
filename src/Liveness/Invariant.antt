-- ===== src/Liveness/Invariant.antt =====
-- What holds of a worker's state between two calls.
use lofi_bot.Prelude.{
  ℕ, ◌+◌, ◌-◌, ◌%◌, ◌^◌, ◌≤◌, ◌<◌, ◌≡◌, refl, arith, Bool, true, false, not, List, [], ◌∷◌, Option,
  none, some, ◌==◌, if◌then◌else◌, length, All,
}
use lofi_bot.Liveness.Worker.{
  ActiveScope, WorkerState, ScopeHandle, is_valid, is_special, max_active_scopes, phase_of,
  sequence_of, next_sequence, publish, clear_scopes, advance, base_phase, entered_base, scope,
  holds_token, without_token, restored, restore_scope, close, in_effect, checkpoint, phase_unknown,
}

-- The tokens of the active scopes fall from the newest on, and none is above the bound.
abbrev pub Descending : ℕ → List ActiveScope → Type 0
Descending bound [] = Unit {0}
Descending bound (a ∷ as') = (0 < a.token) × (a.token ≤ bound) × Descending (a.token - 1) as'

-- The published phase is that of the newest scope, and the base to return to is an ordinary phase.
abbrev pub Shows : ℕ → ℕ → List ActiveScope → Type 0
Shows phase base [] = Unit {0}
Shows phase base (a ∷ as') = (phase ≡ a.phase) × (base_phase base ≡ base)

pub record Inv (s : WorkerState) : Type 0 where
  pub value_fits : s.value < 2 ^ 64
  pub token_fits : s.next_scope_token < 2 ^ 64
  pub few : length s.active ≤ max_active_scopes
  pub tokens : Descending s.next_scope_token s.active
  pub specials : All (λ a. is_special a.phase ≡ true) s.active
  pub shown : Shows (phase_of s) s.scope_base s.active

pub publish_lem :
    (phase : ℕ) (s : WorkerState)
    → phase < 256
    → (phase_of (publish phase s) ≡ phase)
      × (sequence_of (publish phase s) ≡ next_sequence (sequence_of s))
      × ((publish phase s).value < 2 ^ 64)
unfolding publish
publish_lem phase s h = ground arith

publish-Inv :
    (phase : ℕ) (s : WorkerState)
    → phase < 256
    → s.next_scope_token < 2 ^ 64
    → length s.active ≤ max_active_scopes
    → Descending s.next_scope_token s.active
    → All (λ a. is_special a.phase ≡ true) s.active
    → Shows phase s.scope_base s.active
    → Inv (publish phase s)
unfolding publish
publish-Inv phase s fits token few tokens specials shown =
    let (same, _, value) = publish_lem phase s fits in
    record {
      value_fits = value;
      token_fits = token;
      few = few;
      tokens = tokens;
      specials = specials;
      shown = rw same shown;
    }

pub data Call : Type 0 where
  advances opens : ℕ → Call
  closes checks : ScopeHandle → Call

-- The state after a call; one that panics leaves it as it was.
unfoldable pub step : WorkerState → Call → WorkerState
step s (advances phase) = elim (advance phase s) [ none ↦ s | some (s', _) ↦ s' ]
step s (opens phase) = elim (scope phase s) [ none ↦ s | some (s', _) ↦ s' ]
step s (closes h) = close h s
step s (checks h) = (checkpoint h s).0

unfoldable pub run : WorkerState → List Call → WorkerState
run s [] = s
run s (c ∷ cs) = run (step s c) cs

-- A phase that is published for an Option of a state and a result.
abbrev pub Ends {ℓ} :
    {A : Type ℓ} → WorkerState → (WorkerState → Type 0) → Option (WorkerState × A) → Type 0
Ends s P none = P s
Ends s P (some (s', a)) = P s'

advance-Inv : (phase : ℕ) (s : WorkerState) → Inv s → Ends s Inv (advance phase s)
unfolding advance clear_scopes
advance-Inv phase s v = go (is_valid phase) refl
  where
    go :
        (b : Bool)
        → is_valid phase ≡ b
        → Ends s Inv (
            if b
            then some (publish phase (clear_scopes s), sequence_of (publish phase (clear_scopes s)))
            else none)
    go false e = v
    go true e =
        publish-Inv phase (clear_scopes s) (ground arith) v.token_fits (omega arith) tt tt tt

base_phase_ordinary : (phase : ℕ) → base_phase (base_phase phase) ≡ base_phase phase
base_phase_ordinary phase = ground arith

entered_base_ordinary :
    (s : WorkerState) (scopes : List ActiveScope)
    → Shows (phase_of s) s.scope_base scopes
    → base_phase (entered_base s scopes) ≡ entered_base s scopes
entered_base_ordinary s [] shown = base_phase_ordinary (phase_of s)
entered_base_ordinary s (a ∷ as') shown = shown.1

Descending-le :
    (low high : ℕ) (scopes : List ActiveScope)
    → low ≤ high
    → Descending low scopes
    → Descending high scopes
Descending-le low high [] h d = tt
Descending-le low high (a ∷ as') h (p, q, r) = (p, omega arith, r)

pub Ends-if :
    {A : Type 0} (s : WorkerState) (P : WorkerState → Type 0) (b : Bool)
    (x y : Option (WorkerState × A))
    → (b ≡ true → Ends s P x)
    → (b ≡ false → Ends s P y)
    → Ends s P (if b then x else y)
Ends-if s P true x y h k = h refl
Ends-if s P false x y h k = k refl

-- The state that `scope` publishes.
abbrev pub entered : ℕ → WorkerState → WorkerState
entered phase s =
    let token = (s.next_scope_token + 1) % 2 ^ 64 in
    record s {
      scope_base = entered_base s s.active;
      next_scope_token = token;
      active = record { token = token; phase = phase } ∷ s.active;
    }

newest :
    (token : ℕ) (s : WorkerState)
    → ((s.next_scope_token + 1) % 2 ^ 64 == 0) ≡ false
    → Inv s
    → Descending ((s.next_scope_token + 1) % 2 ^ 64) (entered 0 s).active
newest token s fresh v = (
  ground (arith, fresh),
  omega arith,
  Descending-le s.next_scope_token ((s.next_scope_token + 1) % 2 ^ 64 - 1) s.active
      (ground (arith, fresh, v.token_fits)) v.tokens,
)

scope-Inv : (phase : ℕ) (s : WorkerState) → Inv s → Ends s Inv (scope phase s)
unfolding scope
scope-Inv phase s v =
    let token = (s.next_scope_token + 1) % 2 ^ 64 in
    Ends-if s Inv (not (is_special phase)) _ _ (λ _. v)
      λ special.
        Ends-if s Inv (length s.active == max_active_scopes) _ _ (λ _. v)
          λ room.
            Ends-if s Inv (token == 0) _ _ (λ _. v)
              λ fresh.
                publish-Inv phase (entered phase s) (ground (arith, special)) (omega arith)
                  (ground (arith, room, v.few)) (newest token s fresh v) (ground arith, v.specials)
                  (refl, entered_base_ordinary s s.active v.shown)

without_token-Descending :
    (token bound : ℕ) (scopes : List ActiveScope)
    → Descending bound scopes
    → Descending bound (without_token token scopes)
unfolding without_token
without_token-Descending token bound [] d = tt
without_token-Descending token bound (a ∷ as') (p, q, r) =
    ground (
      arith,
      Descending-le (a.token - 1) bound as',
      without_token-Descending token (a.token - 1) as',
    )

without_token-All :
    (P : ActiveScope → Type 0) (token : ℕ) (scopes : List ActiveScope)
    → All P scopes
    → All P (without_token token scopes)
unfolding without_token
without_token-All P token [] h = tt
without_token-All P token (a ∷ as') h =
    either (a.token == token) h.1 (h.0, without_token-All P token as' h.1)
  where
    either :
        (b : Bool)
        → All P as'
        → All P (a ∷ without_token token as')
        → All P (if b then as' else a ∷ without_token token as')
    either true x y = x
    either false x y = y

length-without_token :
    (token : ℕ) (scopes : List ActiveScope) → length (without_token token scopes) ≤ length scopes
unfolding without_token
length-without_token token [] = omega arith
length-without_token token (a ∷ as') = ground (arith, length-without_token token as')

-- What a close needs: the base is an ordinary phase.
restored-Inv :
    (s : WorkerState) (left : List ActiveScope)
    → Inv s
    → base_phase s.scope_base ≡ s.scope_base
    → length left ≤ max_active_scopes
    → Descending s.next_scope_token left
    → All (λ a. is_special a.phase ≡ true) left
    → Inv (restored s left)
restored-Inv s [] v base few tokens specials =
    publish-Inv s.scope_base (record s { scope_base = phase_unknown; active = [] })
      (ground (arith, base)) v.token_fits (omega arith) tt tt tt
restored-Inv s (a ∷ as') v base few tokens specials =
    publish-Inv a.phase (record s { active = a ∷ as' }) (ground (arith, specials.0)) v.token_fits
      few tokens specials (refl, base)

restore_scope-Inv : (token : ℕ) (s : WorkerState) → Inv s → Inv (restore_scope token s)
unfolding restore_scope holds_token
restore_scope-Inv token s v = go (holds_token token s.active) refl
  where
    base :
        (scopes : List ActiveScope)
        → holds_token token scopes ≡ true
        → Shows (phase_of s) s.scope_base scopes
        → base_phase s.scope_base ≡ s.scope_base
    base [] h shown = absurd (ground (arith, h))
    base (a ∷ as') h shown = shown.1

    go :
        (b : Bool)
        → holds_token token s.active ≡ b
        → Inv (if b then restored s (without_token token s.active) else s)
    go false e = v
    go true e =
        restored-Inv s (without_token token s.active) v (base s.active e v.shown)
          (omega (arith, v.few, length-without_token token s.active))
          (without_token-Descending token s.next_scope_token s.active v.tokens)
          (without_token-All _ token s.active v.specials)

close-Inv : (h : ScopeHandle) (s : WorkerState) → Inv s → Inv (close h s)
unfolding close
close-Inv h s v = go (h.token == 0)
  where
    go : (b : Bool) → Inv (if b then s else restore_scope h.token s)
    go true = v
    go false = restore_scope-Inv h.token s v

abbrev Keeps : WorkerState × ℕ → Type 0
Keeps p = Inv p.0

checkpoint-Inv : (h : ScopeHandle) (s : WorkerState) → Inv s → Inv (checkpoint h s).0
unfolding checkpoint
checkpoint-Inv h s v = go (h.token == 0) (in_effect h s.active) refl
  where
    effective :
        (scopes : List ActiveScope)
        → in_effect h scopes ≡ true
        → All (λ a. is_special a.phase ≡ true) scopes
        → Shows (phase_of s) s.scope_base scopes
        → (h.phase < 256) × Shows h.phase s.scope_base scopes
    effective [] e specials shown = absurd (ground (arith, e))
    effective (a ∷ as') e specials shown =
        (ground (arith, e, specials.0), (ground (arith, e), shown.1))

    go :
        (a b : Bool)
        → in_effect h s.active ≡ b
        → Keeps (
            if a
            then (s, 0)
            else if b
            then (publish h.phase s, sequence_of (publish h.phase s))
            else (s, sequence_of s))
    go true b e = v
    go false false e = v
    go false true e =
        let (small, shown) = effective s.active e v.specials v.shown in
        publish-Inv h.phase s small v.token_fits v.few v.tokens v.specials shown

ended :
    {A : Type 0} (s : WorkerState) (o : Option (WorkerState × A))
    → Ends s Inv o
    → Inv (elim o [ none ↦ s | some (s', _) ↦ s' ])
ended s none h = h
ended s (some (s', a)) h = h

step-Inv : (s : WorkerState) (c : Call) → Inv s → Inv (step s c)
unfolding step
step-Inv s (advances phase) v = ended s (advance phase s) (advance-Inv phase s v)
step-Inv s (opens phase) v = ended s (scope phase s) (scope-Inv phase s v)
step-Inv s (closes h) v = close-Inv h s v
step-Inv s (checks h) v = checkpoint-Inv h s v

-- Whatever phases a worker advances to or opens scopes for, and whatever handles are closed or
-- checkpointed, in any order, a worker's state in which Inv holds keeps it: the value and the
-- tokens fit 64 bits, at most 16 scopes are active, with special phases and falling tokens, and
-- the published phase is that of the newest one, with an ordinary phase to return to.
pub run-Inv : (s : WorkerState) (cs : List Call) → Inv s → Inv (run s cs)
unfolding run
run-Inv s [] v = v
run-Inv s (c ∷ cs) v = run-Inv (step s c) cs (step-Inv s c v)
