-- ===== src/Liveness/Progress.antt =====
-- A worker's sequence of progress only grows.
use lofi_bot.Prelude.{
  ℕ, ◌+◌, ◌%◌, ◌^◌, ◌≤◌, arith, Bool, true, false, not, List, [], ◌∷◌, Option, none, some, ◌==◌,
  if◌then◌else◌, length,
}
use lofi_bot.Liveness.Worker.{
  ActiveScope, WorkerState, ScopeHandle, is_valid, is_special, max_active_scopes, sequence_of,
  publish, clear_scopes, advance, entered_base, scope, holds_token, without_token, restored,
  restore_scope, close, in_effect, checkpoint, phase_unknown,
}
use lofi_bot.Liveness.Invariant.{Call, advances, opens, closes, checks, step, run, Ends, Ends-if}

-- The sequence of a state is not below a bound.
abbrev Reaches : ℕ → WorkerState → Type 0
Reaches n s = n ≤ sequence_of s

publish-Reaches : (phase : ℕ) (s : WorkerState) → Reaches (sequence_of s) (publish phase s)
unfolding publish
publish-Reaches phase s = ground arith

restored-Reaches :
    (s : WorkerState) (left : List ActiveScope) → Reaches (sequence_of s) (restored s left)
restored-Reaches s [] =
    publish-Reaches s.scope_base (record s { scope_base = phase_unknown; active = [] })
restored-Reaches s (a ∷ as') = publish-Reaches a.phase (record s { active = a ∷ as' })

close-Reaches : (h : ScopeHandle) (s : WorkerState) → Reaches (sequence_of s) (close h s)
unfolding close restore_scope
close-Reaches h s = go (h.token == 0) (holds_token h.token s.active)
  where
    go :
        (a b : Bool)
        → Reaches
            (sequence_of s)
            (if a then s else if b then restored s (without_token h.token s.active) else s)
    go true b = omega arith
    go false false = omega arith
    go false true = restored-Reaches s (without_token h.token s.active)

abbrev ReachesPair : ℕ → WorkerState × ℕ → Type 0
ReachesPair n p = Reaches n p.0

checkpoint-Reaches :
    (h : ScopeHandle) (s : WorkerState) → Reaches (sequence_of s) (checkpoint h s).0
unfolding checkpoint
checkpoint-Reaches h s = go (h.token == 0) (in_effect h s.active)
  where
    go :
        (a b : Bool)
        → ReachesPair (sequence_of s) (
            if a
            then (s, 0)
            else if b
            then (publish h.phase s, sequence_of (publish h.phase s))
            else (s, sequence_of s))
    go true b = omega arith
    go false false = omega arith
    go false true = publish-Reaches h.phase s

reached :
    {A : Type 0} (n : ℕ) (s : WorkerState) (o : Option (WorkerState × A))
    → Ends s (Reaches n) o
    → Reaches n (elim o [ none ↦ s | some (s', _) ↦ s' ])
reached n s none h = h
reached n s (some (s', a)) h = h

scope-Reaches : (phase : ℕ) (s : WorkerState) → Ends s (Reaches (sequence_of s)) (scope phase s)
unfolding scope
scope-Reaches phase s =
    let token = (s.next_scope_token + 1) % 2 ^ 64 in
    Ends-if s (Reaches (sequence_of s)) (not (is_special phase)) _ _ (λ _. omega arith)
      λ _.
        Ends-if s (Reaches (sequence_of s)) (length s.active == max_active_scopes) _ _
          (λ _. omega arith)
          λ _.
            Ends-if s (Reaches (sequence_of s)) (token == 0) _ _ (λ _. omega arith)
              λ _. publish-Reaches phase (record s {
                scope_base = entered_base s s.active;
                next_scope_token = token;
                active = record { token = token; phase = phase } ∷ s.active;
              })

advance-Reaches : (phase : ℕ) (s : WorkerState) → Ends s (Reaches (sequence_of s)) (advance phase s)
unfolding advance clear_scopes
advance-Reaches phase s =
    Ends-if s (Reaches (sequence_of s)) (is_valid phase) _ _
      (λ _. publish-Reaches phase (clear_scopes s)) (λ _. omega arith)

step-Reaches : (s : WorkerState) (c : Call) → Reaches (sequence_of s) (step s c)
unfolding step
step-Reaches s (advances phase) =
    reached (sequence_of s) s (advance phase s) (advance-Reaches phase s)
step-Reaches s (opens phase) = reached (sequence_of s) s (scope phase s) (scope-Reaches phase s)
step-Reaches s (closes h) = close-Reaches h s
step-Reaches s (checks h) = checkpoint-Reaches h s

-- Whatever calls are made on a worker, from any state, its sequence never decreases, also where it
-- saturates.
pub run_monotone : (s : WorkerState) (cs : List Call) → sequence_of s ≤ sequence_of (run s cs)
unfolding run
run_monotone s [] = omega arith
run_monotone s (c ∷ cs) = omega (arith, step-Reaches s c, run_monotone (step s c) cs)
