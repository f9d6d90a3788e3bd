-- ===== src/Retry/Backoff/Bounds.antt =====
-- What a retry loop may rely on: the policy that `new_backoff` leaves, and every delay's bounds.
use lofi_bot.Prelude.{
  ℕ, zero, suc, ◌+◌, ◌-◌, ◌*◌, ◌/◌, ◌^◌, ◌≤◌, ◌<◌, ◌≡◌, refl, ◌∙◌, arith, List, [], ◌∷◌, All, ◌⊎◌,
}
use lofi_bot.Prelude.Int.{ℤ, pos, negsuc, pos_part, ◌≤ℤ◌}
use lofi_bot.Retry.Backoff.{
  Policy, Backoff, Attempt, new_backoff, positive_or, at_least, saturating_increment, next_base,
  capped_hint, failure, reset, IsNormal, capped_at, max_int64, max_uint64, default_initial,
}
use lofi_bot.Retry.Backoff.Growth.{grow_lem, le-mul_pow}
use lofi_bot.Retry.Backoff.Jitter.{jitter_bounds}

-- A policy whose durations are int64 values.
pub record Fits (policy : Policy ℤ) : Type 0 where
  pub initial_fits : policy.initial ≤ℤ pos max_int64
  pub max_fits : policy.max ≤ℤ pos max_int64
  pub hint_fits : policy.provider_hint_max ≤ℤ pos max_int64

positive_or_bounds :
    (d : ℤ)
    → d ≤ℤ pos max_int64
    → (0 < positive_or default_initial d) × (positive_or default_initial d ≤ max_int64)
unfolding positive_or
positive_or_bounds (pos zero) h = omega arith
positive_or_bounds (pos (suc n)) h = omega arith
positive_or_bounds (negsuc n) h = omega arith

at_least_bounds :
    (low : ℕ) (d : ℤ)
    → low ≤ max_int64
    → d ≤ℤ pos max_int64
    → (low ≤ at_least low d) × (at_least low d ≤ max_int64)
unfolding at_least
at_least_bounds low (pos n) l h = ground arith
at_least_bounds low (negsuc n) l h = ground arith

-- Whatever policy of int64 durations is configured, the sequence starts normal: a positive initial
-- delay, at most the cap, at most the cap of the hint, which fits an int64, a jitter of at most a
-- hundred percent, and a counter that fits a uint64.
pub new_backoff-IsNormal : (policy : Policy ℤ) → Fits policy → IsNormal (new_backoff policy)
unfolding new_backoff
new_backoff-IsNormal policy f =
    let initial = positive_or default_initial policy.initial in
    let max = at_least initial policy.max in
    let i = positive_or_bounds policy.initial f.initial_fits in
    let m = at_least_bounds initial policy.max i.1 f.max_fits in
    let h = at_least_bounds max policy.provider_hint_max m.1 f.hint_fits in ground (arith, i, m, h)

-- The doubling loop of a normal sequence gives the initial delay times two to the number of
-- failures, capped, with no wrap-around.
pub next_base_lem :
    (b : Backoff) → IsNormal b → next_base b ≡ capped_at b.max (b.initial * 2 ^ b.failures)
unfolding next_base
next_base_lem b n = ground (arith, grow_lem b.failures b.initial b.max)

next_base_bounds : (b : Backoff) → IsNormal b → (0 < next_base b) × (next_base b ≤ b.max)
next_base_bounds b n = ground (arith, next_base_lem b n, le-mul_pow b.initial b.failures)

capped_hint_lem : (limit : ℕ) (hint : ℤ) → capped_hint limit hint ≡ capped_at limit (pos_part hint)
unfolding capped_hint
capped_hint_lem limit (pos h) = refl
capped_hint_lem limit (negsuc h) = ground arith

-- After a failure of a normal sequence the delay is at least the exponential delay less the
-- jitter, and at least the capped hint; it is at most the exponential delay plus the jitter,
-- capped, or is the capped hint itself; and it is at most the cap of the hint.
pub failure_window :
    (b : Backoff) (hint : ℤ) (draw : ℕ)
    → IsNormal b
    → draw ≤ max_uint64
    → let base = capped_at b.max (b.initial * 2 ^ b.failures) in
      let span = base * b.jitter_percent / 100 in
      let asked = capped_at b.provider_hint_max (pos_part hint) in
      let delay = (failure b hint draw).1.delay in
      (base - span ≤ delay)
      × (asked ≤ delay)
      × ((delay ≤ capped_at b.max (base + span)) ⊎ (delay ≡ asked))
      × (delay ≤ b.provider_hint_max)
unfolding failure
failure_window b hint draw n d =
    let base = capped_at b.max (b.initial * 2 ^ b.failures) in
    let le : base ≤ b.max = ground arith in
    let fits : b.max ≤ max_int64 = omega arith in
    let window = jitter_bounds base b.max b.jitter_percent draw le fits n.percent_le d in
    rw (capped_hint_lem b.provider_hint_max hint, next_base_lem b n) (ground (arith, window))

failure-IsNormal :
    (b : Backoff) (hint : ℤ) (draw : ℕ) → IsNormal b → IsNormal (failure b hint draw).0
unfolding failure saturating_increment
failure-IsNormal b hint draw n = ground arith

pub data Event : Type 0 where
  fails : ℤ → ℕ → Event
  resets : Event

-- A recurring loop: failures with the hint and the draw, and resets after a success.
pub run : Backoff → List Event → Backoff × List Attempt
run b [] = (b, [])
run b (fails hint draw ∷ es) =
    let (b', attempt) = failure b hint draw in
    let (b'', attempts) = run b' es in (b'', attempt ∷ attempts)
run b (resets ∷ es) = run (reset b).0 es

-- Every draw is a uint64.
abbrev pub DrawsFit : List Event → Type 0
DrawsFit [] = Unit {0}
DrawsFit (fails hint draw ∷ es) = (draw ≤ max_uint64) × DrawsFit es
DrawsFit (resets ∷ es) = DrawsFit es

-- The failures since the last reset, on top of those before.
pub since_reset : ℕ → List Event → ℕ
since_reset n [] = n
since_reset n (fails hint draw ∷ es) = since_reset (capped_at max_uint64 (n + 1)) es
since_reset n (resets ∷ es) = since_reset 0 es

failure-failures :
    (b : Backoff) (hint : ℤ) (draw : ℕ)
    → IsNormal b
    → (failure b hint draw).0.failures ≡ capped_at max_uint64 (b.failures + 1)
unfolding failure saturating_increment
failure-failures b hint draw n = ground arith

failure-policy : (b : Backoff) (hint : ℤ) (draw : ℕ) → (failure b hint draw).0.policy ≡ b.policy
unfolding failure
failure-policy b hint draw = refl

-- From a normal sequence, over any history of failures (with any hint and any 64-bit draw) and
-- resets, the policy stays, the counter is the number of failures since the last reset, stopping
-- at the largest uint64, and no delay is longer than the cap of the provider's hint.
pub run_bounds :
    (b : Backoff) (es : List Event)
    → IsNormal b
    → DrawsFit es
    → ((run b es).0.policy ≡ b.policy)
      × ((run b es).0.failures ≡ since_reset b.failures es)
      × All (λ a. a.delay ≤ b.provider_hint_max) (run b es).1
unfolding run since_reset failure reset
run_bounds b [] n d = (refl, refl, tt)
run_bounds b (fails hint draw ∷ es) n d =
    let b' = (failure b hint draw).0 in
    let rest = run_bounds b' es (failure-IsNormal b hint draw n) d.1 in
    (
      rest.0 ∙ failure-policy b hint draw,
      rw (← failure-failures b hint draw n) rest.1,
      ((failure_window b hint draw n d.0).3, rest.2),
    )
run_bounds b (resets ∷ es) n d = run_bounds (reset b).0 es (ground arith) d
