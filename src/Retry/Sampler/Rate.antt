-- ===== src/Retry/Sampler/Rate.antt =====
-- How many of a burst of failures are logged.
use native.Mathlib.Nat.{add-zero, div-add-mod, mul-le-mul_left}
use lofi_bot.Prelude.{
  ℕ, zero, suc, ◌+◌, ◌-◌, ◌*◌, ◌%◌, ◌/◌, ◌≤◌, ◌<◌, ◌≡◌, List, [], ◌∷◌, arith, ap, ◌≢◌, ◌⊎◌, inl,
  inr, ◌==◌, if◌then◌else◌, replicate,
}
use lofi_bot.Retry.Backoff.{saturating_increment, max_uint64}
use lofi_bot.Retry.Sampler.{
  Sampler, Sample, SampleKind, sample_none, sample_first, sample_periodic, sample_recovery, fails,
  failure, step, run, new_sampler,
}

abbrev pub emitted : SampleKind → ℕ
emitted sample_none = 0
emitted sample_first = 1
emitted sample_periodic = 1
emitted sample_recovery = 1

pub emitted_all : List Sample → ℕ
emitted_all [] = 0
emitted_all (s ∷ ss) = emitted s.kind + emitted_all ss

-- Quotients a step apart differ by one at the multiples of the divisor, and not elsewhere.
quotient_unique :
    (e p q r s c : ℕ)
    → 2 ≤ e
    → r < e
    → s < e
    → e * p + r ≡ c + 1
    → e * q + s ≡ c
    → p ≡ q + (if r == 0 then 1 else 0)
quotient_unique e p q r s c h r_lt s_lt x y = elim close [
  | inl k ↦ let l = ap (λ (t : ℕ). e * t) k in let nz : r ≢ 0 = omega arith in ground arith
  | inr k ↦ let l = ap (λ (t : ℕ). e * t) k in let z : r ≡ 0 = omega arith in rw z k
]
  where
    below : p < q → ⊥
    below k = omega (arith, mul-le-mul_left e k)

    above : q + 1 < p → ⊥
    above k = omega (arith, mul-le-mul_left e k)

    close : (p ≡ q) ⊎ (p ≡ q + 1)
    close = omega (arith, below, above)

quotient_step : (c e : ℕ) → 2 ≤ e → (c + 1) / e ≡ c / e + (if (c + 1) % e == 0 then 1 else 0)
quotient_step c e h =
    quotient_unique e ((c + 1) / e) (c / e) ((c + 1) % e) (c % e) c h (omega arith) (omega arith)
      (div-add-mod (c + 1) e) (div-add-mod c e)

-- The failures logged of those that follow the first.
logged_after : (e c n : ℕ) → ℕ
logged_after e c n = (c + n) / e - c / e

failure_moves :
    (s : Sampler)
    → 2 ≤ s.every
    → 1 ≤ s.consecutive
    → s.consecutive < max_uint64
    → ((failure s).0.every ≡ s.every)
      × ((failure s).0.consecutive ≡ s.consecutive + 1)
      × (emitted (failure s).1.kind + s.consecutive / s.every ≡ (s.consecutive + 1) / s.every)
unfolding failure saturating_increment
failure_moves s v p h = ground (arith, quotient_step s.consecutive s.every)

emitted-run :
    (n : ℕ) (s : Sampler)
    → 2 ≤ s.every
    → 1 ≤ s.consecutive
    → s.consecutive + n ≤ max_uint64
    → emitted_all (run s (replicate n fails)).1 + s.consecutive / s.every
      ≡ (s.consecutive + n) / s.every
unfolding emitted_all run step
emitted-run zero s v p h = rw (add-zero s.consecutive) (omega arith)
emitted-run (suc n) s v p h =
    let s' = (failure s).0 in
    let moved = failure_moves s v p (omega arith) in
    let rest = emitted-run n s' (omega arith) (omega arith) (omega arith) in
    let shift : s.consecutive + 1 + n ≡ s.consecutive + suc n = omega arith in
    omega (arith, moved.2, rw (moved.0, moved.1, shift) at rest)

first_failure :
    (every : ℕ)
    → 2 ≤ every
    → ((failure (new_sampler every)).0.every ≡ every)
      × ((failure (new_sampler every)).0.consecutive ≡ 1)
      × (emitted (failure (new_sampler every)).1.kind ≡ 1)
unfolding failure new_sampler saturating_increment
first_failure every v = ground arith

below_divisor : (e : ℕ) → 2 ≤ e → 1 / e ≡ 0
below_divisor e h = grind arith

-- Of a burst of n failures (n at least 1 and a uint64) of a new sampler with `every` at least 2,
-- exactly 1 + n / every are emitted.
pub emitted-burst :
    (n every : ℕ)
    → 1 ≤ n
    → 2 ≤ every
    → n ≤ max_uint64
    → emitted_all (run (new_sampler every) (replicate n fails)).1 ≡ 1 + n / every
unfolding run step emitted_all
emitted-burst zero every p v h = elim p [ ]
emitted-burst (suc n) every p v h =
    let s = (failure (new_sampler every)).0 in
    let first = first_failure every v in
    let rest = emitted-run n s (omega arith) (omega arith) (omega arith) in
    let one_more : 1 + n ≡ suc n = omega arith in
    omega (arith, first.2, below_divisor every v, rw (first.0, first.1, one_more) at rest)
