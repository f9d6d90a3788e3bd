-- ===== src/Retry/Sampler/Accounting.antt =====
-- No failure is lost from the log: each is emitted, or counted as suppressed.
use lofi_bot.Prelude.{ℕ, suc, ◌+◌, ◌≤◌, ◌<◌, ◌≡◌, refl, List, [], ◌∷◌, arith, length}
use lofi_bot.Retry.Backoff.{saturating_increment, max_uint64}
use lofi_bot.Retry.Sampler.{
  Sampler, Sample, sample_none, sample_first, sample_periodic, sample_recovery, Event, fails,
  recovers, failure, recovery, step, run, new_sampler,
}

-- The failures that a sample tells of: one for a failure that is emitted, and those suppressed.
abbrev pub told : Sample → ℕ
told s = elim s.kind [
  | sample_none ↦ 0
  | sample_first ↦ 1
  | sample_periodic ↦ s.suppressed + 1
  | sample_recovery ↦ s.suppressed
]

pub told_all : List Sample → ℕ
told_all [] = 0
told_all (s ∷ ss) = told s + told_all ss

pub failures_in : List Event → ℕ
failures_in [] = 0
failures_in (fails ∷ es) = suc (failures_in es)
failures_in (recovers ∷ es) = failures_in es

-- The suppressed ones are among the consecutive failures.
pub record IsSound (s : Sampler) : Type 0 where
  pub every_min : 2 ≤ s.every
  pub suppressed_le : s.suppressed ≤ s.consecutive

pub new_sampler-IsSound : (every : ℕ) → IsSound (new_sampler every)
unfolding new_sampler
new_sampler-IsSound every = ground arith

pub step-IsSound :
    (s : Sampler) (e : Event) → s.consecutive < max_uint64 → IsSound s → IsSound (step s e).0
unfolding step failure recovery saturating_increment
step-IsSound s fails h v = ground arith
step-IsSound s recovers h v = ground arith

step-told :
    (s : Sampler) (e : Event)
    → s.consecutive < max_uint64
    → IsSound s
    → (step s e).0.suppressed + told (step s e).1 ≡ s.suppressed + failures_in (e ∷ [])
unfolding step failure recovery saturating_increment failures_in
step-told s fails h v = ground arith
step-told s recovers h v = ground arith

step-consecutive :
    (s : Sampler) (e : Event)
    → s.consecutive < max_uint64
    → (step s e).0.consecutive ≤ s.consecutive + 1
unfolding step failure recovery saturating_increment
step-consecutive s fails h = ground arith
step-consecutive s recovers h = ground arith

failures_in-cons :
    (e : Event) (es : List Event) → failures_in (e ∷ es) ≡ failures_in (e ∷ []) + failures_in es
unfolding failures_in
failures_in-cons fails es = omega arith
failures_in-cons recovers es = omega arith

-- Over any sequence of failures and recoveries that the 64-bit counter cannot exhaust, from a
-- sound sampler, the samples emitted tell of every failure but those still counted as suppressed.
pub told_all-run :
    (s : Sampler) (es : List Event)
    → s.consecutive + length es ≤ max_uint64
    → IsSound s
    → (run s es).0.suppressed + told_all (run s es).1 ≡ s.suppressed + failures_in es
unfolding run told_all failures_in
told_all-run s [] h v = refl
told_all-run s (e ∷ es) h v = omega (
  arith,
  step-told s e (omega arith) v,
  failures_in-cons e es,
  told_all-run (step s e).0 es (omega (arith, step-consecutive s e (omega arith)))
      (step-IsSound s e (omega arith) v),
)
