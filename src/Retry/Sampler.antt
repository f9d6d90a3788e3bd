-- ===== src/Retry/Sampler.antt =====
-- internal/retry/retry.go: Sampler, the decision which repeated failures are logged.
pub mod Accounting
pub mod Rate
use lofi_bot.Prelude.{ℕ, ◌+◌, ◌%◌, ◌^◌, ltb, ◌==◌, if◌then◌else◌, List, [], ◌∷◌}
use lofi_bot.Retry.Backoff.{saturating_increment}

abbrev pub default_sample_every : ℕ
default_sample_every = 8

pub data SampleKind : Type 0 where
  sample_none sample_first sample_periodic sample_recovery : SampleKind

pub record Sample : Type 0 where
  pub kind : SampleKind
  pub consecutive : ℕ
  pub suppressed : ℕ

pub record Sampler : Type 0 where
  pub every : ℕ
  pub consecutive : ℕ
  pub suppressed : ℕ

pub new_sampler : ℕ → Sampler
new_sampler every = record {
  every = if ltb every 2 then default_sample_every else every;
  consecutive = 0;
  suppressed = 0;
}

pub failure : Sampler → Sampler × Sample
unfolding saturating_increment
failure s =
    let consecutive = saturating_increment s.consecutive in
    let counted = record s { consecutive = consecutive } in
    if consecutive == 1
    then (counted, record { kind = sample_first; consecutive = consecutive; suppressed = 0 })
    else if consecutive % s.every == 0
    then (
      record counted { suppressed = 0 },
      record { kind = sample_periodic; consecutive = consecutive; suppressed = s.suppressed },
    )
    else (
      record counted { suppressed = saturating_increment s.suppressed },
      record { kind = sample_none; consecutive = consecutive; suppressed = 0 },
    )

pub recovery : Sampler → Sampler × Sample
recovery s =
    if s.consecutive == 0
    then (s, record { kind = sample_none; consecutive = 0; suppressed = 0 })
    else (
      record s { consecutive = 0; suppressed = 0 },
      record { kind = sample_recovery; consecutive = s.consecutive; suppressed = s.suppressed },
    )

pub reset : Sampler → Sampler
reset s = record s { consecutive = 0; suppressed = 0 }

pub data Event : Type 0 where
  fails recovers : Event

pub step : Sampler → Event → Sampler × Sample
step s fails = failure s
step s recovers = recovery s

pub run : Sampler → List Event → Sampler × List Sample
run s [] = (s, [])
run s (e ∷ es) =
    let (s', sample) = step s e in let (s'', samples) = run s' es in (s'', sample ∷ samples)
