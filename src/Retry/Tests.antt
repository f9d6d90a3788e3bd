-- ===== src/Retry/Tests.antt =====
-- Small runs of the retry package: each theorem at a policy and a history like those of the service.
use lofi_bot.Prelude.{◌+◌, ◌-◌, ◌*◌, ◌/◌, ◌^◌, ◌≤◌, ◌≡◌, ◌⊎◌, arith, List, [], ◌∷◌, All, replicate}
use lofi_bot.Prelude.Int.{ℤ, pos, negsuc}
use lofi_bot.Retry.Backoff.{Policy, Backoff, new_backoff, next_base, failure, IsNormal, capped_at}
use lofi_bot.Retry.Backoff.Bounds.{
  Event, fails, resets, run, since_reset, new_backoff-IsNormal, next_base_lem, failure_window,
  run_bounds,
}
use lofi_bot.Retry.Sampler.{Sampler, new_sampler}
use lofi_bot.Retry.Sampler as Sampler
use lofi_bot.Retry.Sampler.Accounting.{told_all, failures_in, told_all-run}
use lofi_bot.Retry.Sampler.Rate.{emitted_all, emitted-burst}

-- A second, doubled up to five minutes, with hints up to ten minutes and a jitter of a fifth.
abbrev policy : Policy ℤ
policy = record {
  initial = pos 1000000000;
  max = pos 300000000000;
  provider_hint_max = pos 600000000000;
  jitter_percent = 20;
}

-- The third failure in a row.
abbrev third : Backoff
third = record {
  policy = record {
    initial = 1000000000;
    max = 300000000000;
    provider_hint_max = 600000000000;
    jitter_percent = 20;
  };
  failures = 2;
}

third-IsNormal : IsNormal third
third-IsNormal = ground arith

new_backoff-IsNormal_example : IsNormal (new_backoff policy)
new_backoff-IsNormal_example = new_backoff-IsNormal policy (ground arith)

next_base_lem_example : next_base third ≡ capped_at 300000000000 (1000000000 * 2 ^ 2)
next_base_lem_example = next_base_lem third third-IsNormal

failure_window_example :
    let base = capped_at 300000000000 (1000000000 * 2 ^ 2) in
    let span = base * 20 / 100 in
    let asked = capped_at 600000000000 5000000000 in
    let delay = (failure third (pos 5000000000) 12345).1.delay in
    (base - span ≤ delay)
    × (asked ≤ delay)
    × ((delay ≤ capped_at 300000000000 (base + span)) ⊎ (delay ≡ asked))
    × (delay ≤ 600000000000)
failure_window_example = failure_window third (pos 5000000000) 12345 third-IsNormal (omega arith)

abbrev history : List Event
history = fails (pos 0) 7 ∷ fails (negsuc 0) 99 ∷ resets ∷ fails (pos 900000000000) 3 ∷ []

run_bounds_example :
    ((run third history).0.policy ≡ third.policy)
    × ((run third history).0.failures ≡ since_reset 2 history)
    × All (λ a. a.delay ≤ 600000000000) (run third history).1
run_bounds_example =
    run_bounds third history third-IsNormal (omega arith, (omega arith, (omega arith, tt)))

abbrev sampler : Sampler
sampler = record { every = 8; consecutive = 0; suppressed = 0 }

abbrev outage : List Sampler.Event
outage = Sampler.fails ∷ Sampler.fails ∷ Sampler.recovers ∷ Sampler.fails ∷ []

told_all-run_example :
    (Sampler.run sampler outage).0.suppressed + told_all (Sampler.run sampler outage).1
    ≡ 0 + failures_in outage
told_all-run_example = told_all-run sampler outage (omega arith) (ground arith)

emitted-burst_example :
    emitted_all (Sampler.run (new_sampler 8) (replicate 20 Sampler.fails)).1 ≡ 1 + 20 / 8
emitted-burst_example = emitted-burst 20 8 (omega arith) (omega arith) (omega arith)
