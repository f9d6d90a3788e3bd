-- ===== src/Retry/Backoff.antt =====
-- internal/retry/retry.go: Policy, Backoff, jitter and scaleDuration.
-- Durations are nanoseconds. A configured duration may be negative (ℤ); `new_backoff` leaves
-- positive ones only, which are kept as numbers whose 64-bit wrap-around is written out.
-- The draw of `Random` is an argument of `failure`.
pub mod Growth
pub mod Jitter
pub mod Bounds
use lofi_bot.Prelude.{
  ℕ, zero, suc, ◌+◌, ◌-◌, ◌*◌, ◌/◌, ◌%◌, ◌^◌, ◌≤◌, ◌<◌, ◌||◌, ltb, leb, ◌==◌, if◌then◌else◌,
}
use lofi_bot.Prelude.Int.{ℤ, pos, negsuc}

abbrev pub max_int64 : ℕ
max_int64 = 2 ^ 63 - 1

abbrev pub max_uint64 : ℕ
max_uint64 = 2 ^ 64 - 1

abbrev pub default_initial : ℕ
default_initial = 1000000000

pub record Policy (Duration : Type 0) : Type 0 where
  pub initial : Duration
  pub max : Duration
  pub provider_hint_max : Duration
  pub jitter_percent : ℕ

pub record Backoff : Type 0 where
  pub policy : Policy ℕ
  pub open policy use *
  pub failures : ℕ

pub record Attempt : Type 0 where
  pub delay : ℕ
  pub consecutive : ℕ

unfoldable pub saturating_increment : ℕ → ℕ
saturating_increment value = if value == max_uint64 then value else (value + 1) % 2 ^ 64

positive_or : ℕ → ℤ → ℕ
positive_or default (pos zero) = default
positive_or default (pos (suc n)) = suc n
positive_or default (negsuc n) = default

at_least : ℕ → ℤ → ℕ
at_least low (pos n) = if ltb n low then low else n
at_least low (negsuc n) = low

pub new_backoff : Policy ℤ → Backoff
unfolding positive_or at_least
new_backoff policy =
    let initial = positive_or default_initial policy.initial in
    let max = at_least initial policy.max in
    record {
      policy = record {
        initial = initial;
        max = max;
        provider_hint_max = at_least max policy.provider_hint_max;
        jitter_percent = if ltb 100 policy.jitter_percent then 100 else policy.jitter_percent;
      };
      failures = 0;
    }

-- The loop of `Failure`; the first argument is the number of rounds left.
pub grow : ℕ → ℕ → ℕ → ℕ
grow zero base max = base
grow (suc rounds) base max =
    let rest = grow rounds (base * 2 % 2 ^ 64) max in
    if ltb base max then if ltb (max / 2) base then max else rest else base

pub scale_duration : ℕ → ℕ → ℕ → ℕ
scale_duration value numerator denominator =
    let high = value * numerator / 2 ^ 64 in
    let low = value * numerator % 2 ^ 64 in
    let scaled = (high * 2 ^ 64 + low) / denominator in
    if value == 0 || (numerator == 0 || denominator == 0)
    then 0
    else if leb denominator high
    then max_int64
    else if ltb max_int64 scaled
    then max_int64
    else scaled

-- The random offset of `jitter`, from the draw.
pub jitter_offset : ℕ → ℕ → ℕ
jitter_offset span draw =
    let width = span * 2 % 2 ^ 64 in if width == max_uint64 then draw else draw % (width + 1)

pub jitter : ℕ → ℕ → ℕ → ℕ → ℕ
jitter base max percent draw =
    let span = scale_duration base percent 100 in
    let lower = base - span in
    let offset = jitter_offset span draw in
    if percent == 0 || leb base 1
    then base
    else if span == 0
    then base
    else if leb (max - lower) offset
    then max
    else lower + offset

-- A negative hint is below every delay, as 0 is.
capped_hint : ℕ → ℤ → ℕ
capped_hint limit (pos hint) = if ltb limit hint then limit else hint
capped_hint limit (negsuc n) = 0

pub next_base : Backoff → ℕ
unfolding grow
next_base b = let base = grow b.failures b.initial b.max in if ltb b.max base then b.max else base

pub failure : Backoff → ℤ → ℕ → Backoff × Attempt
unfolding next_base capped_hint
failure b provider_hint draw =
    let delay = jitter (next_base b) b.max b.jitter_percent draw in
    let hint = capped_hint b.provider_hint_max provider_hint in
    let failures = saturating_increment b.failures in
    (
      record b { failures = failures },
      record { delay = if ltb delay hint then hint else delay; consecutive = failures },
    )

pub reset : Backoff → Backoff × ℕ
reset b = (record b { failures = 0 }, b.failures)

-- What `new_backoff` establishes, with every duration an int64 and the counter a uint64.
pub record IsNormal (b : Backoff) : Type 0 where
  pub initial_pos : 0 < b.initial
  pub initial_le_max : b.initial ≤ b.max
  pub max_le_hint : b.max ≤ b.provider_hint_max
  pub hint_fits : b.provider_hint_max ≤ max_int64
  pub percent_le : b.jitter_percent ≤ 100
  pub failures_fit : b.failures ≤ max_uint64

-- The smaller of two numbers.
abbrev pub capped_at : ℕ → ℕ → ℕ
capped_at limit n = if ltb limit n then limit else n
