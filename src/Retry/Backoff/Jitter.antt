-- ===== src/Retry/Backoff/Jitter.antt =====
-- The window in which a jittered delay lies.
use native.Mathlib.Nat.{mul-le-mul_left}
use lofi_bot.Prelude.{ℕ, ◌+◌, ◌-◌, ◌*◌, ◌/◌, ◌≤◌, ◌≡◌, arith}
use lofi_bot.Retry.Backoff.{scale_duration, jitter_offset, jitter, max_int64, max_uint64, capped_at}

percent_le_whole : (value percent : ℕ) → percent ≤ 100 → value * percent ≤ value * 100
percent_le_whole value percent h = mul-le-mul_left value h

-- The 128-bit product and quotient compute the exact percentage.
pub scale_duration_lem :
    (value percent : ℕ)
    → value ≤ max_int64
    → percent ≤ 100
    → scale_duration value percent 100 ≡ value * percent / 100
unfolding scale_duration
scale_duration_lem value percent v p = ground (arith, percent_le_whole value percent)

jitter_offset-le :
    (span draw : ℕ) → span ≤ max_int64 → draw ≤ max_uint64 → jitter_offset span draw ≤ span * 2
unfolding jitter_offset
jitter_offset-le span draw s d = ground arith

-- The jittered delay is within the percentage of the base, and never above the cap.
pub jitter_bounds :
    (base max percent draw : ℕ)
    → base ≤ max
    → max ≤ max_int64
    → percent ≤ 100
    → draw ≤ max_uint64
    → (base - base * percent / 100 ≤ jitter base max percent draw)
      × (jitter base max percent draw ≤ capped_at max (base + base * percent / 100))
unfolding jitter
jitter_bounds base max percent draw b m p d = ground (
  arith,
  scale_duration_lem base percent,
  percent_le_whole base percent,
  jitter_offset-le (base * percent / 100) draw,
)
