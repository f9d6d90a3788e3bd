-- ===== src/Retry/Backoff/Growth.antt =====
-- The exponential growth of the base delay.
use native.Mathlib.Nat.{pow-suc, mul_assoc, mul_comm}
use lofi_bot.Prelude.{ℕ, zero, suc, ◌*◌, ◌%◌, ◌^◌, ◌≤◌, ◌<◌, ◌≡◌, arith}
use lofi_bot.Retry.Backoff.{grow, max_int64, capped_at}

double_pow : (n k : ℕ) → n * 2 ^ suc k ≡ n * 2 * 2 ^ k
double_pow n k = rw (pow-suc 2 k, mul_comm (2 ^ k) 2, ← mul_assoc n 2 (2 ^ k))

pub le-mul_pow : (n k : ℕ) → n ≤ n * 2 ^ k
le-mul_pow n zero = omega arith
le-mul_pow n (suc k) = omega (arith, double_pow n k, le-mul_pow (n * 2) k)

-- Doubling stops at the cap, and never wraps an int64.
pub grow_lem :
    (rounds base max : ℕ)
    → 0 < base
    → base ≤ max
    → max ≤ max_int64
    → grow rounds base max ≡ capped_at max (base * 2 ^ rounds)
unfolding grow
grow_lem zero base max p q r = ground arith
grow_lem (suc k) base max p q r =
    ground (arith, grow_lem k (base * 2 % 2 ^ 64) max, double_pow base k, le-mul_pow (base * 2) k)
