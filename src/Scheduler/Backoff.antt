-- ===== src/Scheduler/Backoff.antt =====
-- `compute_backoff_seconds` of hermes/scheduler/retry.py: the wait before the Nth retry.
use native.Mathlib.Nat.{pow-suc}
use rsg_hermes.Prelude.{ℕ, zero, suc, ◌-◌, ◌*◌, ◌^◌, ◌≤◌, min, ◌≡◌, arith}

abbrev pub max_attempts : ℕ
max_attempts = 5

abbrev pub backoff_base_seconds : ℕ
backoff_base_seconds = 60

abbrev pub backoff_cap_seconds : ℕ
backoff_cap_seconds = 3600

abbrev pub backoff_factor : ℕ
backoff_factor = 2

-- `-` on ℕ is `max(0, attempt - 1)`.
unfoldable pub compute_backoff_seconds : ℕ → ℕ
compute_backoff_seconds attempt =
    min backoff_cap_seconds (backoff_base_seconds * backoff_factor ^ (attempt - 1))

doubles : (n : ℕ) → 2 ^ suc n ≡ 2 * 2 ^ n
doubles n = omega (arith, pow-suc 2 n)

pow_pos : (n : ℕ) → 1 ≤ 2 ^ n
pow_pos zero = omega arith
pow_pos (suc n) = omega (arith, doubles n, pow_pos n)

-- For every attempt, the wait is at least the base and at most the cap.
pub backoff_bounds :
    (n : ℕ)
    → (backoff_base_seconds ≤ compute_backoff_seconds n)
      × (compute_backoff_seconds n ≤ backoff_cap_seconds)
unfolding compute_backoff_seconds
backoff_bounds n = omega (arith, pow_pos (n - 1))
