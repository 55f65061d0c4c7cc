-- ===== src/Worker/Delays.antt =====
-- When a failed message is tried again: `nextAttemptAt` of src/worker/message-worker.ts.
use minori.Common.{ℕ, zero, suc, ◌-◌, ◌+◌, ◌^◌, ◌≤◌, ◌≡◌, arith, max}
use minori.Domain.{Time}
use minori.Events.{EventStoreOptions}
use minori.Events.Settle.{retry_at}
use minori.Worker.{next_attempt_at}

power_pos : (n : ℕ) → 1 ≤ 2 ^ n
power_pos zero = omega arith
power_pos (suc n) = omega (arith, power_pos n)

power_grows : (n : ℕ) → 2 ^ n ≤ 2 ^ suc n
power_grows n = omega arith

power_of_pred : (n : ℕ) → 2 ^ (n - 1) ≤ 2 ^ n
power_of_pred zero = omega arith
power_of_pred (suc n) = let q : suc n - 1 ≡ n = omega arith in rw q (power_grows n)

-- The next attempt is at least 30 seconds and the minimum delay away, and at most five minutes or
-- the minimum delay; and it does not come closer with more attempts.
pub backoff_window :
    (now : Time) (attempts minimum_delay_ms : ℕ)
    → (now + max 30_000 minimum_delay_ms ≤ next_attempt_at now attempts minimum_delay_ms)
      × (next_attempt_at now attempts minimum_delay_ms ≤ now + max 300_000 minimum_delay_ms)
      × (next_attempt_at now attempts minimum_delay_ms
          ≤ next_attempt_at now (suc attempts) minimum_delay_ms)
unfolding next_attempt_at
backoff_window now attempts m =
    let q : suc attempts - 1 ≡ attempts = omega arith in
    (
      ground (arith, power_pos (attempts - 1)),
      ground arith,
      rw q (ground (arith, power_of_pred attempts)),
    )

-- The store moves the time of a next attempt into its own window, if the window is not empty: from
-- the least to the greatest delay after its clock; a time within the window it keeps.
pub retry_window :
    (o : EventStoreOptions) (t now : Time)
    → o.min_retry_delay_ms ≤ o.max_retry_delay_ms
    → (now + o.min_retry_delay_ms ≤ retry_at o t now)
      × (retry_at o t now ≤ now + o.max_retry_delay_ms)
unfolding retry_at
retry_window o t now h = ground arith
