-- ===== src/Notifications/Delivery/Retry.antt =====
-- `_retry_delay`: bounds on when a failed delivery is tried again.
use skybeat.Base.{ℕ, suc, ◌+◌, ◌*◌, ◌^◌, min, ◌≤◌, ◌≡◌, refl, arith}
use skybeat.Store.Rows.{seconds}
use skybeat.Notifications.Delivery.{Jitter, pos, retry_base, retry_delay, retry_max_seconds}

-- No jitter makes a delay longer than the maximum of fifteen minutes.
pub retry_delay-le-max :
    (jitter : Jitter) (n : ℕ) → retry_delay jitter n ≤ seconds retry_max_seconds
unfolding retry_delay
retry_delay-le-max jitter n = omega arith

-- A delivery that has been tried k + 1 times, with a jitter v from 0 to a tenth of its base, as the
-- service draws it by default, waits for its base of 30 seconds doubled k times, or of fifteen
-- minutes if that is less, and for v, but never longer than fifteen minutes: so for its base at
-- least, and for a tenth longer at most.
pub retry_delay_bounds :
    (jitter : Jitter) (k v : ℕ)
    → jitter (min (30 * 2 ^ k) (15 * 60) * 1000000) ≡ pos v
    → v * 10 ≤ min (30 * 2 ^ k) (15 * 60) * 1000000
    → (retry_delay jitter (suc k)
        ≡ min (15 * 60 * 1000000) (min (30 * 2 ^ k) (15 * 60) * 1000000 + v))
      × (min (30 * 2 ^ k) (15 * 60) * 1000000 ≤ retry_delay jitter (suc k))
      × (retry_delay jitter (suc k) * 10 ≤ min (30 * 2 ^ k) (15 * 60) * 1000000 * 11)
      × (retry_delay jitter (suc k) ≤ 15 * 60 * 1000000)
unfolding retry_delay retry_base
retry_delay_bounds jitter k v e h = rw e (refl, omega arith, omega arith, omega arith)
