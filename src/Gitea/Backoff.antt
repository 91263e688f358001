-- ===== src/Gitea/Backoff.antt =====
-- `retryAt` of apps/worker/src/gitea/sync.ts: when a sync that failed is tried again.
use code_host.Prelude.{ℕ, zero, suc, ◌-◌, ◌^◌, ◌≤◌, min, arith}
use code_host.Gitea.Publisher.{retry_delay}

power_mono : (m n : ℕ) → m ≤ n → 2 ^ m ≤ 2 ^ n
power_mono zero zero h = ground arith
power_mono (suc m) zero h = ground arith
power_mono zero (suc n) h = ground (arith, power_mono zero n)
power_mono (suc m) (suc n) h = ground (arith, power_mono m n)

-- A sync that failed is tried again after at least five seconds and at most five minutes, and no sooner
-- after more attempts.
pub retry_delay-bounds :
    (attempts more : ℕ)
    → attempts ≤ more
    → (5000 ≤ retry_delay attempts)
      × (retry_delay attempts ≤ retry_delay more)
      × (retry_delay more ≤ 300000)
unfolding retry_delay
retry_delay-bounds attempts more h =
    let base = power_mono 0 (min 6 (attempts - 1)) in
    let step = power_mono (min 6 (attempts - 1)) (min 6 (more - 1)) in
    (ground (arith, base), ground (arith, step), ground arith)
