-- ===== src/Sync/Tracker/Backoff.antt =====
-- `backoffFor`: the delay doubles with every failed attempt, up to a limit.
use jitong_app.Base.{times-pow-suc, le-times-pow, ℕ, zero, suc, ◌-◌, ◌*◌, ◌^◌, min, ◌≡◌, arith}
use jitong_app.Sync.Tracker.{Config, backoff_loop, backoff_for}

pub backoff_loop-min : (n limit v : ℕ) → min (backoff_loop n limit v) limit ≡ min (v * 2 ^ n) limit
unfolding backoff_loop
backoff_loop-min zero limit v = ground arith
backoff_loop-min (suc n) limit v =
    ground (arith, times-pow-suc v n, le-times-pow v (suc n), backoff_loop-min n limit (v * 2))

-- The delay before attempt n, for every n, is the base delay doubled n - 1 times (0 times at
-- n = 0), cut off at the limit.
pub backoff_for_exact :
    (c : Config) (n : ℕ) → backoff_for c n ≡ min (c.base_backoff * 2 ^ (n - 1)) c.max_backoff
unfolding backoff_for
backoff_for_exact c n = backoff_loop-min (n - 1) c.max_backoff c.base_backoff
