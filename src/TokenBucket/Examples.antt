-- ===== src/TokenBucket/Examples.antt =====
-- The token bucket at concrete hits.
use billcommons.Base.{◌+◌, ◌-◌, ◌*◌, ◌≤◌, ◌≡◌, refl, true, false, [], ◌∷◌, arith}
use billcommons.TokenBucket.{TokenBucket, RateLimiter, token, try_consume, retry_after_header}
use billcommons.TokenBucket.Bounds.{hit_all, hit_all-bounded}
use billcommons.TokenBucket.Retry.{retry_after_header-enough}

-- 30 tokens a minute, and one token left.
abbrev nearly_spent : TokenBucket
nearly_spent = record { capacity = 40 * token; rate = 30; tokens = token; last_refill = 0 }

abbrev spent : TokenBucket
spent = record { capacity = 40 * token; rate = 30; tokens = 0; last_refill = 0 }

hit_all-bounded_example :
    (hit_all (5 ∷ 6 ∷ 7 ∷ []) nearly_spent).1 * token
    ≤ token + ((hit_all (5 ∷ 6 ∷ 7 ∷ []) nearly_spent).0.last_refill - 0) * 30
hit_all-bounded_example =
    hit_all-bounded (5 ∷ 6 ∷ 7 ∷ []) nearly_spent (omega arith, (omega arith, (omega arith, tt)))

is_refused : (try_consume token 1000 spent).1 ≡ false
unfolding try_consume
is_refused = refl

retry_after_header-enough_example :
    (try_consume token
      (1000 + retry_after_header 30 (try_consume token 1000 spent).2 * 1000000000)
      (try_consume token 1000 spent).0).1
    ≡ true
retry_after_header-enough_example =
    retry_after_header-enough 1000 spent (omega arith) (omega arith) is_refused

abbrev tiny : RateLimiter
tiny = record { per_minute = 30; burst = 10; max_tracked_ips = 1; buckets = ("a", spent) ∷ [] }
