-- ===== src/TokenBucket.antt =====
-- apps/mcp/billcommons_mcp/rate_limit.py: the limiter of the MCP server, a token bucket for each
-- address. A clock reading is whole nanoseconds. Tokens are counted in parts of which 60 * 10^9 are
-- one token, so that `elapsed * rate` is the elapsed nanoseconds times `per_minute`, a whole number.
pub mod Bounds
pub mod Retry
mod Examples
use billcommons.Base.{
  ℕ, ◌+◌, ◌-◌, ◌*◌, ◌/◌, min, max, String, Bool, true, false, Option, none, some, List, [], ◌∷◌,
  ltb, leb, ◌==◌, length, if◌then◌else◌,
}
use billcommons.Base.Dict
use billcommons.Base.Dict.{Dict}

abbrev pub token : ℕ
token = 60000000000

abbrev pub default_per_minute : ℕ
default_per_minute = 30

abbrev pub default_burst : ℕ
default_burst = 10

pub record TokenBucket : Type 0 where
  pub capacity : ℕ
  pub rate : ℕ
  pub tokens : ℕ
  pub last_refill : ℕ

unfoldable pub new_bucket : ℕ → ℕ → ℕ → TokenBucket
new_bucket capacity rate now = record {
  capacity = capacity;
  rate = rate;
  tokens = capacity;
  last_refill = now;
}

-- The answer: whether the request is allowed, and the tokens that are missing.
unfoldable pub try_consume : ℕ → ℕ → TokenBucket → TokenBucket × Bool × ℕ
try_consume amount now b =
    let tokens = min b.capacity (b.tokens + (now - b.last_refill) * b.rate) in
    if leb amount tokens
    then (record b { tokens = tokens - amount; last_refill = now }, true, 0)
    else (record b { tokens = tokens; last_refill = now }, false, amount - tokens)

-- max(1, int(retry_after) + 1), where retry_after is deficit / rate, or 1.0 without a rate
unfoldable pub retry_after_header : ℕ → ℕ → ℕ
retry_after_header rate deficit = if rate == 0 then 2 else max 1 (deficit / (rate * 1000000000) + 1)

pub record RateLimiter : Type 0 where
  pub per_minute : ℕ
  pub burst : ℕ
  pub max_tracked_ips : ℕ
  pub buckets : Dict TokenBucket

unfoldable pub new_limiter : ℕ → ℕ → RateLimiter
new_limiter per_minute burst = record {
  per_minute = per_minute;
  burst = burst;
  max_tracked_ips = 50000;
  buckets = [];
}

-- self._buckets.pop(next(iter(self._buckets)))
abbrev pub pop_first : Dict TokenBucket → Dict TokenBucket
pop_first [] = []
pop_first (e ∷ d) = d

unfoldable pub make_room : RateLimiter → Dict TokenBucket
make_room l = if leb l.max_tracked_ips (length l.buckets) then pop_first l.buckets else l.buckets

-- `self._buckets.get(client_ip)`, or a new bucket that is stored
unfoldable pub bucket_of : ℕ → Option TokenBucket → RateLimiter → TokenBucket × Dict TokenBucket
bucket_of now (some b) l = (b, l.buckets)
bucket_of now none l = (new_bucket ((l.per_minute + l.burst) * token) l.per_minute now, make_room l)

-- `created` and `now` are the two readings of the clock.
unfoldable pub check : ℕ → ℕ → String → RateLimiter → RateLimiter × Bool × ℕ
check created now client_ip l =
    let (b, buckets) = bucket_of created (Dict.get client_ip l.buckets) l in
    let (b', allowed, deficit) = try_consume token now b in
    (record l { buckets = Dict.set client_ip b' buckets }, allowed, deficit)
