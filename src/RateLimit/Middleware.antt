-- ===== src/RateLimit/Middleware.antt =====
-- `RateLimitMiddleware.dispatch` of rate_limit.py with its tiers. Each call of a counter reads the
-- clock anew: the i-th reading of a request is `clock i`. The lock of the middleware makes one
-- request's calls a single step.
pub mod Laws
pub mod Commit
pub mod Retry
use billcommons.Base.{
  ℕ, ◌+◌, max, String, Bool, true, false, Option, none, some, List, [], ◌∷◌, ltb, leb, not, filter,
  if◌then◌else◌,
}
use billcommons.RateLimit.Counter.{Counter, Verdict, new, default_max_keys, allow, peek}

-- `_RouteTier`
pub record Tier : Type 0 where
  pub ip : Counter
  pub subnet : Counter

unfoldable pub new_tier : ℕ → ℕ → ℕ → Tier
unfolding new
new_tier ip_limit subnet_limit window = record {
  ip = new ip_limit window default_max_keys;
  subnet = new subnet_limit window default_max_keys;
}

pub record Limits : Type 0 where
  pub default : Tier
  pub heavy : Tier

-- The names "default-ip", "heavy-ip", … of a bucket.
pub data Slot : Type 0 where
  default_ip heavy_ip default_subnet heavy_subnet : Slot

unfoldable pub counter_of : Slot → Limits → Counter
counter_of default_ip l = l.default.ip
counter_of heavy_ip l = l.heavy.ip
counter_of default_subnet l = l.default.subnet
counter_of heavy_subnet l = l.heavy.subnet

unfoldable pub put_counter : Slot → Counter → Limits → Limits
put_counter default_ip c l = record l { default = record l.default { ip = c } }
put_counter heavy_ip c l = record l { heavy = record l.heavy { ip = c } }
put_counter default_subnet c l = record l { default = record l.default { subnet = c } }
put_counter heavy_subnet c l = record l { heavy = record l.heavy { subnet = c } }

-- `quota_bucket(ip)` and `subnet_bucket(ip)` of the caller
pub record Keys : Type 0 where
  pub ip_key : String
  pub subnet_key : String

abbrev pub key_of : Slot → Keys → String
key_of default_ip k = k.ip_key
key_of heavy_ip k = k.ip_key
key_of default_subnet k = k.subnet_key
key_of heavy_subnet k = k.subnet_key

-- `_tiers_for`, in the order in which `dispatch` asks: the per-IP tiers, then the subnet tiers.
abbrev pub slots_for : Bool → List Slot
slots_for true = default_ip ∷ heavy_ip ∷ default_subnet ∷ heavy_subnet ∷ []
slots_for false = default_ip ∷ default_subnet ∷ []

pub record BucketResult : Type 0 where
  pub slot : Slot
  pub answer : Verdict

-- The list comprehensions: one call for each bucket, at the next reading of the clock.
unfoldable pub ask_all :
    (ℕ → String → Counter → Counter × Verdict)
    → (ℕ → ℕ)
    → ℕ
    → Keys
    → List Slot
    → Limits
    → Limits × List BucketResult
ask_all hit clock i keys [] l = (l, [])
ask_all hit clock i keys (s ∷ ss) l =
    let (c, v) = hit (clock i) (key_of s keys) (counter_of s l) in
    let (l', rs) = ask_all hit clock (i + 1) keys ss (put_counter s c l) in
    (l', record { slot = s; answer = v } ∷ rs)

abbrev pub is_failed : BucketResult → Bool
is_failed r = not r.answer.allowed

-- max(r[5] for r in failed)
abbrev pub longest_reset : List BucketResult → ℕ
longest_reset [] = 0
longest_reset (r ∷ rs) = max r.answer.reset_in (longest_reset rs)

-- max(failed, key=retry_after): the first of the greatest
abbrev pub longest_retry : BucketResult → List BucketResult → BucketResult
longest_retry best [] = best
longest_retry best (r ∷ rs) =
    longest_retry (if ltb best.answer.retry_after r.answer.retry_after then r else best) rs

unfoldable pub bind_failed : List BucketResult → ℕ × Option BucketResult
bind_failed [] = (0, none)
bind_failed (r ∷ rs) = (longest_reset (r ∷ rs), some (longest_retry r rs))

unfoldable pub retry_after_and_binding : List BucketResult → ℕ × Option BucketResult
unfolding bind_failed
retry_after_and_binding results = bind_failed (filter is_failed results)

-- min(results, key=remaining): the first of the least
abbrev pub least_remaining : BucketResult → List BucketResult → BucketResult
least_remaining best [] = best
least_remaining best (r ∷ rs) =
    least_remaining (if ltb r.answer.remaining best.answer.remaining then r else best) rs

-- The headers X-RateLimit-Limit, -Remaining, -Reset
pub record Headers : Type 0 where
  pub limit : ℕ
  pub remaining : ℕ
  pub reset : ℕ

-- `refused` is the 429 with its Retry-After; `passed` goes on to the handler.
pub data Reply : Type 0 where
  refused : ℕ → Headers → Reply
  passed : List BucketResult → Headers → Reply
  unmetered : Reply

unfoldable pub headers_of : Limits → BucketResult → ℕ → ℕ → Headers
unfolding counter_of
headers_of l r remaining reset = record {
  limit = (counter_of r.slot l).limit;
  remaining = remaining;
  reset = reset;
}

unfoldable pub reply_passed : Limits → List BucketResult → Reply
reply_passed l [] = Reply.unmetered
reply_passed l (r ∷ rs) =
    let b = least_remaining r rs in
    Reply.passed (r ∷ rs) (headers_of l b b.answer.remaining b.answer.reset_in)

-- Every bucket is peeked at; only if all of them would admit the request is any of them charged.
unfoldable pub check_all : (ℕ → ℕ) → Keys → Bool → Limits → Limits × Reply
check_all clock keys heavy l =
    let (peeked, results) = ask_all peek clock 0 keys (slots_for heavy) l in
    let (retry_after, binding) = retry_after_and_binding results in
    elim binding [
      | some b ↦ (peeked, Reply.refused retry_after (headers_of peeked b 0 retry_after))
      | none ↦
          let (charged, committed) = ask_all allow clock 4 keys (slots_for heavy) peeked in
          (charged, reply_passed charged committed)
    ]

-- `exempt`: an exempt path, or a trusted client
unfoldable pub dispatch : (ℕ → ℕ) → Keys → Bool → Bool → Limits → Limits × Reply
dispatch clock keys exempt heavy l =
    if exempt then (l, Reply.unmetered) else check_all clock keys heavy l
