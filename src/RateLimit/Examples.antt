-- ===== src/RateLimit/Examples.antt =====
-- The limiter's theorems at concrete inputs, and tests.
use billcommons.Base.{ℕ, ◌≡◌, ◌≢◌, refl, true, false, some, List, [], ◌∷◌, arith, min, ◌-◌}
use billcommons.Base.Dict
use billcommons.Base.Dict.{Dict, IsUnique}
use billcommons.RateLimit.Counter.{
  Bucket, Counter, allow, peek, existing, sweep, ensure_capacity_for_new_key, verdict,
}
use billcommons.RateLimit.Counter.Invariant.{IsValid}
use billcommons.RateLimit.Counter.Admission.{Hits, admitted, hits_of, admitted_exact}
use billcommons.RateLimit.Middleware.{
  Limits, Keys, Headers, default_ip, default_subnet, refused, passed, counter_of, check_all,
  ask_all, retry_after_and_binding, reply_passed, headers_of, BucketResult, put_counter,
}
use billcommons.RateLimit.Middleware.Laws.{AllUnique, refused_spends_nothing}
use billcommons.RateLimit.Middleware.Retry.{AllReady, retry_not_refused}

abbrev minute : ℕ
minute = 60000000000

-- Two hits a minute, of which "a" has used `n`.
abbrev used : ℕ → Counter
used n = record {
  limit = 2;
  window = minute;
  max_keys = 9;
  buckets = ("a", record { start = 0; count = n }) ∷ [];
  last_sweep = 0;
}

abbrev busy : Counter
busy = used 2

abbrev one_left : Counter
one_left = used 1

busy-IsUnique : IsUnique busy.buckets
unfolding Dict.get
busy-IsUnique = (refl, tt)

busy-IsValid : IsValid 0 busy
unfolding Dict.get
busy-IsValid = record {
  unique = busy-IsUnique;
  bounded = omega arith;
  started = λ k b h. ground arith;
}

busy_refuses : (peek 0 "a" busy).1.allowed ≡ false
unfolding peek sweep existing verdict Dict.get
busy_refuses = refl

one_left-IsUnique : IsUnique one_left.buckets
unfolding Dict.get
one_left-IsUnique = (refl, tt)

one_left-existing : existing 0 "a" one_left ≡ some (record { start = 0; count = 1 })
unfolding existing Dict.get
one_left-existing = refl

abbrev hits : Hits
hits = (1, "a") ∷ (2, "b") ∷ (2, "a") ∷ []

admitted_exact_example : admitted "a" one_left hits ≡ min (2 - 1) (hits_of "a" hits)
admitted_exact_example =
    admitted_exact 0 "a" one_left 0 1 hits one_left-IsUnique one_left-existing (omega arith)
      (omega arith)

abbrev crowd : Dict Bucket
crowd = ("new", record { start = 9; count = 1 }) ∷ ("old", record { start = 3; count = 5 }) ∷ []

crowd-IsUnique : IsUnique crowd
unfolding Dict.get
crowd-IsUnique = (refl, (refl, tt))

abbrev limits_with : Counter → Limits
limits_with c = record {
  default = record { ip = c; subnet = one_left };
  heavy = record { ip = one_left; subnet = one_left };
}

abbrev caller : Keys
caller = record { ip_key = "a"; subnet_key = "n" }

abbrev steady : ℕ → ℕ
steady i = 5

abbrev next_minute : ℕ → ℕ
next_minute i = 65000000000

busy-AllUnique : AllUnique (limits_with busy)
unfolding counter_of
busy-AllUnique default_ip = busy-IsUnique
busy-AllUnique _ = one_left-IsUnique

one_left-AllUnique : AllUnique (limits_with one_left)
unfolding counter_of
one_left-AllUnique default_ip = one_left-IsUnique
one_left-AllUnique _ = one_left-IsUnique

abbrev busy_headers : Headers
busy_headers = record { limit = 2; remaining = 0; reset = 60 }

busy_refused : (check_all steady caller false (limits_with busy)).1 ≡ refused 60 busy_headers
unfolding check_all ask_all counter_of put_counter retry_after_and_binding headers_of peek sweep
    existing verdict Dict.get
busy_refused = refl

refused_spends_nothing_example :
    existing 9 "a" (counter_of default_subnet (check_all steady caller false (limits_with busy)).0)
    ≡ existing 9 "a" (counter_of default_subnet (limits_with busy))
refused_spends_nothing_example =
    refused_spends_nothing steady (λ i j le. omega arith) caller false (limits_with busy)
      busy-AllUnique 60 busy_headers busy_refused default_subnet "a" 9 (omega arith)

abbrev answers : List BucketResult
answers =
    record {
      slot = default_ip;
      answer = record { allowed = true; retry_after = 0; remaining = 0; reset_in = 60 };
    }
    ∷ record {
      slot = default_subnet;
      answer = record { allowed = true; retry_after = 0; remaining = 1; reset_in = 60 };
    }
    ∷ []

one_left_passed :
    (check_all steady caller false (limits_with one_left)).1
    ≡ passed answers (record { limit = 2; remaining = 0; reset = 60 })
unfolding check_all ask_all counter_of put_counter retry_after_and_binding reply_passed headers_of
    allow peek sweep existing verdict ensure_capacity_for_new_key Dict.get Dict.set
one_left_passed = refl

used-IsValid : (n : ℕ) → IsValid 5 (used n)
unfolding Dict.get
used-IsValid n = record {
  unique = (refl, tt);
  bounded = omega arith;
  started = λ k b h. ground arith;
}

busy-AllReady : AllReady (steady 0) (limits_with busy)
unfolding counter_of
busy-AllReady default_ip = record { valid = used-IsValid 2; positive = omega arith }
busy-AllReady _ = record { valid = used-IsValid 1; positive = omega arith }

retry_not_refused_example :
    (check_all next_minute caller false (check_all steady caller false (limits_with busy)).0).1
    ≢ refused 60 busy_headers
retry_not_refused_example =
    retry_not_refused steady next_minute (λ i j le. omega arith) (λ i j le. omega arith) caller
      (limits_with busy) busy-AllReady 60 (omega arith) false busy_headers busy_refused 60
      busy_headers
