-- ===== src/TokenBucket/Bounds.antt =====
-- How much a bucket admits, and when it admits again.
use native.Mathlib.Nat.{add-mul}
use billcommons.Base.{
  ℕ, suc, ◌+◌, ◌-◌, ◌*◌, ◌≤◌, ◌<◌, min, ◌≡◌, refl, ap, subst, sym, ◌∙◌, String, Bool, true, false,
  Option, none, some, List, [], ◌∷◌, leb, if◌then◌else◌, if_induction, arith, length,
}
use billcommons.Base.Dict
use billcommons.Base.Dict.{Dict, length-set, length-set_old}
use billcommons.TokenBucket.{
  TokenBucket, RateLimiter, token, try_consume, pop_first, make_room, bucket_of, check,
}

-- The hits are read off a clock that does not go back.
abbrev pub Forward : ℕ → List ℕ → Type 0
Forward t [] = Unit
Forward t (u ∷ us) = (t ≤ u) × Forward u us

-- The number of the hits that are allowed, and the bucket behind them.
abbrev pub hit_all : List ℕ → TokenBucket → TokenBucket × ℕ
hit_all [] b = (b, 0)
hit_all (t ∷ ts) b =
    let (b', allowed, deficit) = try_consume token t b in
    let (b'', n) = hit_all ts b' in (b'', if allowed then suc n else n)

refill_split : (a b c r : ℕ) → a ≤ b → b ≤ c → (c - a) * r ≡ (b - a) * r + (c - b) * r
refill_split a b c r h k = ap (λ n. n * r) (omega (arith, h, k)) ∙ add-mul (b - a) (c - b) r

-- What one hit does to a bucket.
pub record Kept (t : ℕ) (b b' : TokenBucket) (spent : ℕ) : Type 0 where
  pub rate : b'.rate ≡ b.rate
  pub capacity : b'.capacity ≡ b.capacity
  pub time : b'.last_refill ≡ t
  pub account : b'.tokens + spent ≤ b.tokens + (t - b.last_refill) * b.rate
  pub full : b'.tokens ≤ b.capacity

try_consume-Kept :
    (amount t : ℕ) (b : TokenBucket)
    → Kept t b (try_consume amount t b).0 (if (try_consume amount t b).1 then amount else 0)
unfolding try_consume
try_consume-Kept amount t b =
    let tokens = min b.capacity (b.tokens + (t - b.last_refill) * b.rate) in
    if_induction (λ (p : TokenBucket × Bool × ℕ). Kept t b p.0 (if p.1 then amount else 0))
      (leb amount tokens)
      (λ enough. record {
        rate = refl;
        capacity = refl;
        time = refl;
        account = ground (arith, enough);
        full = omega arith;
      })
      λ short. record {
        rate = refl;
        capacity = refl;
        time = refl;
        account = omega arith;
        full = omega arith;
      }

-- What a list of hits does to a bucket.
pub record Account (b b' : TokenBucket) (n : ℕ) : Type 0 where
  pub time : b.last_refill ≤ b'.last_refill
  pub account : n * token + b'.tokens ≤ b.tokens + (b'.last_refill - b.last_refill) * b.rate

charge :
    (allowed : Bool) (n : ℕ)
    → (if allowed then suc n else n) * token ≡ (if allowed then token else 0) + n * token
charge true n = omega arith
charge false n = omega arith

Account-step :
    (t : ℕ) (b b' b'' : TokenBucket) (allowed : Bool) (n : ℕ)
    → b.last_refill ≤ t
    → Kept t b b' (if allowed then token else 0)
    → Account b' b'' n
    → Account b b'' (if allowed then suc n else n)
Account-step t b b' b'' allowed n le k a =
    let times : t ≤ b''.last_refill = omega (arith, a.time, k.time) in
    let later : (b''.last_refill - b'.last_refill) * b'.rate ≡ (b''.last_refill - t) * b.rate =
      ap (λ x. (b''.last_refill - x) * b'.rate) k.time
      ∙ ap (λ x. (b''.last_refill - t) * x) k.rate in
    record {
      time = omega (arith, times);
      account = omega (
        arith,
        charge allowed n,
        k.account,
        a.account,
        later,
        refill_split b.last_refill t b''.last_refill b.rate le times,
      );
    }

hit_all-Account :
    (ts : List ℕ) (b : TokenBucket)
    → Forward b.last_refill ts
    → Account b (hit_all ts b).0 (hit_all ts b).1
hit_all-Account [] b f = record { time = omega arith; account = omega arith }
hit_all-Account (t ∷ ts) b f =
    let k = try_consume-Kept token t b in
    Account-step t b (try_consume token t b).0 (hit_all ts (try_consume token t b).0).0
      (try_consume token t b).1 (hit_all ts (try_consume token t b).0).1 f.0 k
      (hit_all-Account ts (try_consume token t b).0 (subst (λ x. Forward x ts) (sym k.time) f.1))

-- On a clock that does not go back the requests that a token bucket admits cost at most what it
-- held and what has flowed in meanwhile.
pub hit_all-bounded :
    (ts : List ℕ) (b : TokenBucket)
    → Forward b.last_refill ts
    → (hit_all ts b).1 * token ≤ b.tokens + ((hit_all ts b).0.last_refill - b.last_refill) * b.rate
hit_all-bounded ts b f = omega (arith, (hit_all-Account ts b f).account)

length-pop_first : (d : Dict TokenBucket) → length (pop_first d) ≤ length d - 1
length-pop_first [] = omega arith
length-pop_first (e ∷ d) = omega arith

length-bucket_of :
    (now : ℕ) (o : Option TokenBucket) (l : RateLimiter) (ip : String)
    → Dict.get ip l.buckets ≡ o
    → 0 < l.max_tracked_ips
    → length l.buckets ≤ l.max_tracked_ips
    → (b : TokenBucket) → length (Dict.set ip b (bucket_of now o l).1) ≤ l.max_tracked_ips
unfolding bucket_of make_room
length-bucket_of now (some old) l ip known pos h b =
    omega (arith, h, length-set_old {0} ip b old l.buckets known)
length-bucket_of now none l ip unknown pos h b =
    if_induction (λ d. length (Dict.set ip b d) ≤ l.max_tracked_ips)
      (leb l.max_tracked_ips (length l.buckets))
      (λ _.
        omega
          (arith, h, pos, length-set {0} ip b (pop_first l.buckets), length-pop_first l.buckets))
      λ room. omega (arith, less_of room, length-set {0} ip b l.buckets)
  where
    less_of :
        leb l.max_tracked_ips (length l.buckets) ≡ false → length l.buckets < l.max_tracked_ips
    less_of e = ground (arith, e)

-- The limiter never tracks more addresses than its cap, whatever addresses ask.
pub length-check :
    (created now : ℕ) (ip : String) (l : RateLimiter)
    → 0 < l.max_tracked_ips
    → length l.buckets ≤ l.max_tracked_ips
    → length (check created now ip l).0.buckets ≤ (check created now ip l).0.max_tracked_ips
unfolding check
length-check created now ip l pos h =
    length-bucket_of created (Dict.get ip l.buckets) l ip refl pos h
      (try_consume token now (bucket_of created (Dict.get ip l.buckets) l).0).0
