-- ===== src/RateLimit/Counter/Invariant.antt =====
-- What holds of a counter between two calls.
use billcommons.Base.{ℕ, ◌≤◌, ◌<◌, String, ◌≡◌, refl, Option, none, some, arith, length, take}
use billcommons.Base.Dict
use billcommons.Base.Dict.{Dict, IsUnique, get-keep, get-set, get-del_all}
use billcommons.RateLimit.Counter.{
  Bucket, Counter, in_window, existing, sweep, ensure_capacity_for_new_key, make_room, bumped,
  allow, peek, new, evict_oldest, reclaimed, evict_count, oldest_first,
}
use billcommons.RateLimit.Counter.Verdicts.{sweep-IsUnique}
use billcommons.RateLimit.Counter.Charges.{
  allow-IsUnique, length-allow, allow-SameLimits, sweep-SameLimits, length-sweep,
}

abbrev Started : ℕ → Dict Bucket → Type 0
Started now d = (k : String) (b : Bucket) → Dict.get k d ≡ some b → b.start ≤ now

-- Every key stands once, there are at most `max_keys`, and no window starts after the last reading.
pub record IsValid (now : ℕ) (c : Counter) : Type 0 where
  pub unique : IsUnique c.buckets
  pub bounded : length c.buckets ≤ c.max_keys
  pub started : (k : String) (b : Bucket) → Dict.get k c.buckets ≡ some b → b.start ≤ now

pub new-IsValid : (limit window max_keys : ℕ) → IsValid 0 (new limit window max_keys)
unfolding new Dict.get
new-IsValid limit window max_keys = record {
  unique = tt;
  bounded = omega arith;
  started = λ k b h. cc;
}

module _ (now : ℕ) (c : Counter) (u : IsUnique c.buckets) (k : String) (b : Bucket) where
  get-sweep : Dict.get k (sweep now c).buckets ≡ some b → Dict.get k c.buckets ≡ some b
  unfolding sweep
  get-sweep h = ground (arith, get-keep (in_window c.window now) k c.buckets u)

get-reclaimed :
    (m : ℕ) (d : Dict Bucket) (k : String) (b : Bucket)
    → Dict.get k (reclaimed m d) ≡ some b
    → Dict.get k d ≡ some b
unfolding reclaimed evict_oldest
get-reclaimed m d k b h =
    ground (arith, get-del_all k (take (evict_count (length d)) (oldest_first d)) d)

module _ (now : ℕ) (c : Counter) (u : IsUnique c.buckets) (k : String) (b : Bucket) where
  get-ensure_capacity :
      Dict.get k (ensure_capacity_for_new_key now c).buckets ≡ some b
      → Dict.get k c.buckets ≡ some b
  unfolding ensure_capacity_for_new_key
  get-ensure_capacity h = ground (
    arith,
    get-reclaimed c.max_keys (Dict.keep (in_window c.window now) c.buckets) k b,
    get-keep (in_window c.window now) k c.buckets u,
  )

Started-bumped :
    (t : ℕ) (key : String) (c : Counter)
    → Started t c.buckets
    → (o : Option Bucket) → existing t key c ≡ o
    → (bumped t o).start ≤ t
unfolding existing
Started-bumped t key c st none e = omega arith
Started-bumped t key c st (some b) e = ground (arith, st key b)

Started-make_room :
    (t : ℕ) (c : Counter)
    → IsUnique c.buckets
    → Started t c.buckets
    → (o : Option Bucket) → Started t (make_room t o c).buckets
unfolding make_room
Started-make_room t c u st none k b h = st k b (get-ensure_capacity t c u k b h)
Started-make_room t c u st (some a) k b h = st k b h

Started-set :
    (t : ℕ) (key : String) (a : Bucket) (d : Dict Bucket)
    → a.start ≤ t
    → Started t d
    → Started t (Dict.set key a d)
Started-set t key a d le st k b h = ground (arith, get-set key k a d, st k b)

module _ {now t : ℕ} (later : now ≤ t) (key : String) (c : Counter) (v : IsValid now c) where
  Started-allow : Started t (allow t key c).0.buckets
  unfolding allow
  Started-allow =
      let s = sweep t c in
      let old = existing t key s in
      let unique = sweep-IsUnique t c v.unique in
      let st : Started t s.buckets =
        λ k b h. omega (arith, v.started k b (get-sweep t c v.unique k b h)) in
      Started-set t key (bumped t old) (make_room t old s).buckets
        (Started-bumped t key s st old refl) (Started-make_room t s unique st old)

  -- Every hit keeps a counter valid: the number of tracked keys never passes `max_keys`.
  pub allow-IsValid : 0 < c.max_keys → IsValid t (allow t key c).0
  allow-IsValid pos = record {
    unique = allow-IsUnique t key c v.unique;
    bounded =
        omega (arith, length-allow t key c pos v.bounded, (allow-SameLimits t key c).max_keys);
    started = Started-allow;
  }

  pub peek-IsValid : IsValid t (peek t key c).0
  unfolding peek
  peek-IsValid = record {
    unique = sweep-IsUnique t c v.unique;
    bounded = omega (arith, length-sweep t c, v.bounded, (sweep-SameLimits t c).max_keys);
    started = λ k b h. omega (arith, v.started k b (get-sweep t c v.unique k b h));
  }
