-- ===== src/RateLimit/Counter/Charges.antt =====
-- What a hit does to the counts: it charges its own key, and no other.
use billcommons.Base.{
  ℕ, ◌≤◌, ◌<◌, String, ◌≡◌, refl, Option, none, some, arith, subst, length, str_eq, if◌then◌else◌,
}
use native.Mathlib.Nat.{le_refl}
use billcommons.Base.Dict
use billcommons.Base.Dict.{
  IsUnique, get-keep, get-set, keep-IsUnique, del_all-IsUnique, set-IsUnique, length-keep,
  length-set_old, length-set,
}
use billcommons.RateLimit.Counter.{
  Bucket, Counter, in_window, existing, sweep, ensure_capacity_for_new_key, make_room, bumped,
  allow, peek,
}
use billcommons.RateLimit.Counter.Verdicts.{existing-sweep, sweep-IsUnique}
use billcommons.RateLimit.Counter.Eviction.{ensure_capacity-IsUnique, length-ensure_capacity}

-- The configuration of a counter is fixed when it is built.
pub record SameLimits (a b : Counter) : Type 0 where
  pub limit : a.limit ≡ b.limit
  pub window : a.window ≡ b.window
  pub max_keys : a.max_keys ≡ b.max_keys

pub allow-SameLimits : (now : ℕ) (key : String) (c : Counter) → SameLimits (allow now key c).0 c
unfolding allow sweep ensure_capacity_for_new_key
allow-SameLimits now key c = ground arith

pub sweep-SameLimits : (now : ℕ) (c : Counter) → SameLimits (sweep now c) c
unfolding sweep
sweep-SameLimits now c = ground arith

pub existing_lem :
    (t : ℕ) (j : String) (c : Counter)
    → existing t j c ≡ Dict.only (in_window c.window t) (Dict.get j c.buckets)
unfolding existing
existing_lem t j c = refl

pub peek-SameLimits : (now : ℕ) (key : String) (c : Counter) → SameLimits (peek now key c).0 c
unfolding peek sweep
peek-SameLimits now key c = ground arith

pub length-sweep : (now : ℕ) (c : Counter) → length (sweep now c).buckets ≤ length c.buckets
unfolding sweep
length-sweep now c = ground (arith, length-keep (in_window c.window now) c.buckets)

-- With room for one more key nothing is evicted.
pub allow_with_room :
    (now : ℕ) (key : String) (c : Counter)
    → length c.buckets < c.max_keys
    → (allow now key c).0.buckets
      ≡ Dict.set key (bumped now (existing now key (sweep now c))) (sweep now c).buckets
unfolding allow ensure_capacity_for_new_key sweep
allow_with_room now key c room = ground (arith, length-keep (in_window c.window now) c.buckets)

module _ {now t : ℕ} (later : now ≤ t) (key j : String) (c : Counter) (u : IsUnique c.buckets) where
  pub existing-allow :
      length c.buckets < c.max_keys
      → existing t j (allow now key c).0 ≡ (
          if str_eq key j
          then Dict.only (in_window c.window t) (some (bumped now (existing now key c)))
          else existing t j c)
  existing-allow room = ground (
    arith,
    allow_with_room now key c room,
    allow-SameLimits now key c,
    sweep-SameLimits now c,
    get-set key j (bumped now (existing now key (sweep now c))) (sweep now c).buckets,
    existing_lem t j (allow now key c).0,
    existing_lem t j (sweep now c),
    existing-sweep (le_refl now) key c u,
    existing-sweep later j c u,
  )

make_room-IsUnique :
    (now : ℕ) (o : Option Bucket) (c : Counter)
    → IsUnique c.buckets
    → IsUnique (make_room now o c).buckets
unfolding make_room
make_room-IsUnique now none c u = ensure_capacity-IsUnique now c u
make_room-IsUnique now (some b) c u = u

length-set-make_room :
    (now : ℕ) (key : String) (c : Counter) (b : Bucket)
    → 0 < c.max_keys
    → length c.buckets ≤ c.max_keys
    → (o : Option Bucket) → existing now key c ≡ o
    → length (Dict.set key b (make_room now o c).buckets) ≤ c.max_keys
unfolding make_room existing
length-set-make_room now key c b pos fits none e = omega (
  arith,
  length-set key b (ensure_capacity_for_new_key now c).buckets,
  length-ensure_capacity now c pos fits,
)
length-set-make_room now key c b pos fits (some a) e =
    ground (arith, length-set_old key b a c.buckets)

module _ (now : ℕ) (key : String) (c : Counter) where
  pub allow-IsUnique : IsUnique c.buckets → IsUnique (allow now key c).0.buckets
  unfolding allow
  allow-IsUnique u =
      let s = sweep now c in
      let old = existing now key s in
      set-IsUnique key (bumped now old) (make_room now old s).buckets
        (make_room-IsUnique now old s (sweep-IsUnique now c u))

  pub length-allow :
      0 < c.max_keys
      → length c.buckets ≤ c.max_keys
      → length (allow now key c).0.buckets ≤ c.max_keys
  unfolding allow
  length-allow pos fits =
      let s = sweep now c in
      let same = sweep-SameLimits now c in
      subst (λ m. length (allow now key c).0.buckets ≤ m) same.max_keys
        (length-set-make_room now key s (bumped now (existing now key s)) (omega arith)
          (omega (arith, length-sweep now c)) (existing now key s) refl)

module _ (now : ℕ) (key : String) (c : Counter) where
  pub peek-IsUnique : IsUnique c.buckets → IsUnique (peek now key c).0.buckets
  unfolding peek
  peek-IsUnique u = sweep-IsUnique now c u

  pub length-peek : length (peek now key c).0.buckets ≤ length c.buckets
  unfolding peek
  length-peek = length-sweep now c
