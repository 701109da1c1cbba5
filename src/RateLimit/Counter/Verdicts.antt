-- ===== src/RateLimit/Counter/Verdicts.antt =====
-- The answers of `allow` and `peek`, and what they leave of the counts of every key.
use billcommons.Base.{ℕ, ◌≤◌, String, ◌≡◌, arith}
use billcommons.Base.Dict.{IsUnique, get-keep, keep-IsUnique}
use billcommons.RateLimit.Counter.{
  Counter, in_window, existing, sweep, ensure_capacity_for_new_key, verdict, allow, peek,
}

-- `peek` is a dry run of `allow`: at one reading of the clock it gives the very same answer.
pub peek-eq-allow :
    (now : ℕ) (key : String) (c : Counter) → (peek now key c).1 ≡ (allow now key c).1
unfolding peek allow sweep ensure_capacity_for_new_key verdict
peek-eq-allow now key c = ground arith

module _ {now t : ℕ} (later : now ≤ t) (key : String) (c : Counter) (u : IsUnique c.buckets) where
  pub existing-sweep : existing t key (sweep now c) ≡ existing t key c
  unfolding existing sweep
  existing-sweep = ground (arith, get-keep (in_window c.window now) key c.buckets u)

  pub existing-peek : (hit : String) → existing t key (peek now hit c).0 ≡ existing t key c
  unfolding peek
  existing-peek hit = existing-sweep

module _ (now : ℕ) (c : Counter) (u : IsUnique c.buckets) where
  pub sweep-IsUnique : IsUnique (sweep now c).buckets
  unfolding sweep
  sweep-IsUnique = ground (arith, keep-IsUnique (in_window c.window now) c.buckets u)
