-- ===== src/RateLimit/Counter/Eviction.antt =====
-- A full counter makes room: `_ensure_capacity_for_new_key` and the order that it evicts in.
use billcommons.Base.{
  ℕ, zero, suc, ◌+◌, ◌≤◌, ◌<◌, String, ◌≡◌, refl, Bool, true, [], ◌∷◌, arith, ◌||◌, length, take,
  str_eq, eq_iff, is_some, ltb, if_induction,
}
use billcommons.Base.Dict
use billcommons.Base.Dict.{
  Dict, IsUnique, keep-IsUnique, del_all-IsUnique, length-keep, length-del_old, length-del_all,
}
use billcommons.RateLimit.Counter.{
  Bucket, Counter, in_window, insert_by_start, sort_by_start, oldest_first, evict_count,
  evict_oldest, reclaimed, ensure_capacity_for_new_key,
}

abbrev pub has : String → Dict Bucket → Bool
has k d = is_some (Dict.get k d)

length-insert_by_start :
    (e : String × Bucket) (d : Dict Bucket) → length (insert_by_start e d) ≡ suc (length d)
unfolding insert_by_start
length-insert_by_start e [] = refl
length-insert_by_start e (f ∷ d) = ground (arith, length-insert_by_start e d)

length-sort_by_start :
    (done d : Dict Bucket) → length (sort_by_start done d) ≡ length done + length d
unfolding sort_by_start
length-sort_by_start done [] = omega arith
length-sort_by_start done (e ∷ d) =
    omega (arith, length-sort_by_start (insert_by_start e done) d, length-insert_by_start e done)

pub has-insert_by_start :
    (k j : String) (b : Bucket) (d : Dict Bucket)
    → has k (insert_by_start (j, b) d) ≡ (str_eq j k || has k d)
unfolding insert_by_start Dict.get
has-insert_by_start k j b [] = ground arith
has-insert_by_start k j b ((i, a) ∷ d) = ground (arith, has-insert_by_start k j b d)

pub has-sort_by_start :
    (k : String) (done d : Dict Bucket) → has k (sort_by_start done d) ≡ (has k done || has k d)
unfolding sort_by_start Dict.get
has-sort_by_start k done [] = ground arith
has-sort_by_start k done ((j, b) ∷ d) =
    ground
      (arith, has-sort_by_start k (insert_by_start (j, b) done) d, has-insert_by_start k j b done)

length-del_sorted :
    (n : ℕ) (s d : Dict Bucket)
    → 0 < n
    → 0 < length s
    → ((k : String) → has k s ≡ true → has k d ≡ true)
    → length (Dict.del_all (take n (Dict.keys s)) d) + 1 ≤ length d
unfolding Dict.del_all Dict.get
length-del_sorted zero s d pos ne sub = absurd (omega arith)
length-del_sorted (suc n) [] d pos ne sub = absurd (omega arith)
length-del_sorted (suc n) ((k, b) ∷ s) d pos ne sub = omega (
  arith,
  length-del_all (take n (Dict.keys s)) (Dict.del k d),
  length-del_old {0} k d (sub k (ground (arith, eq_iff k k))),
)

-- At least one entry goes.
length-evict_oldest : (d : Dict Bucket) → 0 < length d → length (evict_oldest d) + 1 ≤ length d
unfolding evict_oldest oldest_first Dict.get
length-evict_oldest d ne =
    length-del_sorted (evict_count (length d)) (sort_by_start [] d) d (omega arith)
      (omega (arith, length-sort_by_start [] d)) (λ k h. ground (arith, has-sort_by_start k [] d))

reclaimed-IsUnique : (m : ℕ) (d : Dict Bucket) → IsUnique d → IsUnique (reclaimed m d)
unfolding reclaimed evict_oldest
reclaimed-IsUnique m d u =
    if_induction (λ (e : Dict Bucket). IsUnique e) (ltb (length d) m) (λ _. u)
      λ _. del_all-IsUnique (take (evict_count (length d)) (oldest_first d)) d u

length-reclaimed : (m : ℕ) (d : Dict Bucket) → 0 < m → length d ≤ m → length (reclaimed m d) < m
unfolding reclaimed
length-reclaimed m d pos fits = ground (arith, length-evict_oldest d)

module _ (now : ℕ) (c : Counter) where
  pub ensure_capacity-IsUnique :
      IsUnique c.buckets → IsUnique (ensure_capacity_for_new_key now c).buckets
  unfolding ensure_capacity_for_new_key
  ensure_capacity-IsUnique u =
      if_induction (λ (e : Counter). IsUnique e.buckets) (ltb (length c.buckets) c.max_keys)
        (λ _. u)
        λ _.
          reclaimed-IsUnique c.max_keys (Dict.keep (in_window c.window now) c.buckets)
            (keep-IsUnique (in_window c.window now) c.buckets u)

  -- A counter within its bound has room for one more key.
  pub length-ensure_capacity :
      0 < c.max_keys
      → length c.buckets ≤ c.max_keys
      → length (ensure_capacity_for_new_key now c).buckets < c.max_keys
  unfolding ensure_capacity_for_new_key
  length-ensure_capacity pos fits = ground (
    arith,
    length-reclaimed c.max_keys (Dict.keep (in_window c.window now) c.buckets),
    length-keep (in_window c.window now) c.buckets,
  )
