-- ===== src/RateLimit/Counter/EvictionOrder.antt =====
-- Which buckets a full counter drops: those whose windows began first.
use billcommons.Base.{
  ℕ, zero, suc, ◌≤◌, String, ◌≡◌, refl, true, false, Option, none, some, [], ◌∷◌, arith, length,
  take, str_eq, eq_iff, ltb, if_induction, if◌then◌else◌,
}
use billcommons.Base.Dict
use billcommons.Base.Dict.{Dict, IsUnique, member, get-del_all}
use billcommons.RateLimit.Counter.{
  Bucket, insert_by_start, sort_by_start, oldest_first, evict_count, evict_oldest,
}
use billcommons.RateLimit.Counter.Eviction.{has, has-insert_by_start}

-- Sorted by start, as lookups see it.
abbrev IsSorted : Dict Bucket → Type 0
IsSorted [] = Unit
IsSorted ((k, b) ∷ d) =
    ((j : String) (a : Bucket) → Dict.get j d ≡ some a → b.start ≤ a.start) × IsSorted d

module _ (j : String) (b : Bucket) where
  get-insert_by_start :
      (k : String) (d : Dict Bucket)
      → has j d ≡ false
      → Dict.get k (insert_by_start (j, b) d) ≡ (if str_eq j k then some b else Dict.get k d)
  unfolding insert_by_start Dict.get
  get-insert_by_start k [] h = refl
  get-insert_by_start k ((i, a) ∷ d) h =
      ground (arith, get-insert_by_start k d, eq_iff j k, eq_iff i k, eq_iff i j)

  insert_by_start-IsSorted :
      (d : Dict Bucket) → has j d ≡ false → IsSorted d → IsSorted (insert_by_start (j, b) d)
  unfolding insert_by_start Dict.get
  insert_by_start-IsSorted [] h s = (λ k a e. cc, tt)
  insert_by_start-IsSorted ((i, a) ∷ d) h s =
      let h' : has j d ≡ false = ground arith in
      if_induction (λ (x : Dict Bucket). IsSorted x) (ltb b.start a.start)
        (λ lt. (λ k x e. ground (arith, s.0 k x), s))
        λ ge. (
          λ k x e. ground (arith, get-insert_by_start k d h', s.0 k x),
          insert_by_start-IsSorted d h' s.1,
        )

abbrev Disjoint : Dict Bucket → Dict Bucket → Type 0
Disjoint d e = (k : String) → has k d ≡ true → has k e ≡ false

abbrev either : Option Bucket → Option Bucket → Option Bucket
either none o = o
either (some b) o = some b

-- The entries of two dictionaries with no common key, where the second is sorted into the first.
sort-Disjoint :
    (j : String) (b : Bucket) (done d : Dict Bucket)
    → IsUnique ((j, b) ∷ d)
    → Disjoint ((j, b) ∷ d) done
    → Disjoint d (insert_by_start (j, b) done)
unfolding Dict.get
sort-Disjoint j b done d u apart k h =
    ground (arith, has-insert_by_start k j b done, apart k, u.0, eq_iff j k)

sort-IsSorted :
    (done d : Dict Bucket)
    → IsUnique d
    → Disjoint d done
    → IsSorted done
    → IsSorted (sort_by_start done d)
unfolding sort_by_start Dict.get
sort-IsSorted done [] u apart s = s
sort-IsSorted done ((j, b) ∷ d) u apart s =
    sort-IsSorted (insert_by_start (j, b) done) d u.1 (sort-Disjoint j b done d u apart)
      (insert_by_start-IsSorted j b done (apart j (ground (arith, eq_iff j j))) s)

get-sort :
    (k : String) (done d : Dict Bucket)
    → IsUnique d
    → Disjoint d done
    → Dict.get k (sort_by_start done d) ≡ either (Dict.get k done) (Dict.get k d)
unfolding sort_by_start Dict.get
get-sort k done [] u apart = ground arith
get-sort k done ((j, b) ∷ d) u apart = ground (
  arith,
  get-sort k (insert_by_start (j, b) done) d u.1 (sort-Disjoint j b done d u apart),
  get-insert_by_start j b k done (apart j (ground (arith, eq_iff j j))),
  eq_iff j k,
  apart k,
)

taken-le :
    (n : ℕ) (s : Dict Bucket) (k j : String) (b a : Bucket)
    → IsSorted s
    → Dict.get k s ≡ some b
    → Dict.get j s ≡ some a
    → member k (take n (Dict.keys s)) ≡ true
    → member j (take n (Dict.keys s)) ≡ false
    → b.start ≤ a.start
unfolding Dict.get
taken-le zero s k j b a sorted hk hj mk mj = cc
taken-le (suc n) [] k j b a sorted hk hj mk mj = cc
taken-le (suc n) ((i, c) ∷ s) k j b a sorted hk hj mk mj =
    ground (arith, sorted.0 j a, taken-le n s k j b a sorted.1)

-- Every bucket that goes began no later than every bucket that stays.
pub evicted-le-kept :
    (d : Dict Bucket)
    → IsUnique d
    → (k j : String) (b a : Bucket) → Dict.get k d ≡ some b
    → Dict.get k (evict_oldest d) ≡ none
    → Dict.get j (evict_oldest d) ≡ some a
    → b.start ≤ a.start
unfolding evict_oldest oldest_first Dict.get
evicted-le-kept d u k j b a hk gone kept =
    let n = evict_count (length d) in
    let s = sort_by_start [] d in
    let apart : Disjoint d [] = λ i h. refl in
    ground (
      arith,
      taken-le n s k j b a (sort-IsSorted [] d u apart tt),
      get-sort k [] d u apart,
      get-sort j [] d u apart,
      get-del_all k (take n (Dict.keys s)) d,
      get-del_all j (take n (Dict.keys s)) d,
    )
