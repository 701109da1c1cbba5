-- ===== src/RateLimit/Middleware/Commit.antt =====
-- What an admitted request charges.
use billcommons.Base.{
  ℕ, ◌≤◌, ◌<◌, String, ◌≡◌, refl, Bool, true, false, none, some, List, [], ◌∷◌, arith, all, ◌&&◌,
  length, str_eq, eq_iff, if◌then◌else◌,
}
use billcommons.Base.Dict
use billcommons.Base.Dict.{IsUnique}
use billcommons.RateLimit.Counter.{existing, in_window, bumped, allow, peek}
use billcommons.RateLimit.Counter.Charges.{existing-allow}
use billcommons.RateLimit.Middleware.{
  Limits, Slot, Keys, BucketResult, Headers, default_ip, heavy_ip, default_subnet, heavy_subnet,
  passed, counter_of, put_counter, key_of, check_all, ask_all, reply_passed, slots_for,
  retry_after_and_binding,
}
use billcommons.RateLimit.Middleware.Laws.{
  Forward, AllUnique, peeked, peeked-Unspent, allow_after_peek,
}

-- Which buckets a request is charged in, and by which reading of the clock.
abbrev pub applies : Bool → Slot → Bool
applies heavy default_ip = true
applies heavy default_subnet = true
applies heavy _ = heavy

abbrev pub reading : Bool → Slot → ℕ
reading heavy default_ip = 4
reading heavy heavy_ip = 5
reading true default_subnet = 6
reading false default_subnet = 5
reading heavy heavy_subnet = 7

reading-le : (heavy : Bool) (s : Slot) → (3 ≤ reading heavy s) × (reading heavy s ≤ 7)
reading-le heavy default_ip = omega arith
reading-le heavy heavy_ip = omega arith
reading-le true default_subnet = omega arith
reading-le false default_subnet = omega arith
reading-le heavy heavy_subnet = omega arith

abbrev pub is_allowed : BucketResult → Bool
is_allowed r = r.answer.allowed

module _ (clock : ℕ → ℕ) (keys : Keys) where
  commit_lem :
      (heavy : Bool) (s : Slot) (l : Limits)
      → counter_of s (ask_all allow clock 4 keys (slots_for heavy) l).0 ≡ (
          if applies heavy s
          then (allow (clock (reading heavy s)) (key_of s keys) (counter_of s l)).0
          else counter_of s l)
  unfolding ask_all counter_of put_counter
  commit_lem true default_ip l = refl
  commit_lem true heavy_ip l = refl
  commit_lem true default_subnet l = refl
  commit_lem true heavy_subnet l = refl
  commit_lem false default_ip l = refl
  commit_lem false heavy_ip l = refl
  commit_lem false default_subnet l = refl
  commit_lem false heavy_subnet l = refl

none_failed :
    (rs : List BucketResult) → (retry_after_and_binding rs).1 ≡ none → all is_allowed rs ≡ true
unfolding retry_after_and_binding
none_failed [] h = refl
none_failed (r ∷ rs) h = ground (arith, none_failed rs)

abbrev committed : (ℕ → ℕ) → Keys → Bool → Limits → Limits × List BucketResult
committed clock keys heavy l =
    ask_all allow clock 4 keys (slots_for heavy) (peeked clock keys heavy l)

module _ (clock : ℕ → ℕ) (fwd : Forward clock) (keys : Keys) (l : Limits) (u : AllUnique l) where
  later_allow :
      (i j : ℕ) (s : Slot)
      → i ≤ j
      → (peek (clock i) (key_of s keys) (counter_of s l)).1.allowed ≡ true
      → (allow
          (clock j)
          (key_of s keys)
          (peek (clock i) (key_of s keys) (counter_of s l)).0).1.allowed
        ≡ true
  later_allow i j s le =
      allow_after_peek (clock i) (clock j) (key_of s keys) (counter_of s l) (u s) (fwd i j le)

  commit_allowed :
      (heavy : Bool)
      → all is_allowed (ask_all peek clock 0 keys (slots_for heavy) l).1 ≡ true
      → all is_allowed (committed clock keys heavy l).1 ≡ true
  unfolding ask_all counter_of put_counter
  commit_allowed true h = ground (
    arith,
    later_allow 0 4 default_ip (omega arith),
    later_allow 1 5 heavy_ip (omega arith),
    later_allow 2 6 default_subnet (omega arith),
    later_allow 3 7 heavy_subnet (omega arith),
  )
  commit_allowed false h = ground (
    arith,
    later_allow 0 4 default_ip (omega arith),
    later_allow 1 5 default_subnet (omega arith),
  )

module _ (clock : ℕ → ℕ) (fwd : Forward clock) (keys : Keys) (heavy : Bool) (l : Limits)
    (u : AllUnique l) where
  passed-committed :
      (rs : List BucketResult) (hd : Headers)
      → (check_all clock keys heavy l).1 ≡ passed rs hd
      → ((check_all clock keys heavy l).0 ≡ (committed clock keys heavy l).0)
        × (rs ≡ (committed clock keys heavy l).1)
        × (all is_allowed (ask_all peek clock 0 keys (slots_for heavy) l).1 ≡ true)
  unfolding check_all reply_passed
  passed-committed rs hd h =
      ground (arith, none_failed (ask_all peek clock 0 keys (slots_for heavy) l).1)

  -- An admitted request is charged in each of its buckets, by the reading of the clock at which it
  -- is, and in no other: neither under another key nor in a tier that does not apply.
  pub passed_charges :
      (rs : List BucketResult) (hd : Headers)
      → (check_all clock keys heavy l).1 ≡ passed rs hd
      → (s : Slot) (j : String) (t : ℕ) → clock 7 ≤ t
      → length (counter_of s l).buckets < (counter_of s l).max_keys
      → existing t j (counter_of s (check_all clock keys heavy l).0) ≡ (
          let c = counter_of s l in
          let now = clock (reading heavy s) in
          if applies heavy s && str_eq (key_of s keys) j
          then Dict.only (in_window c.window t) (some (bumped now (existing now j c)))
          else existing t j c)
  passed_charges rs hd h s j t later room =
      let pk = counter_of s (peeked clock keys heavy l) in
      let now = clock (reading heavy s) in
      let at_t = peeked-Unspent clock fwd keys heavy l u t (omega (arith, fwd 3 7)) s in
      let at_now =
        peeked-Unspent clock fwd keys heavy l u now (fwd 3 (reading heavy s) (reading-le heavy s).0)
          s in
      rw ((passed-committed rs hd h).0, commit_lem)
        (ground (
          arith,
          existing-allow {now = now} {t = t}
              (omega (arith, fwd (reading heavy s) 7 (reading-le heavy s).1)) (key_of s keys) j pk
              at_t.unique (omega (arith, at_t.smaller, at_t.same.max_keys)),
          at_t.kept j,
          at_now.kept (key_of s keys),
          at_t.same.window,
          eq_iff (key_of s keys) j,
        ))

  -- Once every bucket has peeked "allowed", no charge of the same request is refused.
  pub passed_allowed :
      (rs : List BucketResult) (hd : Headers)
      → (check_all clock keys heavy l).1 ≡ passed rs hd
      → all is_allowed rs ≡ true
  passed_allowed rs hd h =
      let p = passed-committed rs hd h in rw p.1 (commit_allowed clock fwd keys l u heavy p.2)
