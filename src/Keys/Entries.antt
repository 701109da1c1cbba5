-- ===== src/Keys/Entries.antt =====
-- The entries of one key in the cache, and the reads of it that are under way: when they agree with a
-- value.
use billcommons.Base.{
  ℕ, ◌≤◌, ◌≡◌, refl, sym, ◌∙◌, ap, subst, String, true, false, Option, none, some, List, [], ◌∷◌,
  ◌&&◌, not, map, length, ◌==◌, leb, str_eq, eq_iff, is_some, if◌then◌else◌, arith, Bool-cases, inl,
  inr, ◌⊎◌, if_induction,
}
use billcommons.Base.Dict
use billcommons.Base.Dict.{Dict}
use billcommons.Quota.Plans.{ResolvedKey}
use billcommons.Keys.Cache.{
  KeyCache, Read, pop_first, room_for, is_tombstoned, store, store_loaded, store_reads, left_reads,
  load, max_cache_entries,
}

module _ (k : String) (v : Option ResolvedKey) where
  -- Every entry of the key is the value.
  abbrev pub FreshEntries : Dict (ResolvedKey × ℕ) → Type 0
  FreshEntries [] = Unit
  FreshEntries ((j, p) ∷ d) = (str_eq j k ≡ true → v ≡ some p.0) × FreshEntries d

  pub fresh-get :
      (p : ResolvedKey × ℕ) (d : Dict (ResolvedKey × ℕ))
      → FreshEntries d
      → Dict.get k d ≡ some p
      → v ≡ some p.0
  unfolding Dict.get
  fresh-get p [] f h = cc
  fresh-get p ((j, q) ∷ d) f h = elim (Bool-cases (str_eq j k)) [
    | inl here ↦ ground (arith, h, here, f.0 here)
    | inr there ↦ fresh-get p d f.1 (ground (arith, h, there))
  ]

  fresh-room :
      (j : String) (limit : ℕ) (d : Dict (ResolvedKey × ℕ))
      → FreshEntries d
      → FreshEntries (room_for j limit d)
  fresh-room j limit d f =
      if_induction FreshEntries (not (is_some (Dict.get j d)) && leb limit (length d))
        (λ _. popped d f) λ _. f
    where
      popped : (d : Dict (ResolvedKey × ℕ)) → FreshEntries d → FreshEntries (pop_first d)
      popped [] f = tt
      popped (e ∷ d) f = f.1

  fresh-set :
      (j : String) (p : ResolvedKey × ℕ) (d : Dict (ResolvedKey × ℕ))
      → (str_eq j k ≡ true → v ≡ some p.0)
      → FreshEntries d
      → FreshEntries (Dict.set j p d)
  unfolding Dict.set
  fresh-set j p [] h f = (h, tt)
  fresh-set j p ((i, q) ∷ d) h f =
      if_induction FreshEntries (str_eq i j)
        (λ same. (λ e. h (ground (arith, e, same, eq_iff i j, eq_iff j k, eq_iff i k)), f.1))
        λ _. (f.0, fresh-set j p d h f.1)

  pub fresh-del :
      (j : String) (d : Dict (ResolvedKey × ℕ)) → FreshEntries d → FreshEntries (Dict.del j d)
  unfolding Dict.del
  fresh-del j [] f = tt
  fresh-del j ((i, q) ∷ d) f =
      if_induction FreshEntries (str_eq i j) (λ _. fresh-del j d f.1) λ _. (f.0, fresh-del j d f.1)

  -- What was read is the value, or a tombstone of the key keeps it out of the cache.
  abbrev pub IsSettled : Option ℕ → ℕ → Option (Option ResolvedKey) → Type 0
  IsSettled tomb started none = Unit
  IsSettled tomb started (some u) = (u ≡ v) ⊎ (is_tombstoned tomb started ≡ true)

  abbrev pub SettledReads : Option ℕ → List Read → Type 0
  SettledReads tomb [] = Unit
  SettledReads tomb (r ∷ rs) =
      (str_eq r.key_hash k ≡ true → IsSettled tomb r.read_started_at r.loaded)
      × SettledReads tomb rs

  fresh-store :
      (j : String) (now started : ℕ) (u : Option ResolvedKey) (c : KeyCache)
      → (str_eq j k ≡ true → IsSettled (Dict.get k c.tombstones) started (some u))
      → FreshEntries c.cache
      → FreshEntries (store j now started u c).cache
  unfolding store
  fresh-store j now started none c h f = f
  fresh-store j now started (some r) c h f =
      if_induction (λ (x : KeyCache). FreshEntries x.cache)
        (is_tombstoned (Dict.get j c.tombstones) started) (λ _. f)
        λ free. fresh-set j _ _ (λ e. good e free (h e)) (fresh-room j max_cache_entries c.cache f)
    where
      good :
          str_eq j k ≡ true
          → is_tombstoned (Dict.get j c.tombstones) started ≡ false
          → IsSettled (Dict.get k c.tombstones) started (some (some r))
          → v ≡ some r
      good e free (inl same) = sym same
      good e free (inr stone) =
          let same : j ≡ k = (eq_iff j k).0 e in
          ground
            (arith, free, stone, ap (λ i. is_tombstoned (Dict.get i c.tombstones) started) same)

  settled-loaded :
      (r : Read) (tomb : Option ℕ) (l : Option (Option ResolvedKey)) (c : KeyCache)
      → Dict.get k c.tombstones ≡ tomb
      → (str_eq r.key_hash k ≡ true → IsSettled tomb r.read_started_at l)
      → FreshEntries c.cache
      → FreshEntries (store_loaded r l c).cache
  settled-loaded r tomb none c e h f = f
  settled-loaded r tomb (some u) c e h f =
      fresh-store r.key_hash r.now_monotonic r.read_started_at u c
        (λ same. subst (λ t. IsSettled t r.read_started_at (some u)) (sym e) (h same)) f

store-tombstones :
    (j : String) (now started : ℕ) (u : Option ResolvedKey) (c : KeyCache)
    → (store j now started u c).tombstones ≡ c.tombstones
unfolding store
store-tombstones j now started none c = refl
store-tombstones j now started (some r) c = ground arith

loaded-tombstones :
    (r : Read) (l : Option (Option ResolvedKey)) (c : KeyCache)
    → (store_loaded r l c).tombstones ≡ c.tombstones
loaded-tombstones r none c = refl
loaded-tombstones r (some u) c = store-tombstones r.key_hash r.now_monotonic r.read_started_at u c

pub store_reads-tombstones :
    (id : ℕ) (rs : List Read) (c : KeyCache) → (store_reads id rs c).tombstones ≡ c.tombstones
unfolding store_reads
store_reads-tombstones id [] c = refl
store_reads-tombstones id (r ∷ rs) c =
    store_reads-tombstones id rs _
    ∙ if_induction (λ (x : KeyCache). x.tombstones ≡ c.tombstones) (r.id == id)
        (λ _. loaded-tombstones r r.loaded c) λ _. refl

module _ (k : String) (v : Option ResolvedKey) where
  pub fresh-store_reads :
      (id : ℕ) (tomb : Option ℕ) (rs : List Read) (c : KeyCache)
      → Dict.get k c.tombstones ≡ tomb
      → SettledReads k v tomb rs
      → FreshEntries k v c.cache
      → FreshEntries k v (store_reads id rs c).cache
  unfolding store_reads
  fresh-store_reads id tomb [] c e s f = f
  fresh-store_reads id tomb (r ∷ rs) c e s f =
      let c' = if r.id == id then store_loaded r r.loaded c else c in
      fresh-store_reads id tomb rs c'
        (ap (Dict.get k) (
            if_induction (λ (x : KeyCache). x.tombstones ≡ c.tombstones) (r.id == id)
              (λ _. loaded-tombstones r r.loaded c) λ _. refl)
          ∙ e)
        s.1
        (if_induction (λ (x : KeyCache). FreshEntries k v x.cache) (r.id == id)
          (λ _. settled-loaded k v r tomb r.loaded c e s.0 f) λ _. f)

  pub settled-left :
      (id : ℕ) (tomb : Option ℕ) (rs : List Read)
      → SettledReads k v tomb rs
      → SettledReads k v tomb (left_reads id rs)
  unfolding left_reads
  settled-left id tomb [] s = tt
  settled-left id tomb (r ∷ rs) s =
      if_induction (SettledReads k v tomb) (r.id == id && is_some r.loaded)
        (λ _. settled-left id tomb rs s.1) λ _. (s.0, settled-left id tomb rs s.1)

  pub settled-load :
      (committed : String → Option ResolvedKey) (id : ℕ) (tomb : Option ℕ) (rs : List Read)
      → committed k ≡ v
      → SettledReads k v tomb rs
      → SettledReads k v tomb (map (load committed id) rs)
  settled-load committed id tomb [] e s = tt
  settled-load committed id tomb (r ∷ rs) e s = (
    if_induction
        (λ (x : Read). str_eq x.key_hash k ≡ true → IsSettled k v tomb x.read_started_at x.loaded)
        (r.id == id && not (is_some r.loaded))
        (λ _ same. inl (ap committed ((eq_iff r.key_hash k).0 same) ∙ e)) (λ _. s.0),
    settled-load committed id tomb rs e s.1,
  )

  -- After the entries of the key are deleted none is left.
  pub fresh-del_self : (d : Dict (ResolvedKey × ℕ)) → FreshEntries k v (Dict.del k d)
  unfolding Dict.del
  fresh-del_self [] = tt
  fresh-del_self ((i, q) ∷ d) =
      if_induction (FreshEntries k v) (str_eq i k) (λ _. fresh-del_self d)
        λ other. (λ e. ground (arith, e, other), fresh-del_self d)

abbrev pub StartedBy : ℕ → List Read → Type 0
StartedBy clock [] = Unit
StartedBy clock (r ∷ rs) = (r.read_started_at ≤ clock) × StartedBy clock rs

-- A tombstone that is not older than the reads settles them all.
pub settled-tombstone :
    (k : String) (v : Option ResolvedKey) (clock : ℕ) (rs : List Read)
    → StartedBy clock rs
    → SettledReads k v (some clock) rs
settled-tombstone k v clock [] s = tt
settled-tombstone k v clock (r ∷ rs) s =
    (λ _. by_stone r.loaded s.0, settled-tombstone k v clock rs s.1)
  where
    by_stone :
        (l : Option (Option ResolvedKey))
        → r.read_started_at ≤ clock
        → IsSettled k v (some clock) r.read_started_at l
    by_stone none le = tt
    by_stone (some u) le = inr (ground (arith, le))

pub started_later : (clock t : ℕ) (rs : List Read) → clock ≤ t → StartedBy clock rs → StartedBy t rs
started_later clock t [] le s = tt
started_later clock t (r ∷ rs) le s = (omega (arith, s.0), started_later clock t rs le s.1)

pub started-left :
    (clock id : ℕ) (rs : List Read) → StartedBy clock rs → StartedBy clock (left_reads id rs)
unfolding left_reads
started-left clock id [] s = tt
started-left clock id (r ∷ rs) s =
    if_induction (StartedBy clock) (r.id == id && is_some r.loaded)
      (λ _. started-left clock id rs s.1) λ _. (s.0, started-left clock id rs s.1)

pub started-load :
    (committed : String → Option ResolvedKey) (clock id : ℕ) (rs : List Read)
    → StartedBy clock rs
    → StartedBy clock (map (load committed id) rs)
started-load committed clock id [] s = tt
started-load committed clock id (r ∷ rs) s = (
  if_induction (λ (x : Read). x.read_started_at ≤ clock) (r.id == id && not (is_some r.loaded))
      (λ _. s.0) (λ _. s.0),
  started-load committed clock id rs s.1,
)
