-- ===== src/Keys/Steps.antt =====
-- The events of Keys/Cache one by one: what they keep of the entries and the reads of a key, by the
-- tombstone of the key and the time of its last change.
use billcommons.Base.{
  ℕ, ◌+◌, ◌≡◌, refl, sym, subst, String, Bool, true, false, Option, none, some, List, [], ◌∷◌, ◌||◌,
  length, ltb, leb, str_eq, eq_iff, is_some, if◌then◌else◌, arith, Bool-cases, inl, inr,
}
use billcommons.Base.Dict
use billcommons.Base.Dict.{Dict}
use billcommons.Quota.Plans.{ResolvedKey}
use billcommons.Keys.Cache.{
  Read, World, Event, KeyCache, Invalidation, first_of, write, has_room_for, is_tombstoned,
  store_reads, room_for, max_tombstones, invalidate, override, step, has_room,
}
use billcommons.Keys.Entries.{
  FreshEntries, IsSettled, SettledReads, StartedBy, fresh-del, fresh-del_self, fresh-store_reads,
  store_reads-tombstones, settled-left, settled-load, settled-tombstone, started_later,
  started-left, started-load,
}

-- The tombstone of a key is not older than its last change.
abbrev pub covers : Option ℕ → Option ℕ → Bool
covers none tomb = true
covers (some c) none = false
covers (some c) (some t) = leb c t

-- The entries of a key are fresh while the tombstone covers the last change, and there is none while no
-- time has passed since the tombstone.
abbrev EntriesOk :
    String → Option ℕ → Option ResolvedKey → Option ℕ → ℕ → Dict (ResolvedKey × ℕ) → Type 0
EntriesOk k changed v tomb clock cache =
    (covers changed tomb ≡ true → FreshEntries k v cache)
    × (is_tombstoned tomb clock ≡ true → (u : Option ResolvedKey) → FreshEntries k u cache)

-- What a read has loaded is committed, or the read began before the last change.
abbrev pub IsFresh : String → World → Type 0
IsFresh k w =
    StartedBy w.clock w.reads
    × SettledReads k (w.committed k) (w.committed_at k) w.reads
    × EntriesOk k (w.committed_at k) (w.committed k) (Dict.get k w.keys.tombstones) w.clock
        w.keys.cache

covered :
    (changed tomb : Option ℕ) (s : ℕ)
    → covers changed tomb ≡ true
    → is_tombstoned changed s ≡ true
    → is_tombstoned tomb s ≡ true
covered none tomb s h k = ground (arith, k)
covered (some c) none s h k = ground (arith, h)
covered (some c) (some t) s h k = ground (arith, h, k)

-- A tombstone that covers the last change settles the reads that began before the change.
settled-covered :
    (k : String) (v : Option ResolvedKey) (changed tomb : Option ℕ) (rs : List Read)
    → covers changed tomb ≡ true
    → SettledReads k v changed rs
    → SettledReads k v tomb rs
settled-covered k v changed tomb [] h s = tt
settled-covered k v changed tomb (r ∷ rs) h s =
    (λ same. by_change r.loaded (s.0 same), settled-covered k v changed tomb rs h s.1)
  where
    by_change :
        (l : Option (Option ResolvedKey))
        → IsSettled k v changed r.read_started_at l
        → IsSettled k v tomb r.read_started_at l
    by_change none i = tt
    by_change (some u) (inl same) = inl same
    by_change (some u) (inr old) = inr (covered changed tomb r.read_started_at h old)

settled-late :
    (k : String) (v : Option ResolvedKey) (tomb : Option ℕ) (clock : ℕ) (rs : List Read)
    → is_tombstoned tomb clock ≡ true
    → StartedBy clock rs
    → SettledReads k v tomb rs
settled-late k v tomb clock rs h s =
    settled-covered k v (some clock) tomb rs (late tomb h) (settled-tombstone k v clock rs s)
  where
    late : (t : Option ℕ) → is_tombstoned t clock ≡ true → covers (some clock) t ≡ true
    late none h = h
    late (some t) h = h

later-tombstoned :
    (tomb : Option ℕ) (clock n : ℕ)
    → is_tombstoned tomb (clock + n) ≡ true
    → is_tombstoned tomb clock ≡ true
later-tombstoned none clock n h = h
later-tombstoned (some t) clock n h = ground (arith, h)

else_of {ℓ} : {A : Type ℓ} (b : Bool) (x y : A) → b ≡ false → y ≡ (if b then x else y)
else_of true x y h = cc
else_of false x y h = refl

then_of {ℓ} : {A : Type ℓ} (b : Bool) (x y : A) → b ≡ true → x ≡ (if b then x else y)
then_of true x y h = refl
then_of false x y h = cc

override_other {ℓ} :
    {V : Type ℓ} (j k : String) (v : V) (f : String → V)
    → str_eq j k ≡ false
    → f k ≡ override j v f k
override_other j k v f h = else_of (str_eq j k) v (f k) h

override_same {ℓ} :
    {V : Type ℓ} (j k : String) (v : V) (f : String → V) → str_eq j k ≡ true → v ≡ override j v f k
override_same j k v f h = then_of (str_eq j k) v (f k) h

tomb_same :
    (j k : String) (clock : ℕ) (d : Dict ℕ)
    → str_eq j k ≡ true
    → some clock ≡ Dict.get k (Dict.set j clock d)
tomb_same j k clock d h = ground (arith, h, Dict.get-set j k clock d)

tomb_other :
    (j k : String) (clock : ℕ) (d : Dict ℕ)
    → (is_some (Dict.get j d) || ltb (length d) max_tombstones) ≡ true
    → str_eq j k ≡ false
    → Dict.get k d ≡ Dict.get k (Dict.set j clock (room_for j max_tombstones d))
tomb_other j k clock d room h =
    ground (arith, h, room, Dict.get-set j k clock (room_for j max_tombstones d))

module _ (k : String) where
  EntriesOk-committed :
      (clock : ℕ) (changed : Option ℕ) (u v : Option ResolvedKey) (tomb : Option ℕ)
      (cache : Dict (ResolvedKey × ℕ))
      → EntriesOk k changed u tomb clock cache
      → EntriesOk k (some clock) v tomb clock cache
  EntriesOk-committed clock changed u v none cache e = (λ h. ground (arith, h), e.1)
  EntriesOk-committed clock changed u v (some t) cache e = (λ h. e.1 h v, e.1)

  IsFresh-committed :
      (j : String) (v : Option ResolvedKey) (w : World)
      → IsFresh k w
      → IsFresh k (step (Event.commits j v) w)
  unfolding step
  IsFresh-committed j v w f = elim (Bool-cases (str_eq j k)) [
    | inl same ↦
        subst
          (λ at.
            StartedBy w.clock w.reads
            × SettledReads k (override j v w.committed k) at w.reads
            × EntriesOk k at (override j v w.committed k) (Dict.get k w.keys.tombstones) w.clock
                w.keys.cache)
          (override_same j k (some w.clock) w.committed_at same)
          (
            f.0,
            settled-tombstone k (override j v w.committed k) w.clock w.reads f.0,
            EntriesOk-committed w.clock (w.committed_at k) (w.committed k)
                (override j v w.committed k) (Dict.get k w.keys.tombstones) w.keys.cache f.2,
          )
    | inr other ↦
        subst
          (λ at.
            StartedBy w.clock w.reads
            × SettledReads k (override j v w.committed k) at w.reads
            × EntriesOk k at (override j v w.committed k) (Dict.get k w.keys.tombstones) w.clock
                w.keys.cache)
          (override_other j k (some w.clock) w.committed_at other)
          (subst
            (λ u.
              StartedBy w.clock w.reads
              × SettledReads k u (w.committed_at k) w.reads
              × EntriesOk k (w.committed_at k) u (Dict.get k w.keys.tombstones) w.clock
                  w.keys.cache)
            (override_other j k v w.committed other) f)
  ]

  EntriesOk-invalidated :
      (j : String) (t : ℕ) (changed : Option ℕ) (v : Option ResolvedKey) (clock : ℕ) (c : KeyCache)
      → (is_some (Dict.get j c.tombstones) || ltb (length c.tombstones) max_tombstones) ≡ true
      → EntriesOk k changed v (Dict.get k c.tombstones) clock c.cache
      → EntriesOk k changed v
          (Dict.get k (invalidate j t c).tombstones)
          clock
          (invalidate j t c).cache
  unfolding invalidate
  EntriesOk-invalidated j t changed v clock c room e = elim (Bool-cases (str_eq j k)) [
    | inl same ↦
        let gone : (u : Option ResolvedKey) → FreshEntries k u (Dict.del j c.cache) = λ u.
          subst (λ i. FreshEntries k u (Dict.del i c.cache)) (sym ((eq_iff j k).0 same))
            (fresh-del_self k u c.cache) in
        (λ _. gone v, λ _ u. gone u)
    | inr other ↦
        subst (λ tomb. EntriesOk k changed v tomb clock (Dict.del j c.cache))
          (tomb_other j k t c.tombstones room other)
          (λ h. fresh-del k v j c.cache (e.0 h), λ h u. fresh-del k u j c.cache (e.1 h u))
  ]

  EntriesOk-written :
      (o : Option Invalidation) (changed : Option ℕ) (v : Option ResolvedKey) (clock : ℕ)
      (c : KeyCache)
      → has_room_for o c.tombstones ≡ true
      → EntriesOk k changed v (Dict.get k c.tombstones) clock c.cache
      → EntriesOk k changed v (Dict.get k (write o c).tombstones) clock (write o c).cache
  EntriesOk-written none changed v clock c room e = e
  EntriesOk-written (some i) changed v clock c room e =
      EntriesOk-invalidated i.key_hash i.now_monotonic changed v clock c room e

  EntriesOk-stored :
      (id : ℕ) (w : World)
      → IsFresh k w
      → EntriesOk k
          (w.committed_at k)
          (w.committed k)
          (Dict.get k (store_reads id w.reads w.keys).tombstones)
          w.clock
          (store_reads id w.reads w.keys).cache
  EntriesOk-stored id w f =
      let tomb = Dict.get k w.keys.tombstones in
      subst
        (λ d.
          EntriesOk k (w.committed_at k) (w.committed k) (Dict.get k d) w.clock
            (store_reads id w.reads w.keys).cache)
        (sym (store_reads-tombstones id w.reads w.keys))
        (
          λ h.
              fresh-store_reads k (w.committed k) id tomb w.reads w.keys refl
                (settled-covered k (w.committed k) (w.committed_at k) tomb w.reads h f.1) (f.2.0 h),
          λ h u.
              fresh-store_reads k u id tomb w.reads w.keys refl
                (settled-late k u tomb w.clock w.reads h f.0) (f.2.1 h u),
        )

  pub step-IsFresh :
      (e : Event) (w : World) → has_room e w ≡ true → IsFresh k w → IsFresh k (step e w)
  unfolding step
  step-IsFresh (Event.ticks n) w room f = (
    started_later w.clock (w.clock + n) w.reads (omega arith) f.0,
    f.1,
    (f.2.0, λ h. f.2.1 (later-tombstoned (Dict.get k w.keys.tombstones) w.clock n h)),
  )
  step-IsFresh (Event.begins id j now) w room f = ((omega arith, f.0), (λ _. tt, f.1), f.2)
  step-IsFresh (Event.loads id) w room f = (
    started-load w.committed w.clock id w.reads f.0,
    settled-load k (w.committed k) w.committed id (w.committed_at k) w.reads refl f.1,
    f.2,
  )
  step-IsFresh (Event.stores id) w room f = (
    started-left w.clock id w.reads f.0,
    settled-left k (w.committed k) id (w.committed_at k) w.reads f.1,
    EntriesOk-stored id w f,
  )
  step-IsFresh (Event.commits j v) w room f = IsFresh-committed j v w f
  step-IsFresh (Event.reads_clock id j) w room f = f
  step-IsFresh (Event.invalidates id) w room f = (
    f.0,
    f.1,
    EntriesOk-written (first_of id w.invalidations) (w.committed_at k) (w.committed k) w.clock
        w.keys room f.2,
  )
