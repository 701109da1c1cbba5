-- ===== src/Keys/Freshness.antt =====
-- Runs of the cache of keys from the start of the process: what a hit of `lookup_cached` answers.
use billcommons.Base.{ℕ, ◌≡◌, refl, ◌∙◌, String, true, Option, none, some, List, [], ◌∷◌, arith}
use billcommons.Base.Dict
use billcommons.Base.Dict.{Dict}
use billcommons.Quota.Plans.{ResolvedKey}
use billcommons.Keys.Cache.{
  World, Event, lookup_cached, answer_hit, step, run, keeps_tombstones, started,
}
use billcommons.Keys.Steps.{covers, IsFresh, step-IsFresh}
use billcommons.Keys.Entries.{fresh-get}

module _ (k : String) where
  run-IsFresh :
      (es : List Event) (w : World)
      → keeps_tombstones es w ≡ true
      → IsFresh k w
      → IsFresh k (run es w)
  unfolding run keeps_tombstones
  run-IsFresh [] w room f = f
  run-IsFresh (e ∷ es) w room f =
      run-IsFresh es (step e w) (ground (arith, room)) (step-IsFresh k e w (ground (arith, room)) f)

hit_entry :
    (monotonic now : ℕ) (r : ResolvedKey) (o : Option (ResolvedKey × ℕ))
    → answer_hit monotonic now o ≡ some (some r)
    → (p : ResolvedKey × ℕ) × (o ≡ some p) × (some p.0 ≡ some r)
hit_entry monotonic now r none h = cc
hit_entry monotonic now r (some p) h = (p, refl, ground (arith, h))

-- However reads, commits and invalidations interleave from the start of the process, an invalidation
-- reading the clock at one time and writing at another, and as long as no tombstone has to make room: while
-- the tombstone that stands of a key was stamped no earlier than the last change of the key, a hit of
-- the cache is what is committed of the key. (An invalidation that writes late may put an older tombstone
-- in its place.)
pub lookup_cached-fresh :
    (committed : String → Option ResolvedKey) (es : List Event) (k : String) (monotonic now : ℕ)
    (r : ResolvedKey)
    → keeps_tombstones es (started committed) ≡ true
    → covers
        ((run es (started committed)).committed_at k)
        (Dict.get k (run es (started committed)).keys.tombstones)
      ≡ true
    → lookup_cached k monotonic now (run es (started committed)).keys ≡ some (some r)
    → (run es (started committed)).committed k ≡ some r
unfolding lookup_cached
lookup_cached-fresh committed es k monotonic now r room settled hit =
    let w = run es (started committed) in
    let fresh =
      run-IsFresh k es (started committed) room
        (unfold started in (tt, tt, (λ _. tt, λ _ u. tt))) in
    let (p, found, same) = hit_entry monotonic now r (Dict.get k w.keys.cache) hit in
    fresh-get k (w.committed k) p w.keys.cache (fresh.2.0 settled) found ∙ same
