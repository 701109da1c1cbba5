-- ===== src/Keys/Cache.antt =====
-- The cache of resolved keys of apps/api/billcommons_api/api_keys.py, and the threads that fill it
-- while keys are revoked. `committed` is what `_load_resolved_key` would read of a key. A key is known
-- by its hash. The monotonic clock counts whole nanoseconds.
use billcommons.Base.{
  ℕ, ◌+◌, String, Bool, true, false, Option, none, some, List, [], ◌∷◌, ◌&&◌, ◌||◌, not, map,
  filter, length, ◌==◌, leb, ltb, str_eq, is_some, if◌then◌else◌,
}
use billcommons.Base.Dict
use billcommons.Base.Dict.{Dict}
use billcommons.Quota.Plans.{ResolvedKey, KeyStatus}

abbrev pub max_cache_entries : ℕ
max_cache_entries = 50000

abbrev pub max_tombstones : ℕ
max_tombstones = 50000

abbrev pub cache_ttl : ℕ
cache_ttl = 60000000000

pub record KeyCache : Type 0 where
  pub cache : Dict (ResolvedKey × ℕ)
  pub tombstones : Dict ℕ

-- del d[next(iter(d))]
abbrev pub pop_first {ℓ} : {V : Type ℓ} → Dict V → Dict V
pop_first [] = []
pop_first (e ∷ d) = d

-- Room for a key that is new to the dictionary.
abbrev pub room_for {ℓ} : {V : Type ℓ} → String → ℕ → Dict V → Dict V
room_for k limit d = if not (is_some (Dict.get k d)) && leb limit (length d) then pop_first d else d

unfoldable pub invalidate : String → ℕ → KeyCache → KeyCache
invalidate key_hash now c = record {
  cache = Dict.del key_hash c.cache;
  tombstones = Dict.set key_hash now (room_for key_hash max_tombstones c.tombstones);
}

abbrev pub is_rotating : KeyStatus → Bool
is_rotating KeyStatus.rotating = true
is_rotating _ = false

abbrev pub is_past : Option ℕ → ℕ → Bool
is_past none now = false
is_past (some t) now = leb t now

abbrev pub recheck : ℕ → ResolvedKey → Option ResolvedKey
recheck now r = if is_rotating r.status && is_past r.revoke_at now then none else some r

abbrev pub answer_hit : ℕ → ℕ → Option (ResolvedKey × ℕ) → Option (Option ResolvedKey)
answer_hit monotonic now none = none
answer_hit monotonic now (some (resolved, expires_at)) =
    if ltb monotonic expires_at then some (recheck now resolved) else none

-- What `resolve_key` returns of the cache, or none where it has to read the database.
unfoldable pub lookup_cached : String → ℕ → ℕ → KeyCache → Option (Option ResolvedKey)
lookup_cached key_hash monotonic now c = answer_hit monotonic now (Dict.get key_hash c.cache)

-- tombstoned_at is not None and tombstoned_at >= read_started_at
abbrev pub is_tombstoned : Option ℕ → ℕ → Bool
is_tombstoned none read_started_at = false
is_tombstoned (some t) read_started_at = leb read_started_at t

-- The end of `resolve_key`: what was read is cached, unless it may be stale.
unfoldable pub store : String → ℕ → ℕ → Option ResolvedKey → KeyCache → KeyCache
store key_hash now_monotonic read_started_at none c = c
store key_hash now_monotonic read_started_at (some r) c =
    if is_tombstoned (Dict.get key_hash c.tombstones) read_started_at then c else record c {
      cache =
          Dict.set key_hash (r, now_monotonic + cache_ttl)
            (room_for key_hash max_cache_entries c.cache);
    }

-- A call of `resolve_key` that missed the cache.
pub record Read : Type 0 where
  pub id : ℕ
  pub key_hash : String
  pub now_monotonic : ℕ
  pub read_started_at : ℕ
  pub loaded : Option (Option ResolvedKey)

-- A call of `invalidate` that has read the clock and has not got the lock yet.
pub record Invalidation : Type 0 where
  pub id : ℕ
  pub key_hash : String
  pub now_monotonic : ℕ

-- The API with its database. `committed_at` is the time of the last change of a key.
pub record World : Type 0 where
  pub clock : ℕ
  pub committed : String → Option ResolvedKey
  pub committed_at : String → Option ℕ
  pub keys : KeyCache
  pub reads : List Read
  pub invalidations : List Invalidation

-- A call of `invalidate` is two events, since other threads may run between its reading of the clock
-- and its taking of the lock.
pub data Event : Type 0 where
  ticks : ℕ → Event
  begins : ℕ → String → ℕ → Event
  loads : ℕ → Event
  stores : ℕ → Event
  commits : String → Option ResolvedKey → Event
  reads_clock : ℕ → String → Event
  invalidates : ℕ → Event

abbrev pub load : (String → Option ResolvedKey) → ℕ → Read → Read
load committed id r =
    if r.id == id && not (is_some r.loaded)
    then record r { loaded = some (committed r.key_hash) }
    else r

-- The reads with the id that have loaded store their result and are over.
abbrev pub store_loaded : Read → Option (Option ResolvedKey) → KeyCache → KeyCache
store_loaded r none c = c
store_loaded r (some v) c = store r.key_hash r.now_monotonic r.read_started_at v c

unfoldable pub store_reads : ℕ → List Read → KeyCache → KeyCache
store_reads id [] c = c
store_reads id (r ∷ rs) c =
    let c' = if r.id == id then store_loaded r r.loaded c else c in store_reads id rs c'

unfoldable pub left_reads : ℕ → List Read → List Read
left_reads id [] = []
left_reads id (r ∷ rs) =
    let rest = left_reads id rs in if r.id == id && is_some r.loaded then rest else r ∷ rest

abbrev pub override {ℓ} : {V : Type ℓ} → String → V → (String → V) → String → V
override k v f j = if str_eq k j then v else f j

abbrev pub first_of : ℕ → List Invalidation → Option Invalidation
first_of id [] = none
first_of id (i ∷ is) = let rest = first_of id is in if i.id == id then some i else rest

abbrev pub write : Option Invalidation → KeyCache → KeyCache
write none c = c
write (some i) c = invalidate i.key_hash i.now_monotonic c

unfoldable pub step : Event → World → World
step (ticks n) w = record w { clock = w.clock + n }
step (begins id key_hash now_monotonic) w = record w {
  reads =
      record {
        id = id;
        key_hash = key_hash;
        now_monotonic = now_monotonic;
        read_started_at = w.clock;
        loaded = none;
      }
      ∷ w.reads;
}
step (loads id) w = record w { reads = map (load w.committed id) w.reads }
step (stores id) w = record w {
  keys = store_reads id w.reads w.keys;
  reads = left_reads id w.reads;
}
step (commits key_hash v) w = record w {
  committed = override key_hash v w.committed;
  committed_at = override key_hash (some w.clock) w.committed_at;
}
step (reads_clock id key_hash) w = record w {
  invalidations =
      record { id = id; key_hash = key_hash; now_monotonic = w.clock } ∷ w.invalidations;
}
step (invalidates id) w = record w {
  keys = write (first_of id w.invalidations) w.keys;
  invalidations = filter (λ i. not (i.id == id)) w.invalidations;
}

unfoldable pub run : List Event → World → World
run [] w = w
run (e ∷ es) w = run es (step e w)

-- No tombstone has to make room for another one.
abbrev pub has_room_for : Option Invalidation → Dict ℕ → Bool
has_room_for none tombstones = true
has_room_for (some i) tombstones =
    is_some (Dict.get i.key_hash tombstones) || ltb (length tombstones) max_tombstones

abbrev pub has_room : Event → World → Bool
has_room (invalidates id) w = has_room_for (first_of id w.invalidations) w.keys.tombstones
has_room _ w = true

unfoldable pub keeps_tombstones : List Event → World → Bool
keeps_tombstones [] w = true
keeps_tombstones (e ∷ es) w = has_room e w && keeps_tombstones es (step e w)

-- A process that has just started.
unfoldable pub started : (String → Option ResolvedKey) → World
started committed = record {
  clock = 0;
  committed = committed;
  committed_at = λ _. none;
  keys = record { cache = []; tombstones = [] };
  reads = [];
  invalidations = [];
}
