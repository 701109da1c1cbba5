-- ===== src/RateLimit/Counter.antt =====
-- `_FixedWindowCounter` and `_BoundedFixedWindowCounter` of rate_limit.py. A call takes the reading
-- of the clock as an argument. Times are whole nanoseconds, the resolution of `time.monotonic`;
-- that clock never goes back, so `now - start` is never negative and truncated subtraction is exact.
pub mod Verdicts
pub mod Admission
pub mod Retry
pub mod Invariant
pub mod Charges
pub mod Eviction
pub mod EvictionOrder
use billcommons.Base.{
  ℕ, ◌+◌, ◌-◌, ◌*◌, ◌/◌, max, String, Bool, true, false, Option, none, some, List, [], ◌∷◌, map,
  ◌&&◌, not, ltb, leb, is_some, if◌then◌else◌, length, take,
}
use billcommons.Base.Dict
use billcommons.Base.Dict.{Dict}

abbrev pub ticks_per_second : ℕ
ticks_per_second = 1000000000

-- math.ceil of a number of ticks, in seconds
abbrev pub ceil_seconds : ℕ → ℕ
ceil_seconds t = (t + (ticks_per_second - 1)) / ticks_per_second

-- the pair (window_start, count)
pub record Bucket : Type 0 where
  pub start : ℕ
  pub count : ℕ

pub record Counter : Type 0 where
  pub limit : ℕ
  pub window : ℕ
  pub max_keys : ℕ
  pub buckets : Dict Bucket
  pub last_sweep : ℕ

-- the tuple (allowed, retry_after, remaining, reset_in_seconds)
pub record Verdict : Type 0 where
  pub allowed : Bool
  pub retry_after : ℕ
  pub remaining : ℕ
  pub reset_in : ℕ

abbrev pub default_max_keys : ℕ
default_max_keys = 100000

unfoldable pub new : ℕ → ℕ → ℕ → Counter
new limit window max_keys = record {
  limit = limit;
  window = window;
  max_keys = max_keys;
  buckets = [];
  last_sweep = 0;
}

-- the negation of `now - start >= self._window`
abbrev pub in_window : ℕ → ℕ → Bucket → Bool
in_window window now b = ltb (now - b.start) window

unfoldable pub sweep : ℕ → Counter → Counter
sweep now c =
    if ltb (now - c.last_sweep) c.window
    then c
    else record c { last_sweep = now; buckets = Dict.keep (in_window c.window now) c.buckets }

-- `sorted(..., key=start)` is stable: an entry goes behind those with the same start.
pub insert_by_start : String × Bucket → Dict Bucket → Dict Bucket
insert_by_start e [] = e ∷ []
insert_by_start e (f ∷ d) = if ltb e.1.start f.1.start then e ∷ f ∷ d else f ∷ insert_by_start e d

pub sort_by_start : Dict Bucket → Dict Bucket → Dict Bucket
unfolding insert_by_start
sort_by_start done [] = done
sort_by_start done (e ∷ d) = sort_by_start (insert_by_start e done) d

unfoldable pub oldest_first : Dict Bucket → List String
unfolding sort_by_start
oldest_first d = Dict.keys (sort_by_start [] d)

-- `max(1, int(len(self._buckets) * EVICTION_FRACTION))`. The float product of a length and 0.1 is
-- never below a whole tenth, so that its whole part is the quotient.
abbrev pub evict_count : ℕ → ℕ
evict_count n = max 1 (n / 10)

unfoldable pub evict_oldest : Dict Bucket → Dict Bucket
evict_oldest d = Dict.del_all (take (evict_count (length d)) (oldest_first d)) d

reclaimed : ℕ → Dict Bucket → Dict Bucket
reclaimed max_keys fresh = if ltb (length fresh) max_keys then fresh else evict_oldest fresh

unfoldable pub ensure_capacity_for_new_key : ℕ → Counter → Counter
unfolding reclaimed
ensure_capacity_for_new_key now c =
    if ltb (length c.buckets) c.max_keys
    then c
    else record c { buckets = reclaimed c.max_keys (Dict.keep (in_window c.window now) c.buckets) }

-- `self._buckets.get(key)`, unless its window is over
unfoldable pub existing : ℕ → String → Counter → Option Bucket
existing now key c = Dict.only (in_window c.window now) (Dict.get key c.buckets)

-- (start, count) after the hit is counted
abbrev pub bumped : ℕ → Option Bucket → Bucket
bumped now none = record { start = now; count = 1 }
bumped now (some b) = record b { count = b.count + 1 }

unfoldable pub verdict : ℕ → Counter → Bucket → Verdict
verdict now c b =
    let reset_in = max 1 (ceil_seconds (c.window - (now - b.start))) in
    if ltb c.limit b.count
    then record { allowed = false; retry_after = reset_in; remaining = 0; reset_in = reset_in }
    else record {
      allowed = true;
      retry_after = 0;
      remaining = c.limit - b.count;
      reset_in = reset_in;
    }

make_room : ℕ → Option Bucket → Counter → Counter
make_room now none c = ensure_capacity_for_new_key now c
make_room now (some b) c = c

unfoldable pub allow : ℕ → String → Counter → Counter × Verdict
unfolding make_room
allow now key c =
    let swept = sweep now c in
    let old = existing now key swept in
    let room = make_room now old swept in
    let b = bumped now old in
    (record room { buckets = Dict.set key b room.buckets }, verdict now room b)

unfoldable pub peek : ℕ → String → Counter → Counter × Verdict
peek now key c =
    let swept = sweep now c in (swept, verdict now swept (bumped now (existing now key swept)))

-- `_BoundedFixedWindowCounter.allow`: the entry that came first makes room for a new key.
unfoldable pub evict_first : Dict Bucket → Dict Bucket
evict_first [] = []
evict_first ((k, b) ∷ d) = Dict.del k ((k, b) ∷ d)

unfoldable pub bounded_allow : ℕ → String → Counter → Counter × Verdict
unfolding evict_first
bounded_allow now key c =
    if not (is_some (Dict.get key c.buckets)) && leb c.max_keys (length c.buckets)
    then allow now key (record c { buckets = evict_first c.buckets })
    else allow now key c
