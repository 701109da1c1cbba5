-- ===== src/Quota/Anonymous/Verdicts.antt =====
-- A single tier of the anonymous path answers as its peek foretells.
use native.Mathlib.Nat.{le_refl}
use billcommons.Base.{
  ℕ, ◌≡◌, refl, sym, ◌∙◌, ap, String, Bool, true, Option, none, some, [], ◌∷◌, ◌&&◌, not, leb,
  arith, str_eq, if_induction, length, is_some,
}
use billcommons.Base.Dict
use billcommons.Base.Dict.{Dict, IsUnique, del-IsUnique}
use billcommons.RateLimit.Counter.{
  verdict, bumped, sweep, in_window, Bucket, Counter, Verdict, allow, bounded_allow, peek, existing,
  evict_first,
}
use billcommons.RateLimit.Counter.Verdicts.{peek-eq-allow, existing-sweep}
use billcommons.RateLimit.Counter.Charges.{allow-SameLimits, peek-SameLimits, sweep-SameLimits}
use billcommons.Quota.Anonymous.{AnonTier, anon_allow}

verdict_same :
    (now : ℕ) (c d : Counter) (b : Bucket)
    → c.limit ≡ d.limit
    → c.window ≡ d.window
    → verdict now c b ≡ verdict now d b
unfolding verdict
verdict_same now c d b l w = ground (arith, l, w)

peek-verdict :
    (now : ℕ) (key : String) (c : Counter)
    → IsUnique c.buckets
    → (peek now key c).1 ≡ verdict now c (bumped now (existing now key c))
unfolding peek
peek-verdict now key c u =
    let same = sweep-SameLimits now c in
    verdict_same now (sweep now c) c (bumped now (existing now key (sweep now c))) same.limit
      same.window
    ∙ ap (λ o. verdict now c (bumped now o)) (existing-sweep (le_refl now) key c u)

abbrev evicted : Counter → Counter
evicted c = record c { buckets = evict_first c.buckets }

evict_first-IsUnique : (d : Dict Bucket) → IsUnique d → IsUnique (evict_first d)
unfolding evict_first
evict_first-IsUnique [] u = u
evict_first-IsUnique ((k, b) ∷ d) u = del-IsUnique k ((k, b) ∷ d) u

get-evict_first :
    (key : String) (d : Dict Bucket) → Dict.get key d ≡ none → Dict.get key (evict_first d) ≡ none
unfolding evict_first
get-evict_first key [] h = h
get-evict_first key ((k, b) ∷ d) h =
    Dict.get-del k key ((k, b) ∷ d) ∙ if_induction (λ o. o ≡ none) (str_eq k key) (λ _. refl) λ _. h

unknown :
    (now : ℕ) (key : String) (c : Counter)
    → Dict.get key c.buckets ≡ none
    → existing now key c ≡ none
unfolding existing
unknown now key c h = ap (Dict.only (in_window c.window now)) h

verdict_evicted :
    (now : ℕ) (key : String) (c : Counter)
    → IsUnique c.buckets
    → Dict.get key c.buckets ≡ none
    → (allow now key (evicted c)).1 ≡ (peek now key c).1
verdict_evicted now key c u h =
    sym (peek-eq-allow now key (evicted c))
    ∙ peek-verdict now key (evicted c) (evict_first-IsUnique c.buckets u)
    ∙ verdict_same now (evicted c) c (bumped now (existing now key (evicted c))) refl refl
    ∙ ap (λ o. verdict now c (bumped now o))
        (unknown now key (evicted c) (get-evict_first key c.buckets h) ∙ sym (unknown now key c h))
    ∙ sym (peek-verdict now key c u)

not_known : (o : Option Bucket) (b : Bool) → not (is_some o) && b ≡ true → o ≡ none
not_known none b h = refl
not_known (some x) b h = ground arith

-- A bounded counter answers as the peek foretold, and keeps its limit.
bounded_allow-verdict :
    (now : ℕ) (key : String) (c : Counter)
    → IsUnique c.buckets
    → ((bounded_allow now key c).1 ≡ (peek now key c).1)
      × ((bounded_allow now key c).0.limit ≡ c.limit)
unfolding bounded_allow
bounded_allow-verdict now key c u =
    if_induction (λ (p : Counter × Verdict). (p.1 ≡ (peek now key c).1) × (p.0.limit ≡ c.limit)) _
      (λ new. (
        verdict_evicted now key c u
            (not_known (Dict.get key c.buckets) (leb c.max_keys (length c.buckets)) new),
        (allow-SameLimits now key (evicted c)).limit,
      ))
      λ _. (sym (peek-eq-allow now key c), (allow-SameLimits now key c).limit)

-- A tier answers as the peek foretold.
abbrev pub Foretold : AnonTier → ℕ → String → Counter → Type 0
Foretold t now key c =
    ((anon_allow t now key c).1 ≡ (peek now key c).1)
    × ((anon_allow t now key c).0.limit ≡ (peek now key c).0.limit)

plain :
    (now : ℕ) (key : String) (c : Counter)
    → ((allow now key c).1 ≡ (peek now key c).1)
      × ((allow now key c).0.limit ≡ (peek now key c).0.limit)
plain now key c = (
  sym (peek-eq-allow now key c),
  (allow-SameLimits now key c).limit ∙ sym (peek-SameLimits now key c).limit,
)

bounded :
    (now : ℕ) (key : String) (c : Counter)
    → IsUnique c.buckets
    → ((bounded_allow now key c).1 ≡ (peek now key c).1)
      × ((bounded_allow now key c).0.limit ≡ (peek now key c).0.limit)
bounded now key c u =
    let b = bounded_allow-verdict now key c u in (b.0, b.1 ∙ sym (peek-SameLimits now key c).limit)

pub foretold :
    (t : AnonTier) (now : ℕ) (key : String) (c : Counter)
    → IsUnique c.buckets
    → Foretold t now key c
unfolding anon_allow
foretold AnonTier.default_ip now key c u = plain now key c
foretold AnonTier.default_subnet now key c u = plain now key c
foretold AnonTier.daily_ip now key c u = bounded now key c u
foretold AnonTier.daily_subnet now key c u = bounded now key c u
foretold AnonTier.heavy_ip now key c u = plain now key c
foretold AnonTier.heavy_subnet now key c u = plain now key c
