-- ===== src/Quota/Anonymous.antt =====
-- The anonymous path of `QuotaMiddleware`: the tiers are charged in order, and the first that refuses
-- ends the walk. Each call of a counter reads the clock anew: the i-th reading is `clock i`.
pub mod Verdicts
pub mod Peek
use billcommons.Base.{
  ℕ, ◌+◌, String, Bool, true, false, Option, none, some, List, [], ◌∷◌, ltb, if◌then◌else◌,
}
use billcommons.RateLimit.Counter.{Counter, Verdict, allow, bounded_allow, peek}
use billcommons.RateLimit.Middleware.{Tier, Keys, Headers}

pub record Anonymous : Type 0 where
  pub default : Tier
  pub heavy : Tier
  pub daily_ip : Counter
  pub daily_subnet : Counter

pub data AnonTier : Type 0 where
  default_ip default_subnet daily_ip daily_subnet heavy_ip heavy_subnet : AnonTier

unfoldable pub anon_counter : AnonTier → Anonymous → Counter
anon_counter default_ip s = s.default.ip
anon_counter default_subnet s = s.default.subnet
anon_counter daily_ip s = s.daily_ip
anon_counter daily_subnet s = s.daily_subnet
anon_counter heavy_ip s = s.heavy.ip
anon_counter heavy_subnet s = s.heavy.subnet

unfoldable pub put_anon : AnonTier → Counter → Anonymous → Anonymous
put_anon default_ip c s = record s { default = record s.default { ip = c } }
put_anon default_subnet c s = record s { default = record s.default { subnet = c } }
put_anon daily_ip c s = record s { daily_ip = c }
put_anon daily_subnet c s = record s { daily_subnet = c }
put_anon heavy_ip c s = record s { heavy = record s.heavy { ip = c } }
put_anon heavy_subnet c s = record s { heavy = record s.heavy { subnet = c } }

abbrev pub anon_key : AnonTier → Keys → String
anon_key default_ip k = k.ip_key
anon_key default_subnet k = k.subnet_key
anon_key daily_ip k = k.ip_key
anon_key daily_subnet k = k.subnet_key
anon_key heavy_ip k = k.ip_key
anon_key heavy_subnet k = k.subnet_key

-- The daily counters are bounded ones.
unfoldable pub anon_allow : AnonTier → ℕ → String → Counter → Counter × Verdict
anon_allow daily_ip now key c = bounded_allow now key c
anon_allow daily_subnet now key c = bounded_allow now key c
anon_allow default_ip now key c = allow now key c
anon_allow default_subnet now key c = allow now key c
anon_allow heavy_ip now key c = allow now key c
anon_allow heavy_subnet now key c = allow now key c

abbrev pub anon_tiers : Bool → List AnonTier
anon_tiers true =
    default_ip ∷ default_subnet ∷ daily_ip ∷ daily_subnet ∷ heavy_ip ∷ heavy_subnet ∷ []
anon_tiers false = default_ip ∷ default_subnet ∷ daily_ip ∷ daily_subnet ∷ []

-- The loop over the tiers: the state, the tier that refused with its answer, and the tiers that
-- allowed the request with theirs.
pub record Walk : Type 0 where
  pub state : Anonymous
  pub failed : Option (AnonTier × Verdict)
  pub allowed : List (AnonTier × Verdict)

unfoldable pub walk :
    (AnonTier → ℕ → String → Counter → Counter × Verdict)
    → (ℕ → ℕ)
    → ℕ
    → Keys
    → List AnonTier
    → Anonymous
    → Walk
walk hit clock i keys [] s = record { state = s; failed = none; allowed = [] }
walk hit clock i keys (t ∷ ts) s =
    let (c, v) = hit t (clock i) (anon_key t keys) (anon_counter t s) in
    let s' = put_anon t c s in
    let rest = walk hit clock (i + 1) keys ts s' in
    if v.allowed
    then record rest { allowed = (t, v) ∷ rest.allowed }
    else record { state = s'; failed = some (t, v); allowed = [] }

-- min(allowed_pairs, key=remaining): the first of the least
abbrev pub tightest : AnonTier × Verdict → List (AnonTier × Verdict) → AnonTier × Verdict
tightest best [] = best
tightest best (p ∷ ps) = tightest (if ltb p.1.remaining best.1.remaining then p else best) ps

-- A 429 with its Retry-After and headers, or the headers of the tightest bucket.
pub data AnonReply : Type 0 where
  anon_limited : ℕ → Headers → AnonReply
  anon_passed : Headers → AnonReply
  anon_unmetered : AnonReply

abbrev pub headers_for : Anonymous → AnonTier → ℕ → ℕ → Headers
headers_for s t remaining reset = record {
  limit = (anon_counter t s).limit;
  remaining = remaining;
  reset = reset;
}

abbrev pub anon_reply : Walk → AnonReply
anon_reply w = elim w.failed [
  | some p ↦ AnonReply.anon_limited p.1.retry_after (headers_for w.state p.0 0 p.1.retry_after)
  | none ↦ elim w.allowed [
    | [] ↦ AnonReply.anon_unmetered
    | p ∷ ps ↦
        let b = tightest p ps in
        AnonReply.anon_passed (headers_for w.state b.0 b.1.remaining b.1.reset_in)
  ]
]

unfoldable pub anon_tier_check : (ℕ → ℕ) → Keys → Bool → Anonymous → Anonymous × AnonReply
anon_tier_check clock keys heavy s =
    let w = walk anon_allow clock 0 keys (anon_tiers heavy) s in (w.state, anon_reply w)

-- The answer of the first tier that would refuse; `peek` sweeps, and charges nothing.
unfoldable pub anon_tier_peek : (ℕ → ℕ) → Keys → Bool → Anonymous → Anonymous × Option (ℕ × Headers)
anon_tier_peek clock keys heavy s =
    let w = walk (λ t. peek) clock 0 keys (anon_tiers heavy) s in
    (
      w.state,
      elim w.failed [
        | none ↦ none
        | some p ↦ some (p.1.retry_after, headers_for w.state p.0 0 p.1.retry_after)
      ],
    )
