-- ===== src/Quota/Anonymous/Peek.antt =====
-- `_anon_tier_peek` foretells `_anon_tier_check`.
use billcommons.Base.{
  ℕ, ◌+◌, ◌≡◌, refl, sym, ◌∙◌, Bool, true, false, Option, none, some, List, [], ◌∷◌, arith,
}
use billcommons.Base.Dict.{IsUnique}
use billcommons.RateLimit.Counter.{Counter, Verdict, peek}
use billcommons.RateLimit.Middleware.{Keys, Headers}
use billcommons.Quota.Anonymous.{
  Anonymous, AnonTier, AnonReply, anon_counter, put_anon, anon_key, anon_allow, anon_tiers, Walk,
  walk, headers_for, anon_reply, anon_tier_check, anon_tier_peek,
}
use billcommons.Quota.Anonymous.Verdicts.{foretold}

-- The unique keys of the counters, which dictionaries have.
abbrev pub AllUnique : Anonymous → Type 0
AllUnique s = (t : AnonTier) → IsUnique (anon_counter t s).buckets

-- What a reply refuses with, and a walk.
abbrev pub refusal : AnonReply → Option (ℕ × Headers)
refusal (AnonReply.anon_limited n h) = some (n, h)
refusal (AnonReply.anon_passed h) = none
refusal AnonReply.anon_unmetered = none

refused_with : Option (AnonTier × Verdict) → Anonymous → Option (ℕ × Headers)
refused_with none s = none
refused_with (some p) s = some (p.1.retry_after, headers_for s p.0 0 p.1.retry_after)

counter_put : (t : AnonTier) (c : Counter) (s : Anonymous) → anon_counter t (put_anon t c s) ≡ c
unfolding anon_counter put_anon
counter_put AnonTier.default_ip c s = refl
counter_put AnonTier.default_subnet c s = refl
counter_put AnonTier.daily_ip c s = refl
counter_put AnonTier.daily_subnet c s = refl
counter_put AnonTier.heavy_ip c s = refl
counter_put AnonTier.heavy_subnet c s = refl

peek_of :
    (w : Walk)
    → (elim w.failed [
      | none ↦ none
      | some p ↦ some (p.1.retry_after, headers_for w.state p.0 0 p.1.retry_after)
    ])
      ≡ refused_with w.failed w.state
unfolding refused_with
peek_of w = go w.failed
  where
    go :
        (o : Option (AnonTier × Verdict))
        → (elim o [
          | none ↦ none
          | some p ↦ some (p.1.retry_after, headers_for w.state p.0 0 p.1.retry_after)
        ])
          ≡ refused_with o w.state
    go none = refl
    go (some p) = refl

refusal-anon_reply : (w : Walk) → refusal (anon_reply w) ≡ refused_with w.failed w.state
unfolding refused_with
refusal-anon_reply w = go w.failed w.allowed w.state
  where
    go :
        (o : Option (AnonTier × Verdict)) (ps : List (AnonTier × Verdict)) (st : Anonymous)
        → refusal (anon_reply (record { state = st; failed = o; allowed = ps })) ≡ refused_with o st
    go none [] st = refl
    go none (p ∷ ps) st = refl
    go (some p) ps st = refl

module _ (clock : ℕ → ℕ) (keys : Keys) where
  abbrev peeked : ℕ → List AnonTier → Anonymous → Option (ℕ × Headers)
  peeked i ts s = let w = walk (λ t. peek) clock i keys ts s in refused_with w.failed w.state

  abbrev checked : ℕ → List AnonTier → Anonymous → Option (ℕ × Headers)
  checked i ts s = let w = walk anon_allow clock i keys ts s in refused_with w.failed w.state

  abbrev swept_at : ℕ → AnonTier → Anonymous → Anonymous
  swept_at i t s = put_anon t (peek (clock i) (anon_key t keys) (anon_counter t s)).0 s

  abbrev charged_at : ℕ → AnonTier → Anonymous → Anonymous
  charged_at i t s = put_anon t (anon_allow t (clock i) (anon_key t keys) (anon_counter t s)).0 s

  -- If the walks agree behind a tier, and on its counter, they agree from it.
  step :
      (i : ℕ) (t : AnonTier) (ts : List AnonTier) (s s' : Anonymous)
      → anon_counter t s ≡ anon_counter t s'
      → IsUnique (anon_counter t s').buckets
      → peeked (i + 1) ts (put_anon t (peek (clock i) (anon_key t keys) (anon_counter t s)).0 s)
        ≡ checked
            (i + 1)
            ts
            (put_anon t (anon_allow t (clock i) (anon_key t keys) (anon_counter t s')).0 s')
      → peeked i (t ∷ ts) s ≡ checked i (t ∷ ts) s'
  unfolding walk refused_with
  step i t ts s s' same u rest =
      let told = foretold t (clock i) (anon_key t keys) (anon_counter t s') u in
      let c = (peek (clock i) (anon_key t keys) (anon_counter t s)).0 in
      let c' = (anon_allow t (clock i) (anon_key t keys) (anon_counter t s')).0 in
      ground (arith, told.0, told.1, counter_put t c s, counter_put t c' s', same, rest)

  module _ (s : Anonymous) (u : AllUnique s) where
    walks_agree : (heavy : Bool) → peeked 0 (anon_tiers heavy) s ≡ checked 0 (anon_tiers heavy) s
    unfolding put_anon anon_counter walk refused_with
    walks_agree false =
        let p1 = swept_at 0 AnonTier.default_ip s in
        let c1 = charged_at 0 AnonTier.default_ip s in
        let p2 = swept_at 1 AnonTier.default_subnet p1 in
        let c2 = charged_at 1 AnonTier.default_subnet c1 in
        let p3 = swept_at 2 AnonTier.daily_ip p2 in
        let c3 = charged_at 2 AnonTier.daily_ip c2 in
        let p4 = swept_at 3 AnonTier.daily_subnet p3 in
        let c4 = charged_at 3 AnonTier.daily_subnet c3 in
        step 0 AnonTier.default_ip
          (AnonTier.default_subnet ∷ AnonTier.daily_ip ∷ AnonTier.daily_subnet ∷ []) s s refl
          (u AnonTier.default_ip)
          (step 1 AnonTier.default_subnet (AnonTier.daily_ip ∷ AnonTier.daily_subnet ∷ []) p1 c1
            refl (u AnonTier.default_subnet)
            (step 2 AnonTier.daily_ip (AnonTier.daily_subnet ∷ []) p2 c2 refl (u AnonTier.daily_ip)
              (step 3 AnonTier.daily_subnet ([]) p3 c3 refl (u AnonTier.daily_subnet) refl)))
    walks_agree true =
        let p1 = swept_at 0 AnonTier.default_ip s in
        let c1 = charged_at 0 AnonTier.default_ip s in
        let p2 = swept_at 1 AnonTier.default_subnet p1 in
        let c2 = charged_at 1 AnonTier.default_subnet c1 in
        let p3 = swept_at 2 AnonTier.daily_ip p2 in
        let c3 = charged_at 2 AnonTier.daily_ip c2 in
        let p4 = swept_at 3 AnonTier.daily_subnet p3 in
        let c4 = charged_at 3 AnonTier.daily_subnet c3 in
        let p5 = swept_at 4 AnonTier.heavy_ip p4 in
        let c5 = charged_at 4 AnonTier.heavy_ip c4 in
        let p6 = swept_at 5 AnonTier.heavy_subnet p5 in
        let c6 = charged_at 5 AnonTier.heavy_subnet c5 in
        step 0 AnonTier.default_ip
          (AnonTier.default_subnet ∷ AnonTier.daily_ip ∷ AnonTier.daily_subnet ∷ AnonTier.heavy_ip
            ∷ AnonTier.heavy_subnet ∷ [])
          s s refl (u AnonTier.default_ip)
          (step 1 AnonTier.default_subnet
            (AnonTier.daily_ip ∷ AnonTier.daily_subnet ∷ AnonTier.heavy_ip ∷ AnonTier.heavy_subnet
              ∷ [])
            p1 c1 refl (u AnonTier.default_subnet)
            (step 2 AnonTier.daily_ip
              (AnonTier.daily_subnet ∷ AnonTier.heavy_ip ∷ AnonTier.heavy_subnet ∷ []) p2 c2 refl
              (u AnonTier.daily_ip)
              (step 3 AnonTier.daily_subnet (AnonTier.heavy_ip ∷ AnonTier.heavy_subnet ∷ []) p3 c3
                refl (u AnonTier.daily_subnet)
                (step 4 AnonTier.heavy_ip (AnonTier.heavy_subnet ∷ []) p4 c4 refl
                  (u AnonTier.heavy_ip)
                  (step 5 AnonTier.heavy_subnet ([]) p5 c5 refl (u AnonTier.heavy_subnet) refl)))))

    -- Where the keys of the counters are unique, the peek over the anonymous tiers refuses exactly
    -- the requests that the check on the same readings of the clock would refuse, with the same
    -- Retry-After and headers.
    pub anon_tier_peek-foretells :
        (heavy : Bool)
        → (anon_tier_peek clock keys heavy s).1 ≡ refusal (anon_tier_check clock keys heavy s).1
    unfolding anon_tier_peek anon_tier_check
    anon_tier_peek-foretells heavy =
        peek_of (walk (λ t. peek) clock 0 keys (anon_tiers heavy) s)
        ∙ walks_agree heavy
        ∙ sym (refusal-anon_reply (walk anon_allow clock 0 keys (anon_tiers heavy) s))
