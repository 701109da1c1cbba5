-- ===== src/Quota/Keyed.antt =====
-- The keyed path of `QuotaMiddleware`. The counters of the plans read the clock at `burst_now`; the
-- database answers or fails at each of its three calls. `today` is the table `api_customer_usage` of
-- the day. `status` is the status of the response of the handler. The usage is read before the handler
-- runs and written after it, in sessions of their own, so that calls of a customer may overlap: `Flow`.
pub mod Metering
pub mod Flow
pub mod Ceiling
use billcommons.Base.{
  ℕ, ◌+◌, ◌-◌, String, Bool, true, false, Option, none, some, List, [], ◌∷◌, ◌&&◌, ◌||◌, not, any,
  leb, ltb, ◌==◌, if◌then◌else◌,
}
use billcommons.Base.Dict
use billcommons.Base.Dict.{Dict}
use billcommons.RateLimit.Counter.{Counter, Verdict, allow}
use billcommons.RateLimit.Middleware.{Keys, Headers}
use billcommons.Quota.Plans.{
  Plan, ResolvedKey, is_usable, payment_required, active_extra_requests_per_day,
  active_extra_heavy_per_day, contractual_request_limit, contractual_heavy_limit,
  effective_request_limit, effective_heavy_limit,
}
use billcommons.Quota.Anonymous.{Anonymous, AnonReply, anon_tier_check, anon_tier_peek}

pub record Usage : Type 0 where
  pub requests : ℕ
  pub heavy_requests : ℕ

pub record Bursts : Type 0 where
  pub developer : Counter
  pub builder : Counter
  pub scale : Counter
  pub enterprise : Counter

-- self._burst_by_plan[plan]
unfoldable pub burst_of : Plan → Bursts → Counter
burst_of Plan.developer b = b.developer
burst_of Plan.builder b = b.builder
burst_of Plan.scale b = b.scale
burst_of Plan.enterprise b = b.enterprise

unfoldable pub put_burst : Plan → Counter → Bursts → Bursts
put_burst Plan.developer c b = record b { developer = c }
put_burst Plan.builder c b = record b { builder = c }
put_burst Plan.scale c b = record b { scale = c }
put_burst Plan.enterprise c b = record b { enterprise = c }

pub record Quotas : Type 0 where
  pub anonymous : Anonymous
  pub bursts : Bursts
  pub today : Dict Usage

-- `resolve_key` finds the key, does not know it, or raises.
pub data Lookup : Type 0 where
  found : ResolvedKey → Lookup
  not_found : Lookup
  unavailable : Lookup

pub record Call : Type 0 where
  pub clock : ℕ → ℕ
  pub now : ℕ
  pub burst_now : ℕ
  pub keys : Keys
  pub heavy : Bool
  pub lookup : Lookup
  pub usage_readable : Bool
  pub usage_writable : Bool
  pub status : ℕ

-- The X-Quota headers: the contractual limits and what is left of them.
pub record QuotaHeaders : Type 0 where
  pub limit : ℕ
  pub remaining : ℕ
  pub heavy_limit : ℕ
  pub heavy_remaining : ℕ
  pub plan : Plan

pub data KeyedReply : Type 0 where
  quota_unavailable : KeyedReply
  limited : ℕ → Headers → KeyedReply
  invalid_api_key : KeyedReply
  account_suspended : KeyedReply
  payment_due : KeyedReply
  burst_limited : ℕ → Headers → KeyedReply
  quota_exceeded : QuotaHeaders → KeyedReply
  handled : ℕ → Headers → QuotaHeaders → KeyedReply

-- `_read_usage`
abbrev pub usage_of : String → Quotas → Usage
usage_of customer q = elim (Dict.get customer q.today) [
  | none ↦ record { requests = 0; heavy_requests = 0 }
  | some u ↦ u
]

abbrev pub one_more : Bool → Usage → Usage
one_more heavy u = record {
  requests = u.requests + 1;
  heavy_requests = u.heavy_requests + (if heavy then 1 else 0);
}

-- `_record_usage`: the upsert of the row of the customer.
unfoldable pub record_usage : String → Bool → Quotas → Quotas
record_usage customer heavy q = record q {
  today = Dict.set customer (one_more heavy (usage_of customer q)) q.today;
}

-- status < 500 and status not in (429, 401, 402, 403)
unfoldable pub is_metered : ℕ → Bool
is_metered status = ltb status 500 && not (any (λ s. s == status) (429 ∷ 401 ∷ 402 ∷ 403 ∷ []))

unfoldable pub quota_headers : ℕ → ResolvedKey → Usage → QuotaHeaders
quota_headers now k u =
    let req = contractual_request_limit k.plan (active_extra_requests_per_day now k) in
    let hvy = contractual_heavy_limit k.plan (active_extra_heavy_per_day now k) in
    record {
      limit = req;
      remaining = req - u.requests;
      heavy_limit = hvy;
      heavy_remaining = hvy - u.heavy_requests;
      plan = k.plan;
    }

-- The headers of a 429, which say that no request is left, also where only the heavy ones are spent.
abbrev pub exceeded_headers : ℕ → ResolvedKey → Usage → QuotaHeaders
exceeded_headers now k u = record (quota_headers now k u) { remaining = 0 }

unfoldable pub is_over_quota : ℕ → Bool → ResolvedKey → Usage → Bool
is_over_quota now heavy k u =
    leb (effective_request_limit k.plan (active_extra_requests_per_day now k)) u.requests
    || (heavy
        && leb (effective_heavy_limit k.plan (active_extra_heavy_per_day now k)) u.heavy_requests)

-- What precedes the handler refuses the call, or lets it pass to the handler.
pub data Admission : Type 0 where
  refused : KeyedReply → Admission
  admitted : ResolvedKey → Headers → Usage → Admission

abbrev pub reply_of : AnonReply → KeyedReply
reply_of (AnonReply.anon_limited n h) = KeyedReply.limited n h
reply_of (AnonReply.anon_passed h) = KeyedReply.invalid_api_key
reply_of AnonReply.anon_unmetered = KeyedReply.invalid_api_key

-- What follows the peek, with the state that it swept.
unfoldable pub reject_after : Call → Quotas → Anonymous → Option (ℕ × Headers) → Quotas × KeyedReply
reject_after r q swept (some p) = (record q { anonymous = swept }, KeyedReply.limited p.0 p.1)
reject_after r q swept none =
    let (charged, reply) = anon_tier_check (λ i. r.clock (i + 6)) r.keys r.heavy swept in
    (record q { anonymous = charged }, reply_of reply)

-- A key that is unknown, revoked or expired costs what an anonymous request costs.
unfoldable pub reject_key : Call → Quotas → Quotas × KeyedReply
reject_key r q =
    let (swept, over) = anon_tier_peek r.clock r.keys r.heavy q.anonymous in
    reject_after r q swept over

burst_headers : Counter → ℕ → ℕ → Headers
burst_headers c remaining reset = record { limit = c.limit; remaining = remaining; reset = reset }

-- The handler runs, and what it did is metered if the database takes it. The headers tell of `seen`, the
-- usage that the pre-check has read, unless the upsert returns a newer one.
unfoldable pub serve_keyed : Call → ResolvedKey → Headers → Usage → Quotas → Quotas × KeyedReply
serve_keyed r k burst seen q =
    let q' = record_usage k.customer_id r.heavy q in
    if is_metered r.status && r.usage_writable
    then (q', KeyedReply.handled r.status burst (quota_headers r.now k (usage_of k.customer_id q')))
    else (q, KeyedReply.handled r.status burst (quota_headers r.now k seen))

-- The pre-check, which reads the usage in a transaction of its own.
unfoldable pub after_burst : Call → ResolvedKey → Headers → Quotas → Quotas × Admission
after_burst r k burst q =
    if not r.usage_readable
    then (q, Admission.refused KeyedReply.quota_unavailable)
    else if is_over_quota r.now r.heavy k (usage_of k.customer_id q)
    then (
      q,
      Admission.refused
          (KeyedReply.quota_exceeded (exceeded_headers r.now k (usage_of k.customer_id q))),
    )
    else (q, Admission.admitted k burst (usage_of k.customer_id q))

-- A usable key: the account, the payment, the burst of the customer, then the quota of the day.
unfoldable pub charge_key : Call → ResolvedKey → Quotas → Quotas × Admission
unfolding burst_headers
charge_key r k q =
    let (c, v) = allow r.burst_now k.customer_id (burst_of k.plan q.bursts) in
    let q' = record q { bursts = put_burst k.plan c q.bursts } in
    if not v.allowed
    then (
      q',
      Admission.refused (KeyedReply.burst_limited v.retry_after (burst_headers c 0 v.retry_after)),
    )
    else after_burst r k (burst_headers c v.remaining v.reset_in) q'

abbrev pub is_suspended : Option ℕ → Bool
is_suspended none = false
is_suspended (some t) = true

abbrev pub refusal : Quotas × KeyedReply → Quotas × Admission
refusal out = (out.0, Admission.refused out.1)

unfoldable pub known_key : Call → ResolvedKey → Quotas → Quotas × Admission
known_key r k q =
    if not (is_usable r.now k)
    then refusal (reject_key r q)
    else if is_suspended k.customer_suspended_at
    then (q, Admission.refused KeyedReply.account_suspended)
    else if payment_required r.now k
    then (q, Admission.refused KeyedReply.payment_due)
    else charge_key r k q

unfoldable pub answer_lookup : Call → Lookup → Quotas → Quotas × Admission
answer_lookup r Lookup.unavailable q = (q, Admission.refused KeyedReply.quota_unavailable)
answer_lookup r Lookup.not_found q = refusal (reject_key r q)
answer_lookup r (Lookup.found k) q = known_key r k q

-- `_dispatch_keyed` up to `await call_next`.
unfoldable pub admit_keyed : Call → Quotas → Quotas × Admission
admit_keyed r q = answer_lookup r r.lookup q

-- `_dispatch_keyed` from `await call_next` on, with what other calls have left by then.
pub finish_keyed : Call → Admission → Quotas → Quotas × KeyedReply
finish_keyed r (refused reply) q = (q, reply)
finish_keyed r (admitted k burst seen) q = serve_keyed r k burst seen q

-- A call that no other one overlaps.
unfoldable pub dispatch_keyed : Call → Quotas → Quotas × KeyedReply
unfolding finish_keyed
dispatch_keyed r q = let (q', a) = admit_keyed r q in finish_keyed r a q'
