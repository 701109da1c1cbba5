-- ===== src/Quota/Keyed/Metering.antt =====
-- What a keyed request costs, and what it may not exceed.
use billcommons.Base.{
  ℕ, ◌+◌, ◌≡◌, refl, String, Bool, true, false, Option, none, some, ◌&&◌, not, if◌then◌else◌,
  if_induction, str_eq, eq_iff, arith,
}
use billcommons.Base.Dict
use billcommons.RateLimit.Counter.{allow}
use billcommons.RateLimit.Middleware.{Headers}
use billcommons.Quota.Plans.{ResolvedKey, is_usable, payment_required}
use billcommons.Quota.Anonymous.{Anonymous, AnonReply, anon_tier_check, anon_tier_peek}
use billcommons.Quota.Keyed.{
  Usage, Quotas, Lookup, Call, KeyedReply, usage_of, one_more, record_usage, is_metered,
  is_over_quota, is_suspended, reply_of, reject_after, reject_key, serve_keyed, after_burst,
  charge_key, known_key, answer_lookup, dispatch_keyed, finish_keyed, admit_keyed, refusal,
  Admission, put_burst, burst_of,
}

-- The response of the handler, if the request came so far.
abbrev pub is_handled : KeyedReply → Bool
is_handled (KeyedReply.handled status burst quota) = true
is_handled _ = false

abbrev pub customer_of : Lookup → Option String
customer_of (Lookup.found k) = some k.customer_id
customer_of Lookup.not_found = none
customer_of Lookup.unavailable = none

abbrev pub is_customer : String → Option String → Bool
is_customer c none = false
is_customer c (some d) = str_eq d c

-- What the day's usage of the customer c is after a call with the reply.
abbrev pub metered : Call → String → KeyedReply → Usage → Usage
metered r c reply u =
    if is_customer c (customer_of r.lookup)
      && (is_handled reply && (is_metered r.status && r.usage_writable))
    then one_more r.heavy u
    else u

usage-record :
    (c d : String) (heavy : Bool) (q : Quotas)
    → usage_of c (record_usage d heavy q)
      ≡ (if str_eq d c then one_more heavy (usage_of c q) else usage_of c q)
unfolding record_usage
usage-record c d heavy q =
    ground (arith, Dict.get-set d c (one_more heavy (usage_of d q)) q.today, eq_iff d c)

reply_unhandled : (a : AnonReply) → is_handled (reply_of a) ≡ false
reply_unhandled (AnonReply.anon_limited n h) = refl
reply_unhandled (AnonReply.anon_passed h) = refl
reply_unhandled AnonReply.anon_unmetered = refl

module _ (r : Call) (c : String) where
  abbrev pub Answered : String → Quotas → Quotas × KeyedReply → Type 0
  Answered d q out = usage_of c out.0 ≡ (
      if str_eq d c && (is_handled out.1 && (is_metered r.status && r.usage_writable))
      then one_more r.heavy (usage_of c q)
      else usage_of c q)

  abbrev Metered : String → Quotas → Quotas × Admission → Type 0
  Metered d q p = Answered d q (finish_keyed r p.1 p.0)

  pub Answered-serve :
      (k : ResolvedKey) (burst : Headers) (seen : Usage) (q : Quotas)
      → Answered k.customer_id q (serve_keyed r k burst seen q)
  unfolding serve_keyed
  Answered-serve k burst seen q = ground (arith, usage-record c k.customer_id r.heavy q)

  Metered-after_burst :
      (k : ResolvedKey) (burst : Headers) (q : Quotas)
      → Metered k.customer_id q (after_burst r k burst q)
  unfolding after_burst finish_keyed
  Metered-after_burst k burst q =
      if_induction (Metered k.customer_id q) (not r.usage_readable) (λ _. ground arith)
        λ _.
          if_induction (Metered k.customer_id q)
            (is_over_quota r.now r.heavy k (usage_of k.customer_id q)) (λ _. ground arith)
            λ _. Answered-serve k burst (usage_of k.customer_id q) q

  Metered-charge_key : (k : ResolvedKey) (q : Quotas) → Metered k.customer_id q (charge_key r k q)
  unfolding charge_key finish_keyed
  Metered-charge_key k q =
      let p = allow r.burst_now k.customer_id (burst_of k.plan q.bursts) in
      let q' = record q { bursts = put_burst k.plan p.0 q.bursts } in
      if_induction (Metered k.customer_id q) (not p.1.allowed) (λ _. ground arith)
        λ _.
          Metered-after_burst k
            (record { limit = p.0.limit; remaining = p.1.remaining; reset = p.1.reset_in }) q'

  abbrev pub Free : Quotas → Quotas × KeyedReply → Type 0
  Free q out = (usage_of c out.0 ≡ usage_of c q) × (is_handled out.1 ≡ false)

  Free-reject_after :
      (q : Quotas) (swept : Anonymous) (o : Option (ℕ × Headers))
      → Free q (reject_after r q swept o)
  unfolding reject_after
  Free-reject_after q swept (some p) = (refl, refl)
  Free-reject_after q swept none =
      (refl, reply_unhandled (anon_tier_check (λ i. r.clock (i + 6)) r.keys r.heavy swept).1)

  pub Free-reject_key : (q : Quotas) → Free q (reject_key r q)
  unfolding reject_key
  Free-reject_key q =
      let p = anon_tier_peek r.clock r.keys r.heavy q.anonymous in Free-reject_after q p.0 p.1

  Metered-reject_key : (d : String) (q : Quotas) → Metered d q (refusal (reject_key r q))
  unfolding finish_keyed
  Metered-reject_key d q = let f = Free-reject_key q in ground (arith, f.0, f.1)

  Metered-known_key : (k : ResolvedKey) (q : Quotas) → Metered k.customer_id q (known_key r k q)
  unfolding known_key finish_keyed
  Metered-known_key k q =
      if_induction (Metered k.customer_id q) (not (is_usable r.now k))
        (λ _. Metered-reject_key k.customer_id q)
        λ _.
          if_induction (Metered k.customer_id q) (is_suspended k.customer_suspended_at)
            (λ _. ground arith)
            λ _.
              if_induction (Metered k.customer_id q) (payment_required r.now k) (λ _. ground arith)
                λ _. Metered-charge_key k q

  -- A keyed call that no other overlaps adds one to the day's usage of a customer exactly if it is
  -- the customer's key, the handler ran, its status is metered and the database took it; else it
  -- adds nothing.
  pub dispatch_keyed-usage :
      (q : Quotas)
      → usage_of c (dispatch_keyed r q).0 ≡ metered r c (dispatch_keyed r q).1 (usage_of c q)
  unfolding dispatch_keyed admit_keyed answer_lookup finish_keyed
  dispatch_keyed-usage q = go r.lookup
    where
      go :
          (l : Lookup)
          → (let out = finish_keyed r (answer_lookup r l q).1 (answer_lookup r l q).0 in
              usage_of c out.0 ≡ (
                if is_customer c (customer_of l)
                  && (is_handled out.1 && (is_metered r.status && r.usage_writable))
                then one_more r.heavy (usage_of c q)
                else usage_of c q))
      go (Lookup.found k) = Metered-known_key k q
      go Lookup.not_found = (Free-reject_key q).0
      go Lookup.unavailable = refl
