-- ===== src/Quota/Keyed/Ceiling.antt =====
-- The enforced limits of a customer, and the calls of the customer that overlap.
use billcommons.Base.{
  ℕ, zero, suc, ◌+◌, ◌≤◌, ◌<◌, ◌≡◌, refl, ap, subst, String, Bool, true, false, List, [], ◌∷◌, ◌&&◌,
  ◌||◌, not, all, leb, if_induction, if◌then◌else◌, str_eq, eq_iff, arith, Bool-cases, inl, inr,
}
use billcommons.RateLimit.Counter.{allow}
use billcommons.RateLimit.Middleware.{Headers}
use billcommons.Quota.Plans.{
  ResolvedKey, is_usable, payment_required, active_extra_requests_per_day,
  active_extra_heavy_per_day, effective_request_limit, effective_heavy_limit,
}
use billcommons.Quota.Keyed.{
  Usage, Quotas, Lookup, Call, usage_of, is_over_quota, is_suspended, serve_keyed, after_burst,
  charge_key, known_key, answer_lookup, put_burst, burst_of, Admission, admit_keyed,
}
use billcommons.Quota.Keyed.Flow.{enter, finish_at, Flow, Moment, happen, happen_all}
use billcommons.Quota.Keyed.Metering.{Free-reject_key, Answered-serve}

-- A count of the day: that of the heavy requests, or that of all.
abbrev pub count_of : Bool → Usage → ℕ
count_of heavy u = if heavy then u.heavy_requests else u.requests

abbrev pub limit_of : Bool → Call → ResolvedKey → ℕ
limit_of heavy r k =
    if heavy
    then effective_heavy_limit k.plan (active_extra_heavy_per_day r.now k)
    else effective_request_limit k.plan (active_extra_requests_per_day r.now k)

-- The call has to pass the limit.
abbrev pub is_limited : Bool → Call → Bool
is_limited heavy r = not heavy || r.heavy

module _ (heavy : Bool) (c : String) where
  abbrev weight : Call → ResolvedKey → ℕ
  weight r k = if str_eq k.customer_id c && is_limited heavy r then 1 else 0

  -- How many limited calls of the customer run.
  abbrev pub running_of : List (Call × ResolvedKey × Headers × Usage) → ℕ
  running_of [] = 0
  running_of ((r, k, burst, seen) ∷ running) = weight r k + running_of running

  -- No key of the customer has a limit above the given one.
  abbrev pub has_limit : ℕ → Call → Lookup → Bool
  has_limit limit r (Lookup.found k) =
      not (str_eq k.customer_id c) || leb (limit_of heavy r k) limit
  has_limit limit r Lookup.not_found = true
  has_limit limit r Lookup.unavailable = true

  abbrev pub within_limit : ℕ → Moment → Bool
  within_limit limit (Moment.arrives r) = has_limit limit r r.lookup
  within_limit limit (Moment.ends n) = true

  -- At most n limited calls of the customer run at a time.
  unfoldable pub overlaps_by : ℕ → List Moment → Flow → Bool
  overlaps_by n [] w = true
  overlaps_by n (m ∷ ms) w =
      let rest = overlaps_by n ms (happen m w) in leb (running_of (happen m w).running) n && rest

  abbrev spent : Quotas → ℕ
  spent q = count_of heavy (usage_of c q)

  -- What an admission says of the usage.
  abbrev Passed : Call → Lookup → Quotas → Admission → Type 0
  Passed r l q (Admission.refused reply) = Unit
  Passed r l q (Admission.admitted k burst seen) =
      (l ≡ Lookup.found k) × (is_over_quota r.now r.heavy k (usage_of k.customer_id q) ≡ false)

  abbrev Admitted : Call → Lookup → Quotas → Quotas × Admission → Type 0
  Admitted r l q out = (usage_of c out.0 ≡ usage_of c q) × Passed r l q out.1

  Admitted-after_burst :
      (r : Call) (k : ResolvedKey) (burst : Headers) (q : Quotas)
      → Admitted r (Lookup.found k) q (after_burst r k burst q)
  unfolding after_burst
  Admitted-after_burst r k burst q =
      if_induction (Admitted r (Lookup.found k) q) (not r.usage_readable) (λ _. (refl, tt))
        λ _.
          if_induction (Admitted r (Lookup.found k) q)
            (is_over_quota r.now r.heavy k (usage_of k.customer_id q)) (λ _. (refl, tt))
            λ under. (refl, (refl, under))

  Admitted-charge_key :
      (r : Call) (k : ResolvedKey) (q : Quotas) → Admitted r (Lookup.found k) q (charge_key r k q)
  unfolding charge_key
  Admitted-charge_key r k q =
      let p = allow r.burst_now k.customer_id (burst_of k.plan q.bursts) in
      let q' = record q { bursts = put_burst k.plan p.0 q.bursts } in
      if_induction (Admitted r (Lookup.found k) q) (not p.1.allowed) (λ _. (refl, tt))
        λ _.
          Admitted-after_burst r k
            (record { limit = p.0.limit; remaining = p.1.remaining; reset = p.1.reset_in }) q'

  Admitted-answer_lookup :
      (r : Call) (l : Lookup) (q : Quotas) → Admitted r l q (answer_lookup r l q)
  unfolding answer_lookup known_key
  Admitted-answer_lookup r Lookup.unavailable q = (refl, tt)
  Admitted-answer_lookup r Lookup.not_found q = ((Free-reject_key r c q).0, tt)
  Admitted-answer_lookup r (Lookup.found k) q =
      if_induction (Admitted r (Lookup.found k) q) (not (is_usable r.now k))
        (λ _. ((Free-reject_key r c q).0, tt))
        λ _.
          if_induction (Admitted r (Lookup.found k) q) (is_suspended k.customer_suspended_at)
            (λ _. (refl, tt))
            λ _.
              if_induction (Admitted r (Lookup.found k) q) (payment_required r.now k)
                (λ _. (refl, tt)) λ _. Admitted-charge_key r k q

  -- A limited call that is admitted finds room below the limit.
  below_limit :
      (r : Call) (k : ResolvedKey) (u : Usage)
      → is_over_quota r.now r.heavy k u ≡ false
      → is_limited heavy r ≡ true
      → count_of heavy u < limit_of heavy r k
  unfolding is_over_quota
  below_limit r k u under lim = ground (arith, under, lim)

  limit_known :
      (limit : ℕ) (r : Call) (k : ResolvedKey)
      → str_eq k.customer_id c ≡ true
      → has_limit limit r (Lookup.found k) ≡ true
      → limit_of heavy r k ≤ limit
  limit_known limit r k same h = ground (arith, same, h)

  spent-serve_keyed :
      (r : Call) (k : ResolvedKey) (burst : Headers) (seen : Usage) (q : Quotas)
      → spent (serve_keyed r k burst seen q).0 ≤ weight r k + spent q
  spent-serve_keyed r k burst seen q = ground (arith, Answered-serve r c k burst seen q)

  spent-finish_at :
      (n : ℕ) (q : Quotas) (running : List (Call × ResolvedKey × Headers × Usage))
      → spent (finish_at n q running).0 + running_of (finish_at n q running).1
        ≤ spent q + running_of running
  unfolding finish_at
  spent-finish_at n q [] = omega arith
  spent-finish_at zero q ((r, k, burst, seen) ∷ running) =
      omega (arith, spent-serve_keyed r k burst seen q)
  spent-finish_at (suc n) q ((r, k, burst, seen) ∷ running) =
      omega (arith, spent-finish_at n q running)

  -- The usage and the calls that run stay below the limit and the overlap.
  abbrev IsBounded : ℕ → ℕ → Flow → Type 0
  IsBounded limit n w = spent w.quotas + running_of w.running < limit + n

  IsBounded-enter :
      (limit n : ℕ) (r : Call) (l : Lookup) (w : Flow) (out : Quotas × Admission)
      → Admitted r l w.quotas out
      → has_limit limit r l ≡ true
      → running_of (enter r out.1 w.running) ≤ n
      → IsBounded limit n w
      → IsBounded limit n (record { quotas = out.0; running = enter r out.1 w.running })
  IsBounded-enter limit n r l w (q, Admission.refused reply) a h few b =
      omega (arith, b, ap (count_of heavy) a.0)
  IsBounded-enter limit n r l w (q, Admission.admitted k burst seen) a h few b =
      elim (Bool-cases (str_eq k.customer_id c && is_limited heavy r)) [
        | inl counted ↦
            let same : k.customer_id ≡ c = (eq_iff k.customer_id c).0 (ground (arith, counted)) in
            let room : count_of heavy (usage_of c w.quotas) < limit_of heavy r k =
              subst (λ d. count_of heavy (usage_of d w.quotas) < limit_of heavy r k) same
                (below_limit r k (usage_of k.customer_id w.quotas) a.1.1
                  (ground (arith, counted))) in
            let low : limit_of heavy r k ≤ limit =
              limit_known limit r k (ground (arith, counted))
                (subst (λ m. has_limit limit r m ≡ true) a.1.0 h) in
            omega (arith, room, low, few, ap (count_of heavy) a.0)
        | inr other ↦
            let none_more : weight r k ≡ 0 = ground (arith, other) in
            omega (arith, b, none_more, ap (count_of heavy) a.0)
      ]

  IsBounded-happen :
      (limit n : ℕ) (m : Moment) (w : Flow)
      → within_limit limit m ≡ true
      → running_of (happen m w).running ≤ n
      → IsBounded limit n w
      → IsBounded limit n (happen m w)
  unfolding happen admit_keyed
  IsBounded-happen limit n (Moment.arrives r) w h few b =
      IsBounded-enter limit n r r.lookup w (answer_lookup r r.lookup w.quotas)
        (Admitted-answer_lookup r r.lookup w.quotas) h few b
  IsBounded-happen limit n (Moment.ends i) w h few b =
      omega (arith, b, spent-finish_at i w.quotas w.running)

  IsBounded-happen_all :
      (limit n : ℕ) (ms : List Moment) (w : Flow)
      → all (within_limit limit) ms ≡ true
      → overlaps_by n ms w ≡ true
      → IsBounded limit n w
      → IsBounded limit n (happen_all ms w)
  unfolding happen_all overlaps_by
  IsBounded-happen_all limit n [] w h few b = b
  IsBounded-happen_all limit n (m ∷ ms) w h few b =
      IsBounded-happen_all limit n ms (happen m w) (ground (arith, h)) (ground (arith, few))
        (IsBounded-happen limit n m w (ground (arith, h)) (ground (arith, few)) b)

  -- If the day's count of a customer's requests, or of the heavy ones, is within a limit that is not
  -- below the enforced limit of any key of the customer, no such call of the customer runs, and then
  -- calls come and end in any order, at most n of those at a time, the count stays below the limit
  -- and n. So it stays within the limit where they do not overlap.
  pub happen_all-ceiling :
      (limit n : ℕ) (ms : List Moment) (w : Flow)
      → all (within_limit limit) ms ≡ true
      → overlaps_by n ms w ≡ true
      → 1 ≤ n
      → running_of w.running ≡ 0
      → count_of heavy (usage_of c w.quotas) ≤ limit
      → count_of heavy (usage_of c (happen_all ms w).quotas) < limit + n
  happen_all-ceiling limit n ms w h few some idle low =
      omega (arith, IsBounded-happen_all limit n ms w h few (omega (arith, some, idle, low)))
