-- ===== src/Keys/Dunning.antt =====
-- Who is asked for payment.
use billcommons.Base.{
  ℕ, ◌-◌, ◌≤◌, ◌≡◌, refl, sym, ◌∙◌, ap, Bool, true, false, Option, none, some, List, [], ◌∷◌, ◌&&◌,
  ◌||◌, any, filter, length, ltb, arith,
}
use billcommons.Quota.Plans.{payment_required, seven_days, dunning}
use billcommons.Keys.Rows.{ApiKey}
use billcommons.Keys.Load.{
  SubscriptionState, ApiSubscription, ApiCustomer, has_authority, is_authority, dunning_status,
  newest, or_newest, chosen, of_customer, status_of, since_of, resolved_of,
}

abbrev overdue : SubscriptionState → Option ℕ → ℕ → Bool
overdue SubscriptionState.unpaid since now = true
overdue SubscriptionState.past_due none now = false
overdue SubscriptionState.past_due (some t) now = ltb seven_days (now - t)
overdue _ since now = false

-- The subscription is unpaid, or past due for more than seven days.
abbrev pub is_overdue : ℕ → ApiSubscription → Bool
is_overdue now s = overdue s.status s.past_due_since now

overdue-is_authority :
    (status : SubscriptionState) (since : Option ℕ) (now : ℕ)
    → overdue status since now ≡ true
    → is_authority status ≡ true
overdue-is_authority SubscriptionState.active since now h = refl
overdue-is_authority SubscriptionState.trialing since now h = refl
overdue-is_authority SubscriptionState.past_due since now h = refl
overdue-is_authority SubscriptionState.unpaid since now h = refl
overdue-is_authority SubscriptionState.canceled since now h = ground (arith, h)
overdue-is_authority SubscriptionState.other since now h = ground (arith, h)

any-filter :
    (p q : ApiSubscription → Bool) (ss : List ApiSubscription)
    → any p (filter q ss) ≡ any (λ s. q s && p s) ss
any-filter p q [] = refl
any-filter p q (s ∷ ss) = ground (arith, any-filter p q ss)

any-authority :
    (now : ℕ) (ss : List ApiSubscription)
    → any (is_overdue now) (filter has_authority ss) ≡ any (is_overdue now) ss
any-authority now [] = refl
any-authority now (s ∷ ss) =
    ground (arith, overdue-is_authority s.status s.past_due_since now, any-authority now ss)

abbrev pays : ℕ → Option ApiSubscription → Bool
pays now none = false
pays now (some s) = is_overdue now s

-- No subscription without authority is overdue.
newest_of :
    (now : ℕ) (ss : List ApiSubscription)
    → any (is_overdue now) ss ≡ false
    → pays now (newest ss) ≡ false
newest_of now [] h = refl
newest_of now (s ∷ []) h = ground (arith, h)
newest_of now (s ∷ t ∷ ss) h = ground (arith, h, newest_of now (t ∷ ss))

dunning-overdue :
    (status : SubscriptionState) (since : Option ℕ) (now : ℕ)
    → dunning (dunning_status status) since now ≡ overdue status since now
dunning-overdue SubscriptionState.active since now = refl
dunning-overdue SubscriptionState.trialing since now = refl
dunning-overdue SubscriptionState.past_due none now = refl
dunning-overdue SubscriptionState.past_due (some t) now = refl
dunning-overdue SubscriptionState.unpaid since now = refl
dunning-overdue SubscriptionState.canceled since now = refl
dunning-overdue SubscriptionState.other since now = refl

dunning-pays :
    (now : ℕ) (o : Option ApiSubscription) → dunning (status_of o) (since_of o) now ≡ pays now o
dunning-pays now none = refl
dunning-pays now (some s) = dunning-overdue s.status s.past_due_since now

payment-resolved :
    (now : ℕ) (row : ApiKey) (c : ApiCustomer) (ss : List ApiSubscription)
    → payment_required now (resolved_of row c ss)
      ≡ pays now (chosen (filter (of_customer row.customer_id) ss))
unfolding payment_required resolved_of
payment-resolved now row c ss =
    let subscription = chosen (filter (of_customer row.customer_id) ss) in
    dunning-pays now subscription

pays-authority :
    (now : ℕ) (ss auth : List ApiSubscription)
    → filter has_authority ss ≡ auth
    → length auth ≤ 1
    → pays now (or_newest (newest auth) ss) ≡ any (is_overdue now) ss
pays-authority now ss [] e h =
    let a : any (is_overdue now) ss ≡ false =
      sym (any-authority now ss) ∙ ap (any (is_overdue now)) e in
    newest_of now ss a ∙ sym a
pays-authority now ss (s ∷ []) e h =
    let a : (is_overdue now s || false) ≡ any (is_overdue now) ss =
      sym (ap (any (is_overdue now)) e) ∙ any-authority now ss in
    ground (arith, a)
pays-authority now ss (s ∷ t ∷ auth) e h = ground (arith, h)

-- While a customer has at most one subscription with authority over the plan, a key of the customer is
-- asked for payment if and only if a subscription of the customer is unpaid or past due for more than
-- seven days.
pub resolved_of-payment_required :
    (now : ℕ) (row : ApiKey) (c : ApiCustomer) (ss : List ApiSubscription)
    → length (filter has_authority (filter (of_customer row.customer_id) ss)) ≤ 1
    → payment_required now (resolved_of row c ss)
      ≡ any (is_overdue now) (filter (of_customer row.customer_id) ss)
resolved_of-payment_required now row c ss h =
    let own = filter (of_customer row.customer_id) ss in
    payment-resolved now row c ss ∙ pays-authority now own (filter has_authority own) refl h
