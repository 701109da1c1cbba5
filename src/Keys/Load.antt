-- ===== src/Keys/Load.antt =====
-- How a presented key is looked up: _load_resolved_key, and the key that a first login mints. The
-- text that a key's customer is known by to the quotas stands in the customer's row.
use billcommons.Base.{
  ℕ, String, Bool, true, false, Option, none, some, List, [], ◌∷◌, ◌&&◌, not, any, filter, map,
  ◌==◌, ltb, if◌then◌else◌, is_some, str_eq,
}
use billcommons.Quota.Plans.{Plan, ResolvedKey, KeyStatus, SubscriptionStatus}
use billcommons.Keys.Rows.{ApiKey, ApiKeyStatus, KeyResult, Material, expire_stale_reveal, mint_key}

pub data SubscriptionState : Type 0 where
  active trialing past_due unpaid canceled other : SubscriptionState

pub record ApiSubscription : Type 0 where
  pub customer_id : ℕ
  pub status : SubscriptionState
  pub past_due_since : Option ℕ
  pub created_at : ℕ

pub record ApiCustomer : Type 0 where
  pub id : ℕ
  pub text_id : String
  pub stripe_customer_id : Option String
  pub suspended_at : Option ℕ
  pub extra_requests_per_day : ℕ
  pub extra_heavy_per_day : ℕ
  pub override_expires_at : Option ℕ

-- status in _PLAN_AUTHORITY_STATUSES
abbrev pub is_authority : SubscriptionState → Bool
is_authority SubscriptionState.canceled = false
is_authority SubscriptionState.other = false
is_authority _ = true

abbrev pub has_authority : ApiSubscription → Bool
has_authority s = is_authority s.status

abbrev pub later_of : ApiSubscription → Option ApiSubscription → ApiSubscription
later_of s none = s
later_of s (some u) = if ltb s.created_at u.created_at then u else s

-- max(subscriptions, key=lambda s: s.created_at)
abbrev pub newest : List ApiSubscription → Option ApiSubscription
newest [] = none
newest (s ∷ ss) = some (later_of s (newest ss))

abbrev pub or_newest : Option ApiSubscription → List ApiSubscription → Option ApiSubscription
or_newest none ss = newest ss
or_newest (some s) ss = some s

abbrev pub chosen : List ApiSubscription → Option ApiSubscription
chosen ss = or_newest (newest (filter has_authority ss)) ss

abbrev pub of_customer : ℕ → ApiSubscription → Bool
of_customer id s = s.customer_id == id

-- What the quotas ask of a status
abbrev pub dunning_status : SubscriptionState → SubscriptionStatus
dunning_status SubscriptionState.unpaid = SubscriptionStatus.unpaid
dunning_status SubscriptionState.past_due = SubscriptionStatus.past_due
dunning_status _ = SubscriptionStatus.settled

abbrev pub status_of : Option ApiSubscription → SubscriptionStatus
status_of none = SubscriptionStatus.settled
status_of (some s) = dunning_status s.status

abbrev pub since_of : Option ApiSubscription → Option ℕ
since_of none = none
since_of (some s) = s.past_due_since

abbrev pub key_status_of : ApiKeyStatus → KeyStatus
key_status_of ApiKeyStatus.active = KeyStatus.active
key_status_of ApiKeyStatus.rotating = KeyStatus.rotating
key_status_of ApiKeyStatus.revoked = KeyStatus.other

unfoldable pub resolved_of : ApiKey → ApiCustomer → List ApiSubscription → ResolvedKey
resolved_of row customer subscriptions =
    let subscription = chosen (filter (of_customer row.customer_id) subscriptions) in
    record {
      customer_id = customer.text_id;
      plan = row.plan;
      status = key_status_of row.status;
      revoke_at = row.revoke_at;
      customer_suspended_at = customer.suspended_at;
      extra_requests_per_day = customer.extra_requests_per_day;
      extra_heavy_per_day = customer.extra_heavy_per_day;
      override_expires_at = customer.override_expires_at;
      subscription_status = status_of subscription;
      subscription_past_due_since = since_of subscription;
    }

abbrev pub find_prefix : String → List ApiKey → Option ApiKey
find_prefix prefix [] = none
find_prefix prefix (k ∷ keys) =
    if str_eq k.key_prefix prefix then some k else find_prefix prefix keys

abbrev pub find_customer : ℕ → List ApiCustomer → Option ApiCustomer
find_customer id [] = none
find_customer id (c ∷ customers) = if c.id == id then some c else find_customer id customers

abbrev pub with_customer : ApiKey → Option ApiCustomer → List ApiSubscription → Option ResolvedKey
with_customer row none subscriptions = none
with_customer row (some c) subscriptions = some (resolved_of row c subscriptions)

abbrev pub expire_in : ℕ → String → ApiKey → ApiKey
expire_in now prefix k = if str_eq k.key_prefix prefix then expire_stale_reveal now k else k

abbrev pub load_row :
    String
    → String
    → ℕ
    → Option ApiKey
    → List ApiKey
    → List ApiCustomer
    → List ApiSubscription
    → List ApiKey × Option ResolvedKey
load_row prefix hash now none keys customers subscriptions = (keys, none)
load_row prefix hash now (some row) keys customers subscriptions =
    let fresh_row = expire_stale_reveal now row in
    if str_eq hash row.key_hash
    then (
      map (expire_in now prefix) keys,
      with_customer fresh_row (find_customer fresh_row.customer_id customers) subscriptions,
    )
    else (keys, none)

-- The rows afterwards, and the key.
unfoldable pub load_resolved_key :
    String
    → String
    → ℕ
    → List ApiKey
    → List ApiCustomer
    → List ApiSubscription
    → List ApiKey × Option ResolvedKey
load_resolved_key prefix hash now keys customers subscriptions =
    load_row prefix hash now (find_prefix prefix keys) keys customers subscriptions

abbrev pub is_new : Option ApiCustomer → Bool
is_new none = false
is_new (some c) = not (is_some c.stripe_customer_id)

-- Under the lock of the customer's row; `none` where no key is minted.
unfoldable pub mint_developer_key_if_first_login :
    Material
    → ℕ
    → ℕ
    → List ApiCustomer
    → List ApiSubscription
    → List ApiKey
    → List ApiKey × Option KeyResult
mint_developer_key_if_first_login m customer now customers subscriptions keys =
    let minted = mint_key m customer now "live" Plan.developer "default" keys in
    if is_new (find_customer customer customers)
      && not (any (λ (k : ApiKey). k.customer_id == customer) keys)
      && not (any (of_customer customer) subscriptions)
    then (minted.0, some minted.1)
    else (keys, none)
