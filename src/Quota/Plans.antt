-- ===== src/Quota/Plans.antt =====
-- packages/shared/billcommons_shared/plans.py, and `ResolvedKey` of
-- apps/api/billcommons_api/api_keys.py. Times are whole microseconds.
use billcommons.Base.{
  ℕ, ◌+◌, ◌-◌, ◌*◌, ◌/◌, ◌≤◌, String, Bool, true, false, Option, none, some, ltb, if◌then◌else◌,
  arith,
}

pub data Plan : Type 0 where
  developer : Plan
  builder : Plan
  scale : Plan
  enterprise : Plan

pub record PlanLimits : Type 0 where
  pub requests_per_day : ℕ
  pub heavy_per_day : ℕ
  pub burst_per_minute : ℕ

unfoldable pub plan_limits : Plan → PlanLimits
plan_limits Plan.developer = record {
  requests_per_day = 5000;
  heavy_per_day = 500;
  burst_per_minute = 120;
}
plan_limits Plan.builder = record {
  requests_per_day = 50000;
  heavy_per_day = 5000;
  burst_per_minute = 600;
}
plan_limits Plan.scale = record {
  requests_per_day = 500000;
  heavy_per_day = 100000;
  burst_per_minute = 2400;
}
plan_limits Plan.enterprise = record {
  requests_per_day = 2000000;
  heavy_per_day = 400000;
  burst_per_minute = 6000;
}

unfoldable pub contractual_request_limit : Plan → ℕ → ℕ
contractual_request_limit plan extra = (plan_limits plan).requests_per_day + extra

unfoldable pub contractual_heavy_limit : Plan → ℕ → ℕ
contractual_heavy_limit plan extra = (plan_limits plan).heavy_per_day + extra

-- math.floor(limit * 1.10)
abbrev pub with_grace : ℕ → ℕ
with_grace limit = limit * 11 / 10

unfoldable pub effective_request_limit : Plan → ℕ → ℕ
effective_request_limit plan extra = with_grace (contractual_request_limit plan extra)

unfoldable pub effective_heavy_limit : Plan → ℕ → ℕ
effective_heavy_limit plan extra = with_grace (contractual_heavy_limit plan extra)

pub data KeyStatus : Type 0 where
  active : KeyStatus
  rotating : KeyStatus
  other : KeyStatus

pub data SubscriptionStatus : Type 0 where
  unpaid : SubscriptionStatus
  past_due : SubscriptionStatus
  settled : SubscriptionStatus

-- An extra below 0 counts as 0, so it stands as 0.
pub record ResolvedKey : Type 0 where
  pub customer_id : String
  pub plan : Plan
  pub status : KeyStatus
  pub revoke_at : Option ℕ
  pub customer_suspended_at : Option ℕ
  pub extra_requests_per_day : ℕ
  pub extra_heavy_per_day : ℕ
  pub override_expires_at : Option ℕ
  pub subscription_status : SubscriptionStatus
  pub subscription_past_due_since : Option ℕ

abbrev pub is_after : Option ℕ → ℕ → Bool
is_after none now = false
is_after (some t) now = ltb now t

abbrev usable_by : KeyStatus → Option ℕ → ℕ → Bool
usable_by KeyStatus.active revoke_at now = true
usable_by KeyStatus.rotating revoke_at now = is_after revoke_at now
usable_by KeyStatus.other revoke_at now = false

unfoldable pub is_usable : ℕ → ResolvedKey → Bool
is_usable now k = usable_by k.status k.revoke_at now

unfoldable pub override_active : ℕ → ResolvedKey → Bool
override_active now k = is_after k.override_expires_at now

unfoldable pub active_extra_requests_per_day : ℕ → ResolvedKey → ℕ
active_extra_requests_per_day now k = if override_active now k then k.extra_requests_per_day else 0

unfoldable pub active_extra_heavy_per_day : ℕ → ResolvedKey → ℕ
active_extra_heavy_per_day now k = if override_active now k then k.extra_heavy_per_day else 0

abbrev pub seven_days : ℕ
seven_days = 604800000000

abbrev pub dunning : SubscriptionStatus → Option ℕ → ℕ → Bool
dunning SubscriptionStatus.unpaid since now = true
dunning SubscriptionStatus.past_due none now = false
dunning SubscriptionStatus.past_due (some since) now = ltb seven_days (now - since)
dunning SubscriptionStatus.settled since now = false

unfoldable pub payment_required : ℕ → ResolvedKey → Bool
payment_required now k = dunning k.subscription_status k.subscription_past_due_since now

-- With the grace the enforced limit is the contractual one and at most a tenth more.
pub with_grace-bounds :
    (limit : ℕ) → (limit ≤ with_grace limit) × (with_grace limit * 10 ≤ limit * 11)
with_grace-bounds limit = omega arith
