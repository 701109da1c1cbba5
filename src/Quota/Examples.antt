-- ===== src/Quota/Examples.antt =====
-- The quotas at concrete calls.
use billcommons.Base.{
  ℕ, ◌+◌, ◌*◌, ◌≤◌, ◌<◌, ◌≡◌, all, refl, String, Bool, true, false, none, some, List, [], ◌∷◌, ◌&&◌,
  str_eq, arith, if◌then◌else◌,
}
use billcommons.Base.Dict
use billcommons.RateLimit.Counter.{
  Counter, allow, sweep, ensure_capacity_for_new_key, existing, verdict,
}
use billcommons.RateLimit.Middleware.{Keys, Tier}
use billcommons.Quota.Plans.{
  is_usable, payment_required, Plan, KeyStatus, SubscriptionStatus, ResolvedKey,
  effective_request_limit, effective_heavy_limit, contractual_request_limit,
  contractual_heavy_limit, plan_limits, active_extra_requests_per_day, active_extra_heavy_per_day,
  override_active,
}
use billcommons.Quota.Anonymous.{Anonymous, AnonTier, anon_counter, anon_tier_check, anon_tier_peek}
use billcommons.Quota.Anonymous.Peek.{AllUnique, refusal, anon_tier_peek-foretells}
use billcommons.Quota.Keyed.{
  Quotas, Lookup, Call, usage_of, dispatch_keyed, admit_keyed, answer_lookup, known_key, charge_key,
  after_burst, serve_keyed, is_over_quota, record_usage, put_burst, burst_of, is_metered,
}
use billcommons.Quota.Keyed.Flow.{Flow, Moment, happen, happen_all, finish_at}
use billcommons.Quota.Keyed.Metering.{metered, dispatch_keyed-usage}
use billcommons.Quota.Keyed.Ceiling.{count_of, overlaps_by, within_limit, happen_all-ceiling}

-- One hit in the window, by "a", which is spent.
abbrev spent : Counter
spent = record {
  limit = 1;
  window = 60000000000;
  max_keys = 9;
  buckets = ("a", record { start = 0; count = 1 }) ∷ [];
  last_sweep = 0;
}

abbrev tier : Tier
tier = record { ip = spent; subnet = spent }

abbrev counters : Anonymous
counters = record { default = tier; heavy = tier; daily_ip = spent; daily_subnet = spent }

abbrev caller : Keys
caller = record { ip_key = "a"; subnet_key = "n" }

counters_unique : AllUnique counters
unfolding anon_counter
counters_unique AnonTier.default_ip = (unfold billcommons.Base.Dict.get in refl, tt)
counters_unique AnonTier.default_subnet = (unfold billcommons.Base.Dict.get in refl, tt)
counters_unique AnonTier.daily_ip = (unfold billcommons.Base.Dict.get in refl, tt)
counters_unique AnonTier.daily_subnet = (unfold billcommons.Base.Dict.get in refl, tt)
counters_unique AnonTier.heavy_ip = (unfold billcommons.Base.Dict.get in refl, tt)
counters_unique AnonTier.heavy_subnet = (unfold billcommons.Base.Dict.get in refl, tt)

anon_tier_peek-foretells_example :
    (anon_tier_peek (λ i. 5) caller true counters).1
    ≡ refusal (anon_tier_check (λ i. 5) caller true counters).1
anon_tier_peek-foretells_example =
    anon_tier_peek-foretells (λ i. 5) caller counters counters_unique true

abbrev customer : ResolvedKey
customer = record {
  customer_id = "c";
  plan = Plan.developer;
  status = KeyStatus.active;
  revoke_at = none;
  customer_suspended_at = none;
  extra_requests_per_day = 0;
  extra_heavy_per_day = 0;
  override_expires_at = none;
  subscription_status = SubscriptionStatus.settled;
  subscription_past_due_since = none;
}

abbrev quotas : Quotas
quotas = record {
  anonymous = counters;
  bursts = record { developer = spent; builder = spent; scale = spent; enterprise = spent };
  today = ("c", record { requests = 3; heavy_requests = 1 }) ∷ [];
}

abbrev call : Call
call = record {
  clock = λ i. 5;
  now = 5;
  burst_now = 5;
  keys = caller;
  heavy = true;
  lookup = Lookup.found customer;
  usage_readable = true;
  usage_writable = true;
  status = 200;
}

dispatch_keyed-usage_example :
    usage_of "c" (dispatch_keyed call quotas).0
    ≡ metered call "c" (dispatch_keyed call quotas).1 (usage_of "c" quotas)
dispatch_keyed-usage_example = dispatch_keyed-usage call "c" quotas

-- One heavy request is left, and a second call of the customer comes while the handler of the first
-- runs.
abbrev flow : Flow
flow = record {
  quotas = record quotas { today = ("c", record { requests = 600; heavy_requests = 549 }) ∷ [] };
  running = [];
}

abbrev second : Call
second = record call { burst_now = 70000000000 }

abbrev overlapping : List Moment
overlapping = Moment.arrives call ∷ Moment.arrives second ∷ Moment.ends 1 ∷ Moment.ends 0 ∷ []

both_pass : (usage_of "c" (happen_all overlapping flow).quotas).heavy_requests ≡ 551
unfolding happen_all happen admit_keyed answer_lookup known_key charge_key after_burst serve_keyed
    finish_at is_usable payment_required allow sweep ensure_capacity_for_new_key existing verdict
    is_over_quota effective_heavy_limit effective_request_limit contractual_request_limit
    contractual_heavy_limit plan_limits active_extra_heavy_per_day active_extra_requests_per_day
    override_active is_metered record_usage put_burst burst_of Dict.get Dict.set Dict.keep
both_pass = refl

limited : all (within_limit true "c" 550) overlapping ≡ true
unfolding effective_heavy_limit contractual_heavy_limit plan_limits active_extra_heavy_per_day
    override_active
limited = refl

overlap : overlaps_by true "c" 2 overlapping flow ≡ true
unfolding overlaps_by happen admit_keyed answer_lookup known_key charge_key after_burst serve_keyed
    finish_at is_usable payment_required allow sweep ensure_capacity_for_new_key existing verdict
    is_over_quota effective_heavy_limit effective_request_limit contractual_request_limit
    contractual_heavy_limit plan_limits active_extra_heavy_per_day active_extra_requests_per_day
    override_active is_metered record_usage put_burst burst_of Dict.get Dict.set Dict.keep
overlap = refl

nearly : (usage_of "c" flow.quotas).heavy_requests ≤ 550
unfolding billcommons.Base.Dict.get
nearly = omega arith

happen_all-ceiling_example :
    count_of true (usage_of "c" (happen_all overlapping flow).quotas) < 550 + 2
happen_all-ceiling_example =
    happen_all-ceiling true "c" 550 2 overlapping flow limited overlap (omega arith) refl nearly
