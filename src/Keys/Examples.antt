-- ===== src/Keys/Examples.antt =====
-- The keys of one customer, and a revocation that races with a read.
use billcommons.Base.{
  ◌≤◌, ◌≡◌, refl, true, Option, none, some, List, [], ◌∷◌, all, not, ◌==◌, length, String, arith,
}
use billcommons.Base.Dict
use billcommons.Quota.Plans.{payment_required, Plan, ResolvedKey, KeyStatus, SubscriptionStatus}
use billcommons.Keys.Rows.{
  ApiKey, Material, usable_keys, active_count, mint_key, rotate_key, rotate_found, revoke_key,
  find_key, update_key, fresh, KeyResult,
}
use billcommons.Keys.Load.{
  ApiCustomer, ApiSubscription, SubscriptionState, resolved_of, mint_developer_key_if_first_login,
}
use billcommons.Keys.Dunning.{resolved_of-payment_required}
use billcommons.Keys.FirstLogin.{mint_developer_key_if_first_login-once}
use billcommons.Keys.Ceiling.{Step, Reach, Reach-ceiling}
use billcommons.Keys.Cache.{
  Event, started, run, step, keeps_tombstones, lookup_cached, store, store_reads, left_reads,
  invalidate,
}
use billcommons.Keys.Steps.{covers}
use billcommons.Keys.Freshness.{lookup_cached-fresh}

abbrev first : Material
first = record { id = 1; key_prefix = "bc_live_aaaaaaaa"; key_hash = "h1" }

abbrev second : Material
second = record { id = 2; key_prefix = "bc_live_bbbbbbbb"; key_hash = "h2" }

abbrev minted : List ApiKey
minted = (mint_key first 7 5 "live" Plan.developer "default" []).0

abbrev rotated : List ApiKey
rotated = (rotate_key second 1 7 10 11 minted).0

other_id : all (λ (k : ApiKey). not (k.id == 2)) minted ≡ true
unfolding mint_key usable_keys
other_id = refl

reached : Reach 11 rotated
reached =
    Reach.after
      (Reach.after Reach.start
        (Step.mints first 7 "live" Plan.developer "default" (omega arith) refl refl))
      (Step.rotates second 1 7 10 (omega arith) (omega arith) other_id refl)

two_usable : length (usable_keys 7 11 rotated) ≡ 2
unfolding mint_key rotate_key rotate_found find_key update_key usable_keys
two_usable = refl

Reach-ceiling_example :
    (active_count (usable_keys 7 11 rotated) ≤ 2) × (length (usable_keys 7 11 rotated) ≤ 3)
Reach-ceiling_example = Reach-ceiling 11 7 rotated reached

abbrev killed : List ApiKey
killed = revoke_key 1 7 20 rotated

abbrev resolved : ResolvedKey
resolved = record {
  customer_id = "7";
  plan = Plan.developer;
  status = KeyStatus.active;
  revoke_at = none;
  customer_suspended_at = none;
  extra_requests_per_day = 0;
  extra_heavy_per_day = 0;
  override_expires_at = none;
  subscription_status = SubscriptionStatus.settled;
  subscription_past_due_since = none;
}

abbrev gone : ResolvedKey
gone = record resolved { status = KeyStatus.other }

-- A read loads the key before it is revoked and stores it after; a second read comes later.
abbrev race : List Event
race =
    Event.begins 1 "h1" 0
    ∷ Event.loads 1
    ∷ Event.ticks 5
    ∷ Event.commits "h1" (some gone)
    ∷ Event.reads_clock 7 "h1"
    ∷ Event.invalidates 7
    ∷ Event.stores 1
    ∷ Event.ticks 5
    ∷ Event.begins 2 "h1" 10
    ∷ Event.loads 2
    ∷ Event.stores 2
    ∷ []

abbrev before : String → Option ResolvedKey
before k = some resolved

room : keeps_tombstones race (started before) ≡ true
unfolding keeps_tombstones started step invalidate store_reads left_reads store Dict.get Dict.set
    Dict.del
room = refl

settled :
    covers
      ((run race (started before)).committed_at "h1")
      (Dict.get "h1" (run race (started before)).keys.tombstones)
    ≡ true
unfolding run started step invalidate store_reads left_reads store Dict.get Dict.set Dict.del
settled = refl

hit : lookup_cached "h1" 20 100 (run race (started before)).keys ≡ some (some gone)
unfolding lookup_cached run started step invalidate store_reads left_reads store Dict.get Dict.set
    Dict.del
hit = refl

lookup_cached-fresh_example : (run race (started before)).committed "h1" ≡ some gone
lookup_cached-fresh_example = lookup_cached-fresh before race "h1" 20 100 gone room settled hit

-- Two changes, whose invalidations write in the other order: a read between them is cached for good.
abbrev disorder : List Event
disorder =
    Event.ticks 5
    ∷ Event.commits "h1" (some resolved)
    ∷ Event.reads_clock 1 "h1"
    ∷ Event.ticks 2
    ∷ Event.begins 3 "h1" 7
    ∷ Event.loads 3
    ∷ Event.ticks 3
    ∷ Event.commits "h1" (some gone)
    ∷ Event.reads_clock 2 "h1"
    ∷ Event.invalidates 2
    ∷ Event.invalidates 1
    ∷ Event.stores 3
    ∷ []

stale : lookup_cached "h1" 20 100 (run disorder (started before)).keys ≡ some (some resolved)
unfolding lookup_cached run started step invalidate store_reads left_reads store Dict.get Dict.set
    Dict.del
stale = refl

abbrev customer : ApiCustomer
customer = record {
  id = 7;
  text_id = "7";
  stripe_customer_id = none;
  suspended_at = none;
  extra_requests_per_day = 0;
  extra_heavy_per_day = 0;
  override_expires_at = none;
}

abbrev subscriptions : List ApiSubscription
subscriptions =
    record {
      customer_id = 7;
      status = SubscriptionState.canceled;
      past_due_since = none;
      created_at = 9;
    }
    ∷ record {
      customer_id = 7;
      status = SubscriptionState.unpaid;
      past_due_since = none;
      created_at = 5;
    }
    ∷ []

abbrev row : ApiKey
row = fresh first 7 "k" "live" Plan.developer none

-- The newer subscription, which is canceled, has no authority.
resolved_of-payment_required_example :
    payment_required 10 (resolved_of row customer subscriptions) ≡ true
resolved_of-payment_required_example =
    resolved_of-payment_required 10 row customer subscriptions (omega arith)

at_first_login :
    (mint_developer_key_if_first_login first 7 10 (customer ∷ []) [] []).1
    ≡ some (KeyResult.minted (fresh first 7 "default" "live" Plan.developer none))
unfolding mint_developer_key_if_first_login mint_key usable_keys
at_first_login = refl

mint_developer_key_if_first_login-once_example :
    (mint_developer_key_if_first_login second 7 11
      (customer ∷ [])
      []
      (mint_developer_key_if_first_login first 7 10 (customer ∷ []) [] []).0).1
    ≡ none
mint_developer_key_if_first_login-once_example =
    mint_developer_key_if_first_login-once first second 7 10 11 (customer ∷ []) (customer ∷ []) []
      [] [] (fresh first 7 "default" "live" Plan.developer none) at_first_login
