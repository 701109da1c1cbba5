-- ===== src/Webhooks/Subscription/Disabling.antt =====
-- When the dispatcher disables a subscription.
use billcommons.Base.{
  ℕ, ◌+◌, ◌≤◌, ◌<◌, String, ◌≡◌, ◌⊎◌, refl, Bool, true, false, Option, none, some, arith, leb, ltb,
  ◌==◌, ◌&&◌, not, if◌then◌else◌,
}
use billcommons.Webhooks.Subscription.{
  Subscription, classify_http_status, is_non_retryable_4xx, record_failure, record_skip,
  apply_backoff, notify_disabled, disable, maybe_auto_disable, fail_without_response, overdue,
  class_changed,
}

-- The failures of one class in a row, the new one counted.
abbrev pub streak : String → Subscription → ℕ
streak e sub = (if class_changed sub.last_error e then 0 else sub.consecutive_failures) + 1

abbrev pub class_of : ℕ → String
class_of status =
    if status == 410
    then "http_4xx"
    else if status == 429
    then "http_429"
    else if is_non_retryable_4xx status
    then "http_4xx"
    else if leb 400 status && ltb status 500
    then "http_4xx_retryable"
    else "http_5xx"

pub bad_class :
    (status : ℕ)
    → (status < 200) ⊎ (300 ≤ status)
    → (e : String) × (classify_http_status status ≡ (some e, status == 410))
unfolding classify_http_status
bad_class status bad = (class_of status, ground arith)

pub active-disable :
    (reason : String) (now : ℕ) (supports : Bool) (sub : Subscription)
    → (disable reason now supports sub).active ≡ false
unfolding disable notify_disabled
active-disable reason now supports sub = ground arith

active-maybe_auto_disable :
    (now : ℕ) (reason : String) (supports : Bool) (sub : Subscription)
    → sub.active ≡ true
    → (maybe_auto_disable now reason supports sub).active ≡ not (overdue now sub.failing_since)
unfolding maybe_auto_disable
active-maybe_auto_disable now reason supports sub alive =
    ground (arith, active-disable reason now supports sub)

backoff_keeps :
    (now : ℕ) (delay : Option ℕ) (factor : ℕ) (sub : Subscription)
    → ((apply_backoff now delay factor sub).active ≡ sub.active)
      × ((apply_backoff now delay factor sub).failing_since ≡ sub.failing_since)
unfolding apply_backoff
backoff_keeps now none factor sub = (refl, refl)
backoff_keeps now (some d) factor sub = (refl, refl)

-- After a skipped event one failure never disables, however long ago the failures before began.
pub skip_resets_clock :
    (skipped later factor : ℕ) (e : String) (supports : Bool) (sub : Subscription)
    → sub.active ≡ true
    → (fail_without_response e factor later supports
        (record_skip "payload_too_large" skipped sub)).active
      ≡ true
unfolding fail_without_response record_skip record_failure
skip_resets_clock skipped later factor e supports sub alive =
    let failed = record_failure none e later (record_skip "payload_too_large" skipped sub) in
    ground (
      arith,
      backoff_keeps later none factor failed,
      active-maybe_auto_disable later "too_many_failures" supports
          (apply_backoff later none factor failed),
    )
