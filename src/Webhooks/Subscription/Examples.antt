-- ===== src/Webhooks/Subscription/Examples.antt =====
-- The failure policy at concrete inputs.
use billcommons.Base.{◌≡◌, refl, true, none, some}
use billcommons.Webhooks.Subscription.{
  fail_classified, react, record_failure, apply_backoff, maybe_auto_disable, classify_http_status,
  Subscription, ℤ, retry_after_delay, fail_with_response, is_non_retryable_4xx,
}

-- A subscription that is active, and failed twice with a hard client error.
abbrev pub struggling : Subscription
struggling = record {
  active = true;
  verified = true;
  disabled_reason = none;
  disabled_at = none;
  notify_pending = some "created";
  challenge_token = none;
  challenge_attempts = 0;
  last_seq = 4;
  last_attempt_at = some 10;
  last_success_at = none;
  next_attempt_at = none;
  last_status = some 404;
  last_error = some "http_4xx";
  consecutive_failures = 2;
  failing_since = some 5;
}

seven_seconds : retry_after_delay (some (ℤ.pos 7)) ≡ some 7000000
unfolding retry_after_delay
seven_seconds = refl

still_active : (fail_with_response 503 none 1000000 20 true struggling).active ≡ true
unfolding fail_with_response fail_classified react record_failure apply_backoff maybe_auto_disable
    classify_http_status is_non_retryable_4xx
still_active = refl
