-- ===== src/Webhooks/Challenge.antt =====
-- `_attempt_challenge` of dispatch_webhooks.py: an endpoint is verified once it echoes the token, if
-- the quotas leave room. The counts of verified subscriptions are those that the advisory lock keeps
-- from changing before the commit.
pub mod Promotion
mod Examples
use billcommons.Base.{
  ℕ, ◌+◌, String, Bool, true, false, Option, none, some, ◌&&◌, ◌==◌, leb, ltb, if◌then◌else◌,
}
use billcommons.Webhooks.Subscription.{
  Subscription, ℤ, classify_http_status, retry_after_delay, apply_challenge_backoff,
  maybe_disable_after_challenge_attempts,
}

abbrev pub max_active_per_host : ℕ
max_active_per_host = 10

abbrev pub max_active_global : ℕ
max_active_global = 500

-- A transport failure with its class; or a response with its status, whether its body is the token,
-- and its Retry-After.
pub data ChallengeOutcome : Type 0 where
  unreachable : String → ChallengeOutcome
  replied : ℕ → Bool → Option ℤ → ChallengeOutcome

-- What both quota branches do.
unfoldable pub disable_over_quota : String → ℕ → Subscription → Subscription
disable_over_quota reason now sub = record sub {
  active = false;
  disabled_reason = some reason;
  disabled_at = some now;
  notify_pending = some "disabled";
  challenge_token = none;
  last_error = none;
  next_attempt_at = none;
}

unfoldable pub promote : ℕ → ℕ → ℕ → Subscription → Subscription
promote verified_on_host verified_globally now sub =
    if leb max_active_per_host verified_on_host
    then disable_over_quota "domain_quota_exceeded" now sub
    else if leb max_active_global verified_globally
    then disable_over_quota "global_quota_exceeded" now sub
    else record sub {
      verified = true;
      challenge_token = none;
      notify_pending = some "created";
      last_error = none;
      next_attempt_at = none;
    }

-- if not _maybe_disable_after_challenge_attempts(sub): _apply_challenge_backoff(sub)
abbrev pub disable_or_wait : ℕ → Option ℕ → ℕ → Bool × Subscription → Subscription
disable_or_wait now delay factor (true, sub) = sub
disable_or_wait now delay factor (false, sub) = apply_challenge_backoff now delay factor sub

unfoldable pub wait_again : ℕ → Option ℕ → ℕ → Subscription → Subscription
wait_again now delay factor sub =
    disable_or_wait now delay factor (maybe_disable_after_challenge_attempts now sub)

abbrev error_or : Option String → String
error_or none = "http_4xx"
error_or (some e) = e

unfoldable pub challenge_failed : ℕ → Option ℤ → ℕ → ℕ → Subscription → Subscription
challenge_failed status retry_after factor now sub =
    let (error_class, disable_now) = classify_http_status status in
    let sub' = record sub { last_error = some (error_or error_class) } in
    if disable_now
    then record sub' {
      active = false;
      disabled_reason = some "endpoint_gone";
      disabled_at = some now;
      notify_pending = some "disabled";
      challenge_token = none;
      next_attempt_at = none;
    }
    else wait_again now (if status == 429 then retry_after_delay retry_after else none) factor sub'

abbrev pub is_2xx : ℕ → Bool
is_2xx status = leb 200 status && ltb status 300

unfoldable pub attempt_challenge : ChallengeOutcome → ℕ → ℕ → ℕ → ℕ → Subscription → Subscription
attempt_challenge (unreachable error) verified_on_host verified_globally factor now sub =
    wait_again now none factor (record sub {
      challenge_attempts = sub.challenge_attempts + 1;
      last_error = some error;
      last_status = none;
    })
attempt_challenge (replied status echoes retry) verified_on_host verified_globally factor now sub =
    let sub' = record sub {
      challenge_attempts = sub.challenge_attempts + 1;
      last_status = some status;
    } in
    if is_2xx status && echoes
    then promote verified_on_host verified_globally now sub'
    else if is_2xx status
    then wait_again now none factor (record sub' { last_error = some "challenge_mismatch" })
    else challenge_failed status retry factor now sub'
