-- ===== src/Webhooks/Subscription.antt =====
-- What dispatch_webhooks.py keeps of a subscription, and its failure policy. Times are whole
-- microseconds, the resolution of `datetime`. A jitter factor stands in millionths.
pub mod Disabling
pub mod Delays
pub mod Notices
pub mod Cursor
pub mod Examples
use billcommons.Base.{
  ℕ, ◌+◌, ◌-◌, ◌*◌, ◌^◌, ◌<◌, min, String, Bool, true, false, Option, none, some, List, [], ◌∷◌,
  ◌&&◌, ◌||◌, ◌==◌, not, any, ltb, leb, str_eq, if◌then◌else◌,
}

abbrev pub second : ℕ
second = 1000000

abbrev pub max_backoff : ℕ
max_backoff = 6 * 3600 * second

abbrev pub auto_disable_after : ℕ
auto_disable_after = 72 * 3600 * second

abbrev pub oversized_skip_disable_after : ℕ
oversized_skip_disable_after = 2160

abbrev pub challenge_attempt_disable_after : ℕ
challenge_attempt_disable_after = 10

-- The columns of a WebhookSubscription that the dispatcher writes.
pub record Subscription : Type 0 where
  pub active : Bool
  pub verified : Bool
  pub disabled_reason : Option String
  pub disabled_at : Option ℕ
  pub notify_pending : Option String
  pub challenge_token : Option String
  pub challenge_attempts : ℕ
  pub last_seq : ℕ
  pub last_attempt_at : Option ℕ
  pub last_success_at : Option ℕ
  pub next_attempt_at : Option ℕ
  pub last_status : Option ℕ
  pub last_error : Option String
  pub consecutive_failures : ℕ
  pub failing_since : Option ℕ

-- NON_RETRYABLE_4XX
unfoldable pub is_non_retryable_4xx : ℕ → Bool
is_non_retryable_4xx status =
    any (λ s. s == status) (400 ∷ 401 ∷ 403 ∷ 404 ∷ 405 ∷ 406 ∷ 411 ∷ 413 ∷ 414 ∷ 415 ∷ 422 ∷ [])

-- (error_class, disable_immediately)
unfoldable pub classify_http_status : ℕ → Option String × Bool
classify_http_status status =
    if leb 200 status && ltb status 300
    then (none, false)
    else if status == 410
    then (some "http_4xx", true)
    else if status == 429
    then (some "http_429", false)
    else if is_non_retryable_4xx status
    then (some "http_4xx", false)
    else if leb 400 status && ltb status 500
    then (some "http_4xx_retryable", false)
    else (some "http_5xx", false)

-- `factor` is `1 + rng.uniform(-0.2, 0.2)` in millionths.
unfoldable pub backoff_delay : ℕ → ℕ → ℕ
backoff_delay consecutive_failures factor =
    min (min (2 ^ consecutive_failures) 360 * 60 * factor) max_backoff

-- A whole number; `negsuc n` is -(n + 1).
pub data ℤ : Type 0 where
  pos : ℕ → ℤ
  negsuc : ℕ → ℤ

-- `raw` is the header as an integer, `none` where it is absent or is none.
unfoldable pub retry_after_delay : Option ℤ → Option ℕ
retry_after_delay none = none
retry_after_delay (some (negsuc n)) = none
retry_after_delay (some (pos n)) = if n == 0 then none else some (min (n * second) max_backoff)

-- `sub.last_error is not None and error_class != sub.last_error`
abbrev class_changed : Option String → String → Bool
class_changed none error_class = false
class_changed (some e) error_class = not (str_eq error_class e)

abbrev pub kept_since : Option ℕ → ℕ → Option ℕ
kept_since none now = some now
kept_since (some t) now = some t

unfoldable pub record_failure : Option ℕ → String → ℕ → Subscription → Subscription
record_failure status error_class now sub = record sub {
  last_attempt_at = some now;
  last_status = status;
  last_error = some error_class;
  consecutive_failures =
      (if class_changed sub.last_error error_class then 0 else sub.consecutive_failures) + 1;
  failing_since = kept_since sub.failing_since now;
}

unfoldable pub record_skip : String → ℕ → Subscription → Subscription
record_skip error_class now sub = record sub {
  last_attempt_at = some now;
  last_status = none;
  last_error = some error_class;
  consecutive_failures =
      (if class_changed sub.last_error error_class then 0 else sub.consecutive_failures) + 1;
  failing_since = none;
}

unfoldable pub record_success : ℕ → ℕ → Subscription → Subscription
record_success status now sub = record sub {
  last_attempt_at = some now;
  last_success_at = some now;
  last_status = some status;
  last_error = none;
  consecutive_failures = 0;
  failing_since = none;
  next_attempt_at = none;
}

unfoldable pub delivery_attempt : Subscription → ℕ
delivery_attempt sub = elim sub.last_error [
  | none ↦ sub.consecutive_failures + 1
  | some e ↦ if str_eq e "payload_too_large" then 1 else sub.consecutive_failures + 1
]

unfoldable pub apply_backoff : ℕ → Option ℕ → ℕ → Subscription → Subscription
apply_backoff now none factor sub = record sub {
  next_attempt_at = some (now + backoff_delay sub.consecutive_failures factor);
}
apply_backoff now (some delay) factor sub = record sub { next_attempt_at = some (now + delay) }

unfoldable pub apply_challenge_backoff : ℕ → Option ℕ → ℕ → Subscription → Subscription
apply_challenge_backoff now none factor sub = record sub {
  next_attempt_at = some (now + backoff_delay sub.challenge_attempts factor);
}
apply_challenge_backoff now (some delay) factor sub = record sub {
  next_attempt_at = some (now + delay);
}

abbrev pub was_created : Option String → Bool
was_created none = false
was_created (some n) = str_eq n "created" || str_eq n "created_disabled"

unfoldable pub notify_disabled : Bool → Subscription → Subscription
notify_disabled supports_created_disabled sub =
    if was_created sub.notify_pending && supports_created_disabled
    then record sub { notify_pending = some "created_disabled" }
    else record sub { notify_pending = some "disabled" }

-- The four lines by which every path of the dispatcher disables a subscription.
unfoldable pub disable : String → ℕ → Bool → Subscription → Subscription
unfolding notify_disabled
disable reason now supports sub =
    notify_disabled supports
      (record sub { active = false; disabled_reason = some reason; disabled_at = some now })

abbrev pub overdue : ℕ → Option ℕ → Bool
overdue now none = false
overdue now (some since) = ltb auto_disable_after (now - since)

unfoldable pub maybe_auto_disable : ℕ → String → Bool → Subscription → Subscription
maybe_auto_disable now reason supports sub =
    if overdue now sub.failing_since then disable reason now supports sub else sub

-- (disabled, the subscription)
unfoldable pub maybe_disable_after_challenge_attempts : ℕ → Subscription → Bool × Subscription
maybe_disable_after_challenge_attempts now sub =
    if ltb sub.challenge_attempts challenge_attempt_disable_after then (false, sub) else (
      true,
      record sub {
        active = false;
        disabled_reason = some "challenge_timeout";
        disabled_at = some now;
        notify_pending = some "disabled";
        challenge_token = none;
        next_attempt_at = none;
      },
    )

-- The failure branch of a response: what follows `_record_failure` in `_drain_one`.
unfoldable pub react : ℕ → Bool → Option ℤ → ℕ → ℕ → Bool → Subscription → Subscription
react status disable_now retry_after factor now supports sub =
    if disable_now
    then disable "gone" now supports sub
    else if status == 429
    then maybe_auto_disable now "too_many_failures" supports
        (apply_backoff now (retry_after_delay retry_after) factor sub)
    else if is_non_retryable_4xx status && leb 3 sub.consecutive_failures
    then disable "non_retryable_client_error" now supports sub
    else maybe_auto_disable now "too_many_failures" supports (apply_backoff now none factor sub)

-- The transport failure branch, and the crash handler of `run_deliveries`.
unfoldable pub fail_without_response : String → ℕ → ℕ → Bool → Subscription → Subscription
fail_without_response error_class factor now supports sub =
    maybe_auto_disable now "too_many_failures" supports
      (apply_backoff now none factor (record_failure none error_class now sub))

-- The failure of one response: nothing where the class is none, which a 2xx has.
fail_classified : ℕ → Option String × Bool → Option ℤ → ℕ → ℕ → Bool → Subscription → Subscription
fail_classified status (none, disable_now) retry_after factor now supports sub = sub
fail_classified status (some error_class, disable_now) retry_after factor now supports sub =
    react status disable_now retry_after factor now supports
      (record_failure (some status) error_class now sub)

unfoldable pub fail_with_response : ℕ → Option ℤ → ℕ → ℕ → Bool → Subscription → Subscription
unfolding fail_classified
fail_with_response status retry_after factor now supports sub =
    fail_classified status (classify_http_status status) retry_after factor now supports sub
