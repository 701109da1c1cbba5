-- ===== src/Webhooks/Subscription/Cursor.antt =====
-- The failure paths of dispatch_webhooks.py leave the cursor alone.
use billcommons.Base.{ℕ, ◌≡◌, refl, ◌∙◌, Bool, String, Option, none, some, arith}
use billcommons.Webhooks.Subscription.{
  Subscription, ℤ, classify_http_status, retry_after_delay, disable, notify_disabled, apply_backoff,
  maybe_auto_disable, react, record_failure, fail_with_response, fail_classified,
  fail_without_response,
}

pub last_seq-disable :
    (reason : String) (now : ℕ) (supports : Bool) (sub : Subscription)
    → (disable reason now supports sub).last_seq ≡ sub.last_seq
unfolding disable notify_disabled
last_seq-disable reason now supports sub = ground arith

last_seq-auto :
    (now : ℕ) (reason : String) (supports : Bool) (sub : Subscription)
    → (maybe_auto_disable now reason supports sub).last_seq ≡ sub.last_seq
unfolding maybe_auto_disable
last_seq-auto now reason supports sub = ground (arith, last_seq-disable reason now supports sub)

last_seq-backoff :
    (now : ℕ) (delay : Option ℕ) (factor : ℕ) (sub : Subscription)
    → (apply_backoff now delay factor sub).last_seq ≡ sub.last_seq
unfolding apply_backoff
last_seq-backoff now none factor sub = refl
last_seq-backoff now (some d) factor sub = refl

pub last_seq-without_response :
    (e : String) (factor now : ℕ) (supports : Bool) (sub : Subscription)
    → (fail_without_response e factor now supports sub).last_seq ≡ sub.last_seq
unfolding fail_without_response record_failure
last_seq-without_response e factor now supports sub =
    last_seq-auto now "too_many_failures" supports _ ∙ last_seq-backoff now none factor _

last_seq-react :
    (status : ℕ) (gone : Bool) (retry : Option ℤ) (factor now : ℕ) (supports : Bool)
    (sub : Subscription)
    → (react status gone retry factor now supports sub).last_seq ≡ sub.last_seq
unfolding react
last_seq-react status gone retry factor now supports sub =
    let b1 = apply_backoff now (retry_after_delay retry) factor sub in
    let b2 = apply_backoff now none factor sub in
    ground (
      arith,
      last_seq-disable "gone" now supports sub,
      last_seq-disable "non_retryable_client_error" now supports sub,
      last_seq-auto now "too_many_failures" supports b1,
      last_seq-auto now "too_many_failures" supports b2,
      last_seq-backoff now (retry_after_delay retry) factor sub,
      last_seq-backoff now none factor sub,
    )

last_seq-classified :
    (status : ℕ) (c : Option String × Bool) (retry : Option ℤ) (factor now : ℕ) (supports : Bool)
    (sub : Subscription)
    → (fail_classified status c retry factor now supports sub).last_seq ≡ sub.last_seq
unfolding fail_classified
last_seq-classified status (none, gone) retry factor now supports sub = refl
last_seq-classified status (some e, gone) retry factor now supports sub =
    last_seq-react status gone retry factor now supports _ ∙ unfold record_failure in refl

pub last_seq-with_response :
    (status : ℕ) (retry : Option ℤ) (factor now : ℕ) (supports : Bool) (sub : Subscription)
    → (fail_with_response status retry factor now supports sub).last_seq ≡ sub.last_seq
unfolding fail_with_response
last_seq-with_response status retry factor now supports sub =
    last_seq-classified status (classify_http_status status) retry factor now supports sub
