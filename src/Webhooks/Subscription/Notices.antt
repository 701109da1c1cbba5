-- ===== src/Webhooks/Subscription/Notices.antt =====
-- The notices that wait to be sent to a subscriber.
use billcommons.Base.{
  ℕ, String, ◌≡◌, refl, Bool, true, Option, none, some, arith, leb, ◌==◌, ◌&&◌, if_induction,
}
use billcommons.Webhooks.Subscription.{
  Subscription, ℤ, classify_http_status, is_non_retryable_4xx, retry_after_delay, record_failure,
  apply_backoff, notify_disabled, disable, maybe_auto_disable, react, fail_with_response,
  was_created, fail_classified,
}

notify-disable :
    (reason : String) (now : ℕ) (sub : Subscription)
    → was_created sub.notify_pending ≡ true
    → was_created (disable reason now true sub).notify_pending ≡ true
unfolding disable notify_disabled
notify-disable reason now sub h = ground arith

notify-maybe_auto_disable :
    (now : ℕ) (reason : String) (sub : Subscription)
    → was_created sub.notify_pending ≡ true
    → was_created (maybe_auto_disable now reason true sub).notify_pending ≡ true
unfolding maybe_auto_disable
notify-maybe_auto_disable now reason sub h = ground (arith, notify-disable reason now sub)

notify-backoff :
    (now : ℕ) (delay : Option ℕ) (factor : ℕ) (sub : Subscription)
    → (apply_backoff now delay factor sub).notify_pending ≡ sub.notify_pending
unfolding apply_backoff
notify-backoff now none factor sub = refl
notify-backoff now (some d) factor sub = refl

notify-react :
    (status : ℕ) (gone : Bool) (retry : Option ℤ) (factor now : ℕ) (sub : Subscription)
    → was_created sub.notify_pending ≡ true
    → was_created (react status gone retry factor now true sub).notify_pending ≡ true
unfolding react
notify-react status gone retry factor now sub h =
    let b1 = apply_backoff now (retry_after_delay retry) factor sub in
    let b2 = apply_backoff now none factor sub in
    let k1 : was_created b1.notify_pending ≡ true =
      rw (notify-backoff now (retry_after_delay retry) factor sub) h in
    let k2 : was_created b2.notify_pending ≡ true = rw (notify-backoff now none factor sub) h in
    let P = λ (s : Subscription). was_created s.notify_pending ≡ true in
    if_induction P gone (λ _. notify-disable "gone" now sub h)
      λ _.
        if_induction P (status == 429)
          (λ _. notify-maybe_auto_disable now "too_many_failures" b1 k1)
          λ _.
            if_induction P (is_non_retryable_4xx status && leb 3 sub.consecutive_failures)
              (λ _. notify-disable "non_retryable_client_error" now sub h)
              λ _. notify-maybe_auto_disable now "too_many_failures" b2 k2

notify-classified :
    (status : ℕ) (c : Option String × Bool) (retry : Option ℤ) (factor now : ℕ) (sub : Subscription)
    → was_created sub.notify_pending ≡ true
    → was_created (fail_classified status c retry factor now true sub).notify_pending ≡ true
unfolding fail_classified
notify-classified status (none, gone) retry factor now sub h = h
notify-classified status (some e, gone) retry factor now sub h =
    notify-react status gone retry factor now (record_failure (some status) e now sub)
      (unfold record_failure in h)

-- The notice that a subscription was verified is not lost to a later disable notice.
pub created_notice_survives :
    (status : ℕ) (retry : Option ℤ) (factor now : ℕ) (sub : Subscription)
    → was_created sub.notify_pending ≡ true
    → was_created (fail_with_response status retry factor now true sub).notify_pending ≡ true
unfolding fail_with_response
created_notice_survives status retry factor now sub h =
    notify-classified status (classify_http_status status) retry factor now sub h
