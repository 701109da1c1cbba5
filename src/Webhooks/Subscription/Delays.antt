-- ===== src/Webhooks/Subscription/Delays.antt =====
-- When the dispatcher tries a subscription again.
use native.Mathlib.Nat.{pow-suc}
use billcommons.Base.{
  ℕ, ◌+◌, ◌*◌, ◌^◌, ◌≤◌, ◌<◌, min, String, ◌≡◌, ◌⊎◌, refl, Bool, true, Option, none, some, arith,
  ◌==◌, zero, suc, if◌then◌else◌,
}
use billcommons.Webhooks.Subscription.{
  Subscription, ℤ, second, max_backoff, backoff_delay, retry_after_delay, record_failure,
  apply_backoff, notify_disabled, disable, maybe_auto_disable, react, fail_with_response,
}
use billcommons.Webhooks.Subscription.Disabling.{bad_class, active-disable}

-- 2 ^ n is at least 2 from n = 1 on.
pow_two : (n : ℕ) → 1 ≤ 2 ^ n
pow_two zero = omega arith
pow_two (suc n) = rw pow-suc (omega (arith, pow_two n))

backoff_delay_lower : (p factor : ℕ) → 1 ≤ p → 800000 ≤ factor → 48000000 ≤ min p 360 * 60 * factor
backoff_delay_lower p factor lp lo = grind arith

-- With a jitter of at most 20% the delay is between 48 seconds and 6 hours.
pub backoff_delay_bounds :
    (n factor : ℕ)
    → 800000 ≤ factor
    → (48 * second ≤ backoff_delay n factor) × (backoff_delay n factor ≤ max_backoff)
unfolding backoff_delay
backoff_delay_bounds n factor lo = omega (arith, backoff_delay_lower (2 ^ n) factor (pow_two n) lo)

-- A Retry-After that is used is at least a second and at most 6 hours.
pub retry_after_delay_bounds :
    (raw : Option ℤ) (d : ℕ) → retry_after_delay raw ≡ some d → (second ≤ d) × (d ≤ max_backoff)
unfolding retry_after_delay
retry_after_delay_bounds raw d h = ground arith

abbrev pub wait : Option ℕ → ℕ → ℕ → ℕ
wait none n factor = backoff_delay n factor
wait (some d) n factor = d

pub wait_within :
    (o : Option ℕ) (n factor : ℕ)
    → 800000 ≤ factor
    → ((d : ℕ) → o ≡ some d → (second ≤ d) × (d ≤ max_backoff))
    → (second ≤ wait o n factor) × (wait o n factor ≤ max_backoff)
wait_within none n factor lo h = omega (arith, backoff_delay_bounds n factor lo)
wait_within (some d) n factor lo h = h d refl

pub wait_bounds :
    (retry : Option ℤ) (n factor : ℕ)
    → 800000 ≤ factor
    → (second ≤ wait (retry_after_delay retry) n factor)
      × (wait (retry_after_delay retry) n factor ≤ max_backoff)
wait_bounds retry n factor lo =
    wait_within (retry_after_delay retry) n factor lo (retry_after_delay_bounds retry)

next-backoff :
    (now : ℕ) (delay : Option ℕ) (factor : ℕ) (sub : Subscription)
    → (apply_backoff now delay factor sub).next_attempt_at
      ≡ some (now + wait delay sub.consecutive_failures factor)
unfolding apply_backoff
next-backoff now none factor sub = refl
next-backoff now (some d) factor sub = refl

next-maybe_auto_disable :
    (now : ℕ) (reason : String) (supports : Bool) (sub : Subscription)
    → (maybe_auto_disable now reason supports sub).next_attempt_at ≡ sub.next_attempt_at
unfolding maybe_auto_disable disable notify_disabled
next-maybe_auto_disable now reason supports sub = ground arith

abbrev used_header : ℕ → Option ℤ → Option ℤ
used_header status retry = if status == 429 then retry else none

next-react :
    (status : ℕ) (gone : Bool) (retry : Option ℤ) (factor now : ℕ) (supports : Bool)
    (sub : Subscription)
    → sub.active ≡ true
    → (react status gone retry factor now supports sub).active ≡ true
    → (react status gone retry factor now supports sub).next_attempt_at
      ≡ some (
          now + wait (retry_after_delay (used_header status retry)) sub.consecutive_failures factor)
unfolding react
next-react status gone retry factor now supports sub alive still =
    let b1 = apply_backoff now (retry_after_delay retry) factor sub in
    let b2 = apply_backoff now none factor sub in
    ground (
      arith,
      active-disable "gone" now supports sub,
      active-disable "non_retryable_client_error" now supports sub,
      next-maybe_auto_disable now "too_many_failures" supports b1,
      next-maybe_auto_disable now "too_many_failures" supports b2,
      next-backoff now (retry_after_delay retry) factor sub,
      next-backoff now none factor sub,
      no_header,
    )
  where
    no_header : retry_after_delay none ≡ none
    no_header = unfold retry_after_delay in refl

-- What becomes of a subscription that stays active after a failing response: it is due again, a
-- second later at the earliest and 6 hours later at the latest.
pub fail_with_response-reschedules :
    (status : ℕ) (retry : Option ℤ) (factor now : ℕ) (supports : Bool) (sub : Subscription)
    → (status < 200) ⊎ (300 ≤ status)
    → 800000 ≤ factor
    → sub.active ≡ true
    → (fail_with_response status retry factor now supports sub).active ≡ true
    → (t : ℕ) × ((fail_with_response status retry factor now supports sub).next_attempt_at ≡ some t)
      × (now + second ≤ t)
      × (t ≤ now + max_backoff)
unfolding fail_with_response
fail_with_response-reschedules status retry factor now supports sub bad lo alive still =
    let (e, class) = bad_class status bad in
    let failed = record_failure (some status) e now sub in
    let header = used_header status retry in
    let n = failed.consecutive_failures in
    (
      now + wait (retry_after_delay header) n factor,
      ground (
        arith,
        class,
        next-react status (status == 410) retry factor now supports failed
            (unfold record_failure in alive),
      ),
      omega (arith, wait_bounds header n factor lo),
      omega (arith, wait_bounds header n factor lo),
    )
