-- ===== src/Webhooks/Challenge/Promotion.antt =====
-- When an endpoint is verified, and that an attempt always decides what comes next.
use billcommons.Base.{
  ℕ, ◌+◌, ◌≤◌, ◌≡◌, refl, Bool, true, false, Option, none, some, ◌&&◌, ◌||◌, ◌==◌, leb, ltb,
  if◌then◌else◌, if_induction, ◌⊎◌, inl, inr, arith,
}
use billcommons.Webhooks.Subscription.{
  Subscription, ℤ, second, max_backoff, classify_http_status, retry_after_delay,
  apply_challenge_backoff, maybe_disable_after_challenge_attempts, challenge_attempt_disable_after,
}
use billcommons.Webhooks.Subscription.Delays.{wait, wait_within, wait_bounds}
use billcommons.Webhooks.Challenge.{
  ChallengeOutcome, max_active_per_host, max_active_global, disable_over_quota, promote,
  disable_or_wait, wait_again, challenge_failed, is_2xx, attempt_challenge,
}

-- The endpoint echoed the token with a 2xx.
abbrev pub is_accepted : ChallengeOutcome → Bool
is_accepted (ChallengeOutcome.unreachable error) = false
is_accepted (ChallengeOutcome.replied status echoes retry) = is_2xx status && echoes

verified-backoff :
    (now : ℕ) (delay : Option ℕ) (factor : ℕ) (sub : Subscription)
    → (apply_challenge_backoff now delay factor sub).verified ≡ sub.verified
unfolding apply_challenge_backoff
verified-backoff now none factor sub = refl
verified-backoff now (some d) factor sub = refl

verified-wait_again :
    (now : ℕ) (delay : Option ℕ) (factor : ℕ) (sub : Subscription)
    → (wait_again now delay factor sub).verified ≡ sub.verified
unfolding wait_again maybe_disable_after_challenge_attempts
verified-wait_again now delay factor sub =
    if_induction
      (λ (p : Bool × Subscription). (disable_or_wait now delay factor p).verified ≡ sub.verified)
      (ltb sub.challenge_attempts challenge_attempt_disable_after)
      (λ _. verified-backoff now delay factor sub) λ _. refl

verified-challenge_failed :
    (status : ℕ) (retry : Option ℤ) (factor now : ℕ) (sub : Subscription)
    → (challenge_failed status retry factor now sub).verified ≡ sub.verified
unfolding challenge_failed
verified-challenge_failed status retry factor now sub =
    if_induction (λ (s : Subscription). s.verified ≡ sub.verified) (classify_http_status status).1
      (λ _. refl) λ _. verified-wait_again now _ factor _

verified-promote :
    (on_host globally now : ℕ) (sub : Subscription)
    → (promote on_host globally now sub).verified
      ≡ (sub.verified || (ltb on_host max_active_per_host && ltb globally max_active_global))
unfolding promote disable_over_quota
verified-promote on_host globally now sub = ground arith

-- A subscription is verified after an attempt exactly if it was before, or the endpoint echoed the
-- token with a 2xx while fewer than 10 of its host and fewer than 500 of all were verified.
pub attempt_challenge-verified :
    (o : ChallengeOutcome) (on_host globally factor now : ℕ) (sub : Subscription)
    → (attempt_challenge o on_host globally factor now sub).verified ≡ (
        sub.verified
        || (is_accepted o && (ltb on_host max_active_per_host && ltb globally max_active_global)))
unfolding attempt_challenge
attempt_challenge-verified (ChallengeOutcome.unreachable error) on_host globally factor now sub =
    ground (
      arith,
      verified-wait_again now none factor (record sub {
        challenge_attempts = sub.challenge_attempts + 1;
        last_error = some error;
        last_status = none;
      }),
    )
attempt_challenge-verified (ChallengeOutcome.replied status echoes retry) on_host globally factor
      now sub =
    let sub' = record sub {
      challenge_attempts = sub.challenge_attempts + 1;
      last_status = some status;
    } in
    ground (
      arith,
      verified-promote on_host globally now sub',
      verified-wait_again now none factor (record sub' { last_error = some "challenge_mismatch" }),
      verified-challenge_failed status retry factor now sub',
    )

-- The subscription is disabled, verified, or due again within the bounds of a delay.
abbrev pub IsDecided : ℕ → Subscription → Type 0
IsDecided now s =
    (s.active ≡ false)
    ⊎ ((s.verified ≡ true)
        ⊎ ((t : ℕ) × (s.next_attempt_at ≡ some t) × (now + second ≤ t) × (t ≤ now + max_backoff)))

wait_again-IsDecided :
    (now : ℕ) (delay : Option ℕ) (factor : ℕ) (sub : Subscription)
    → ((n : ℕ) → (second ≤ wait delay n factor) × (wait delay n factor ≤ max_backoff))
    → IsDecided now (wait_again now delay factor sub)
unfolding wait_again maybe_disable_after_challenge_attempts apply_challenge_backoff
wait_again-IsDecided now delay factor sub bounds =
    if_induction (λ (p : Bool × Subscription). IsDecided now (disable_or_wait now delay factor p))
      (ltb sub.challenge_attempts challenge_attempt_disable_after)
      (λ _. inr (inr (due_again now delay factor sub bounds))) λ _. inl refl
  where
    due_again :
        (now : ℕ) (delay : Option ℕ) (factor : ℕ) (sub : Subscription)
        → ((n : ℕ) → (second ≤ wait delay n factor) × (wait delay n factor ≤ max_backoff))
        → (t : ℕ) × ((apply_challenge_backoff now delay factor sub).next_attempt_at ≡ some t)
          × (now + second ≤ t)
          × (t ≤ now + max_backoff)
    due_again now none factor sub b =
        let w = b sub.challenge_attempts in
        (now + wait none sub.challenge_attempts factor, refl, omega (arith, w), omega (arith, w))
    due_again now (some d) factor sub b =
        let w = b sub.challenge_attempts in (now + d, refl, omega (arith, w), omega (arith, w))

plain_bounds :
    (factor n : ℕ)
    → 800000 ≤ factor
    → (second ≤ wait none n factor) × (wait none n factor ≤ max_backoff)
plain_bounds factor n lo = wait_within none n factor lo (λ d h. absurd (none≢some h))
  where
    none≢some : {d : ℕ} → none ≡ some d → ⊥
    none≢some h = cc

challenge_failed-IsDecided :
    (status : ℕ) (retry : Option ℤ) (factor now : ℕ) (sub : Subscription)
    → 800000 ≤ factor
    → IsDecided now (challenge_failed status retry factor now sub)
unfolding challenge_failed
challenge_failed-IsDecided status retry factor now sub lo =
    if_induction (IsDecided now) (classify_http_status status).1 (λ _. inl refl)
      λ _.
        wait_again-IsDecided now (if status == 429 then retry_after_delay retry else none) factor _
          λ n.
            if_induction (λ o. (second ≤ wait o n factor) × (wait o n factor ≤ max_backoff))
              (status == 429) (λ _. wait_bounds retry n factor lo) λ _. plain_bounds factor n lo

promote-IsDecided :
    (on_host globally now : ℕ) (sub : Subscription)
    → IsDecided now (promote on_host globally now sub)
unfolding promote disable_over_quota
promote-IsDecided on_host globally now sub =
    if_induction (IsDecided now) (leb max_active_per_host on_host) (λ _. inl refl)
      λ _.
        if_induction (IsDecided now) (leb max_active_global globally) (λ _. inl refl)
          λ _. inr (inl refl)

-- After an attempt, with a jitter of at most 20%, a subscription is disabled, verified, or due again
-- between a second and 6 hours later.
pub attempt_challenge-IsDecided :
    (o : ChallengeOutcome) (on_host globally factor now : ℕ) (sub : Subscription)
    → 800000 ≤ factor
    → IsDecided now (attempt_challenge o on_host globally factor now sub)
unfolding attempt_challenge
attempt_challenge-IsDecided (ChallengeOutcome.unreachable error) on_host globally factor now sub
      lo =
    wait_again-IsDecided now none factor _ λ n. plain_bounds factor n lo
attempt_challenge-IsDecided (ChallengeOutcome.replied status echoes retry) on_host globally factor
      now sub lo =
    if_induction (IsDecided now) (is_2xx status && echoes)
      (λ _. promote-IsDecided on_host globally now _)
      λ _.
        if_induction (IsDecided now) (is_2xx status)
          (λ _. wait_again-IsDecided now none factor _ λ n. plain_bounds factor n lo)
          λ _. challenge_failed-IsDecided status retry factor now _ lo
