-- ===== src/Webhooks/Challenge/Examples.antt =====
-- A challenge at concrete answers.
use billcommons.Base.{◌≡◌, true, none, ◌&&◌, ◌||◌, ltb}
use billcommons.Webhooks.Subscription.Examples.{struggling}
use billcommons.Webhooks.Challenge.{
  ChallengeOutcome, max_active_per_host, max_active_global, attempt_challenge,
}
use billcommons.Webhooks.Challenge.Promotion.{is_accepted, attempt_challenge-verified}

abbrev echo : ChallengeOutcome
echo = ChallengeOutcome.replied 200 true none

attempt_challenge-verified_example :
    (attempt_challenge echo 9 499 1000000 20 struggling).verified ≡ (
      struggling.verified
      || (is_accepted echo && (ltb 9 max_active_per_host && ltb 499 max_active_global)))
attempt_challenge-verified_example = attempt_challenge-verified echo 9 499 1000000 20 struggling

abbrev busy : ChallengeOutcome
busy = ChallengeOutcome.replied 503 true none
