-- ===== src/Alerts/Examples.antt =====
-- A subscription that is disabled while its notice is mailed.
use billcommons.Base.{
  if◌then◌else◌, ℕ, ◌≡◌, refl, true, false, none, some, List, [], ◌∷◌, ◌||◌, ◌==◌,
}
use billcommons.Base.Sorting.{sort_by}
use billcommons.Webhooks.Subscription.{Subscription, notify_disabled}
use billcommons.Alerts.{Row, drain_webhook_notifications, send_notices, disable_rows}
use billcommons.Alerts.Notices.{
  notice_at, is_told, says_news, verified, drain_webhook_notifications-tells,
}

abbrev sub : Subscription
sub = record {
  active = true;
  verified = true;
  disabled_reason = none;
  disabled_at = none;
  notify_pending = some "created";
  challenge_token = none;
  challenge_attempts = 0;
  last_seq = 0;
  last_attempt_at = none;
  last_success_at = none;
  next_attempt_at = none;
  last_status = none;
  last_error = none;
  consecutive_failures = 0;
  failing_since = none;
}

abbrev rows : List Row
rows = record { id = 4; subscription = sub } ∷ record { id = 2; subscription = sub } ∷ []

-- The dispatcher disables 4 while its notice is sent.
abbrev meanwhile : ℕ → List ℕ
meanwhile id = if id == 4 then 4 ∷ [] else []

mailed :
    (drain_webhook_notifications true false (λ id. true) meanwhile rows).mails
    ≡ (2, "created") ∷ (4, "created") ∷ []
unfolding drain_webhook_notifications send_notices disable_rows notify_disabled sort_by
mailed = refl

waiting :
    notice_at 4 (drain_webhook_notifications true false (λ id. true) meanwhile rows).rows
    ≡ some "created_disabled"
unfolding drain_webhook_notifications send_notices disable_rows notify_disabled sort_by
waiting = refl

-- Without the migration the news of the verification is lost.
unsupported :
    notice_at 4 (drain_webhook_notifications false false (λ id. false) meanwhile rows).rows
    ≡ some "disabled"
unfolding drain_webhook_notifications send_notices disable_rows notify_disabled sort_by
unsupported = refl

drain_webhook_notifications-tells_example :
    (says_news verified
        (notice_at 4 (drain_webhook_notifications true false (λ id. false) meanwhile rows).rows)
      || is_told
          (says_news verified)
          4
          (drain_webhook_notifications true false (λ id. false) meanwhile rows).mails)
    ≡ true
drain_webhook_notifications-tells_example =
    drain_webhook_notifications-tells verified true false (λ id. false) meanwhile rows 4 refl refl
