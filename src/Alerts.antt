-- ===== src/Alerts.antt =====
-- workers/alerts/send_alerts.py: drain_webhook_notifications, which mails the notices of subscriptions
-- while the dispatcher goes on. Which mails succeed and which subscriptions the dispatcher disables
-- while one is sent are inputs, and so is the dispatcher's `supports_created_disabled`.
pub mod Notices
mod Examples
use billcommons.Base.{
  ℕ, suc, ◌+◌, String, Bool, true, false, Option, none, some, List, [], ◌∷◌, ◌++◌, ◌&&◌, map,
  filter, ◌==◌, leb, if◌then◌else◌, str_eq,
}
use billcommons.Base.Sorting.{sort_by}
use billcommons.Webhooks.Subscription.{Subscription, notify_disabled}

pub record Row : Type 0 where
  pub id : ℕ
  pub subscription : Subscription

pub record Drain : Type 0 where
  pub rows : List Row
  pub mails : List (ℕ × String)
  pub failed : ℕ

-- What the dispatcher does to a subscription that it disables. `supports` says whether the migration
-- is applied that allows the notice "created_disabled".
abbrev pub disable_row : Bool → ℕ → Row → Row
disable_row supports id r =
    if r.id == id then record r { subscription = notify_disabled supports r.subscription } else r

unfoldable pub disable_rows : Bool → List ℕ → List Row → List Row
disable_rows supports [] rows = rows
disable_rows supports (id ∷ ids) rows =
    disable_rows supports ids (map (disable_row supports id) rows)

abbrev pub is_notice : String → Option String → Bool
is_notice n none = false
is_notice n (some m) = str_eq m n

-- WHERE id = %s AND notify_pending = %s
abbrev pub clear_row : ℕ → String → Row → Row
clear_row id n r =
    if r.id == id && is_notice n r.subscription.notify_pending
    then record r { subscription = record r.subscription { notify_pending = none } }
    else r

abbrev pub notice_of : Row → Option String → List (ℕ × String)
notice_of r none = []
notice_of r (some n) = (r.id, n) ∷ []

-- The rows WHERE notify_pending IS NOT NULL
abbrev pub pending_rows : List Row → List (ℕ × String)
pending_rows [] = []
pending_rows (r ∷ rows) = notice_of r r.subscription.notify_pending ++ pending_rows rows

abbrev pub id_le : ℕ × String → ℕ × String → Bool
id_le a b = leb a.0 b.0

abbrev pub send_notice : Bool → (ℕ → Bool) → (ℕ → List ℕ) → ℕ × String → Drain → Drain
send_notice supports sends meanwhile (id, n) d =
    let rows = disable_rows supports (meanwhile id) d.rows in
    if sends id
    then record {
      rows = map (clear_row id n) rows;
      mails = d.mails ++ (id, n) ∷ [];
      failed = d.failed;
    }
    else record { rows = rows; mails = d.mails; failed = suc d.failed }

unfoldable pub send_notices : Bool → (ℕ → Bool) → (ℕ → List ℕ) → List (ℕ × String) → Drain → Drain
send_notices supports sends meanwhile [] d = d
send_notices supports sends meanwhile (n ∷ ns) d =
    send_notices supports sends meanwhile ns (send_notice supports sends meanwhile n d)

unfoldable pub drain_webhook_notifications :
    Bool → Bool → (ℕ → Bool) → (ℕ → List ℕ) → List Row → Drain
drain_webhook_notifications supports dry_run sends meanwhile rows =
    let start : Drain = record { rows = rows; mails = []; failed = 0 } in
    if dry_run
    then start
    else send_notices supports sends meanwhile (sort_by id_le (pending_rows rows)) start
