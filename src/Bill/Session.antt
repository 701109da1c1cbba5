-- ===== src/Bill/Session.antt =====
-- `apply_session_outcome` of status.py, and packages/shared/billcommons_shared/enrollment.py: what
-- the end of a session means for a bill. `today` is the day that the caller gives, or the clock's.
pub mod Adjournment
use billcommons.Base.{
  ℕ, ◌-◌, Bool, true, false, Option, none, some, ◌&&◌, not, leb, ltb, if◌then◌else◌,
}
use billcommons.Bill.Vocabulary.{Status, is_live}
use billcommons.Bill.Status.{status_eq}

-- status is not None and status not in LIVE_STATUSES
abbrev pub is_settled : Option Status → Bool
is_settled none = false
is_settled (some s) = not (is_live s)

-- A known end date, and a past one.
abbrev pub is_over : Option ℕ → ℕ → Bool
is_over none today = false
is_over (some ended) today = ltb ended today

unfoldable pub apply_session_outcome : Option Status → Option ℕ → ℕ → Bool → Bool → Option Status
apply_session_outcome status session_end_date today session_active session_has_recent_activity =
    if is_settled status
    then status
    else if not (is_over session_end_date today)
    then status
    else if not session_active
    then some Status.died_on_adjournment
    else if session_has_recent_activity
    then status
    else none

abbrev pub enrolled_pending_grace_days : ℕ
enrolled_pending_grace_days = 180

unfoldable pub enrolled_outcome_is_uncaptured : Option Status → Option ℕ → ℕ → Bool
enrolled_outcome_is_uncaptured none ended today = false
enrolled_outcome_is_uncaptured (some s) none today = false
enrolled_outcome_is_uncaptured (some s) (some ended) today =
    status_eq s Status.enrolled && ltb enrolled_pending_grace_days (today - ended)
