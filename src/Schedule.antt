-- ===== src/Schedule.antt =====
-- The refresh schedule of workers/ingest/billcommons_ingest/scheduler.py: how often a jurisdiction is
-- synchronised, by its sessions, and the pass that enqueues the synchronisations that are due. Times
-- are whole microseconds since datetime.min, dates are days since then.
pub mod Cadence
mod Examples
use billcommons.Base.{
  ℕ, ◌+◌, ◌-◌, ◌*◌, ◌/◌, max, String, Bool, true, false, Option, none, some, List, [], ◌∷◌, ◌&&◌,
  ◌||◌, not, map, leb, ltb, str_eq, if◌then◌else◌,
}
use billcommons.Base.Dict
use billcommons.Base.Text.{Text, text_eq}
use billcommons.Queue.Jobs.{Job, JobStatus, PayloadValue, astext, enqueue}

pub record SessionRow : Type 0 where
  pub active : Bool
  pub start_date : Option ℕ
  pub end_date : Option ℕ

pub record Jurisdiction : Type 0 where
  pub abbreviation : Text
  pub sessions : List SessionRow

pub data CadenceTier : Type 0 where
  active year_round recently_adjourned dormant : CadenceTier

abbrev pub minute : ℕ
minute = 60000000

abbrev pub day : ℕ
day = 86400000000

abbrev pub recently_adjourned_window_days : ℕ
recently_adjourned_window_days = 30

-- 0 <= days_since_end <= RECENTLY_ADJOURNED_WINDOW_DAYS
abbrev pub ended_recently : Option ℕ → ℕ → Bool
ended_recently none today = false
ended_recently (some d) today = leb d today && leb (today - d) recently_adjourned_window_days

abbrev pub active_tier : Option ℕ → CadenceTier
active_tier none = year_round
active_tier (some d) = active

unfoldable pub cadence_tier : Bool → Option ℕ → ℕ → CadenceTier
cadence_tier in_session end_date now =
    if in_session
    then active_tier end_date
    else if ended_recently end_date (now / day)
    then recently_adjourned
    else dormant

unfoldable pub cadence_minutes : CadenceTier → ℕ
cadence_minutes active = 30
cadence_minutes year_round = 60
cadence_minutes recently_adjourned = 24 * 60
cadence_minutes dormant = 7 * 24 * 60

unfoldable pub is_due : Option ℕ → CadenceTier → ℕ → Bool
is_due none tier now = true
is_due (some last) tier now = leb (cadence_minutes tier * minute) (now - last)

abbrev pub counts : JobStatus → Bool
counts JobStatus.queued = true
counts JobStatus.running = true
counts JobStatus.done = true
counts JobStatus.dead = false

abbrev pub is_text : Text → Option Text → Bool
is_text s none = false
is_text s (some t) = text_eq s t

-- A synchronisation of the state that has not died.
abbrev pub syncs : Text → Job → Bool
syncs state j =
    str_eq j.kind "api_sync"
    && (is_text state (astext (Dict.get "state" j.payload)) && counts j.status)

abbrev pub later : ℕ → Option ℕ → Option ℕ
later t none = some t
later t (some u) = some (max t u)

-- The created_at of the most recent such row.
unfoldable pub last_enqueued_at : Text → List Job → Option ℕ
last_enqueued_at state [] = none
last_enqueued_at state (j ∷ jobs) =
    let rest = last_enqueued_at state jobs in
    if syncs state j then later j.created_at rest else rest

abbrev pub starts_later : Option ℕ → Option ℕ → Bool
starts_later none b = false
starts_later (some a) none = true
starts_later (some a) (some b) = ltb b a

-- order_by(active.desc(), start_date.desc().nulls_last())
abbrev pub is_ahead : SessionRow → SessionRow → Bool
is_ahead a b =
    (a.active && not b.active)
    || ((a.active && b.active || not a.active && not b.active)
        && starts_later a.start_date b.start_date)

abbrev pub ahead_of : SessionRow → Option SessionRow → SessionRow
ahead_of s none = s
ahead_of s (some t) = if is_ahead t s then t else s

unfoldable pub first_session : List SessionRow → Option SessionRow
first_session [] = none
first_session (s ∷ sessions) = some (ahead_of s (first_session sessions))

pub record ScheduleDecision : Type 0 where
  pub jurisdiction_abbr : Text
  pub tier : CadenceTier
  pub due : Bool
  pub last_enqueued_at : Option ℕ

abbrev pub decide : Text → Option ℕ → CadenceTier → ℕ → ScheduleDecision
decide abbr last tier now = record {
  jurisdiction_abbr = abbr;
  tier = tier;
  due = is_due last tier now;
  last_enqueued_at = last;
}

-- A jurisdiction with no session is passed over.
abbrev pub decision_then :
    ℕ → List Job → Text → Option SessionRow → List ScheduleDecision → List ScheduleDecision
decision_then now jobs abbr none rest = rest
decision_then now jobs abbr (some s) rest =
    decide abbr (last_enqueued_at abbr jobs) (cadence_tier s.active s.end_date now) now ∷ rest

unfoldable pub plan_schedule : ℕ → List Job → List Jurisdiction → List ScheduleDecision
plan_schedule now jobs [] = []
plan_schedule now jobs (j ∷ js) =
    decision_then now jobs j.abbreviation (first_session j.sessions) (plan_schedule now jobs js)

-- The loop over the decisions; the rows get the ids from `id` on.
unfoldable pub enqueue_due : ℕ → ℕ → List ScheduleDecision → List Job → List Job × List Text
enqueue_due id now [] jobs = (jobs, [])
enqueue_due id now (d ∷ ds) jobs =
    let enqueued = enqueue_due (id + 1) now ds (
      enqueue id "api_sync" (("state", PayloadValue.text d.jurisdiction_abbr) ∷ []) none now
        jobs) in
    let passed = enqueue_due id now ds jobs in
    if d.due then (enqueued.0, d.jurisdiction_abbr ∷ enqueued.1) else passed

-- `acquired` says whether the advisory lock was free.
unfoldable pub run_schedule_pass :
    Bool → ℕ → ℕ → List Jurisdiction → List Job → List Job × List Text
run_schedule_pass acquired id now js jobs =
    let done = enqueue_due id now (plan_schedule now jobs js) jobs in
    if acquired then done else (jobs, [])
