-- ===== src/Coverage/Selection.antt =====
-- The validation scheduler of workers/ingest/billcommons_ingest/scheduler.py: `plan_validation` with
-- its query, and `enqueue_validation_jobs`. Times are whole microseconds since datetime.min. Rows that
-- the query's order leaves equal stand in the order of the table.
pub mod Once
pub mod Covers
pub mod Fairness
pub mod Recheck
use billcommons.Base.{
  ℕ, suc, ◌+◌, ◌-◌, ◌*◌, max, String, Bool, true, false, Option, none, some, List, [], ◌∷◌, ◌++◌,
  ◌&&◌, ◌||◌, not, any, filter, map, take, ◌==◌, leb, ltb, str_eq, if◌then◌else◌,
}
use billcommons.Base.Dict
use billcommons.Base.Text.{Text, text_eq}
use billcommons.Base.Sorting.{sort_by, text_le}
use billcommons.Queue.Jobs.{Job, PayloadValue, Payload, is_queued, is_running, astext, enqueue}
use billcommons.Coverage.Row.{
  CoverageStatus, not_started, source_identified, bootstrapped, metadata_searchable,
  full_text_searchable, validating, green, degraded, blocked, JurisdictionCoverage,
}
use billcommons.Coverage.Validation.{meets_bar}

pub record Jurisdiction : Type 0 where
  pub id : ℕ
  pub abbreviation : Text

pub record ValidationRun : Type 0 where
  pub jurisdiction_id : ℕ
  pub finished_at : Option ℕ

pub record ValidationCandidate : Type 0 where
  pub jurisdiction_id : ℕ
  pub jurisdiction_abbr : Text
  pub status : CoverageStatus
  pub last_attempt_at : Option ℕ
  pub priority : ℕ
  pub last_validated_at : Option ℕ

abbrev pub later : Option ℕ → Option ℕ → Option ℕ
later none b = b
later (some a) none = some a
later (some a) (some b) = some (max a b)

-- max(vr.finished_at) of the jurisdiction
unfoldable pub last_validated : ℕ → List ValidationRun → Option ℕ
last_validated id [] = none
last_validated id (r ∷ runs) =
    let rest = last_validated id runs in
    if r.jurisdiction_id == id then later r.finished_at rest else rest

abbrev pub is_text : Text → Option Text → Bool
is_text s none = false
is_text s (some t) = text_eq s t

-- A `validate` job of the jurisdiction is queued or running.
abbrev pub is_open_for : Text → Job → Bool
is_open_for abbr j =
    str_eq j.kind "validate"
    && ((is_queued j.status || is_running j.status)
        && is_text abbr (astext (Dict.get "jurisdiction" j.payload)))

unfoldable pub has_open_job : Text → List Job → Bool
has_open_job abbr jobs = any (is_open_for abbr) jobs

-- last_validated.at IS NULL OR last_validated.at <= :recheck_cutoff
abbrev pub is_stale : Option ℕ → ℕ → Bool
is_stale none cutoff = true
is_stale (some t) cutoff = leb t cutoff

abbrev pub misses_bar : Option ℕ → ℕ → Bool
misses_bar none texts = false
misses_bar (some available) texts = ltb 0 available && not (meets_bar texts available)

-- The CASE of the query.
unfoldable pub priority_of : CoverageStatus → ℕ → Option ℕ → Option ℕ → ℕ → Option ℕ
priority_of full_text_searchable cutoff last available texts = some 1
priority_of degraded cutoff last available texts = if is_stale last cutoff then some 2 else none
priority_of green cutoff last available texts = if misses_bar available texts then some 2 else none
priority_of bootstrapped cutoff last available texts = some 3
priority_of metadata_searchable cutoff last available texts = some 3
priority_of validating cutoff last available texts = some 3
priority_of not_started cutoff last available texts = none
priority_of source_identified cutoff last available texts = none
priority_of blocked cutoff last available texts = none

unfoldable pub priority : ℕ → Option ℕ → JurisdictionCoverage → Option ℕ
priority cutoff last c =
    priority_of c.status cutoff last c.full_text_available_count c.full_text_count

abbrev pub turn : Option ℕ → ℕ
turn none = 0
turn (some t) = suc t

-- ORDER BY priority ASC, last_validated_at ASC NULLS FIRST, abbreviation ASC
abbrev pub is_before : ValidationCandidate → ValidationCandidate → Bool
is_before a b =
    ltb a.priority b.priority
    || (a.priority == b.priority
        && (ltb (turn a.last_validated_at) (turn b.last_validated_at)
            || (turn a.last_validated_at == turn b.last_validated_at
                && text_le a.jurisdiction_abbr b.jurisdiction_abbr)))

-- c.last_validated_at or datetime.min
abbrev pub or_min : Option ℕ → ℕ
or_min none = 0
or_min (some t) = t

-- The key of Python's `sorted`.
abbrev pub key_le : ValidationCandidate → ValidationCandidate → Bool
key_le a b =
    ltb a.priority b.priority
    || (a.priority == b.priority
        && (ltb (or_min a.last_validated_at) (or_min b.last_validated_at)
            || (or_min a.last_validated_at == or_min b.last_validated_at
                && text_le a.jurisdiction_abbr b.jurisdiction_abbr)))

-- seen[abbr] = candidate, unless one of the same or a better priority is there
pub keep_best : ValidationCandidate → List ValidationCandidate → List ValidationCandidate
keep_best c [] = c ∷ []
keep_best c (e ∷ seen) =
    if text_eq e.jurisdiction_abbr c.jurisdiction_abbr
    then (if ltb c.priority e.priority then c else e) ∷ seen
    else e ∷ keep_best c seen

pub collapse : List ValidationCandidate → List ValidationCandidate → List ValidationCandidate
unfolding keep_best
collapse seen [] = seen
collapse seen (c ∷ rows) = collapse (keep_best c seen) rows

abbrev pub hour : ℕ
hour = 3600000000

abbrev pub default_validate_batch : ℕ
default_validate_batch = 3

abbrev pub default_degraded_recheck_age_hours : ℕ
default_degraded_recheck_age_hours = 6

-- What the database holds.
pub record Tables : Type 0 where
  pub jurisdictions : List Jurisdiction
  pub coverage : List JurisdictionCoverage
  pub runs : List ValidationRun
  pub jobs : List Job

module _ (db : Tables) (cutoff : ℕ) where
  abbrev pub candidate : Jurisdiction → JurisdictionCoverage → Option ℕ → List ValidationCandidate
  candidate j c none = []
  candidate j c (some p) =
      record {
        jurisdiction_id = j.id;
        jurisdiction_abbr = j.abbreviation;
        status = c.status;
        last_attempt_at = c.last_attempt_at;
        priority = p;
        last_validated_at = last_validated j.id db.runs;
      }
      ∷ []

  -- WHERE jc.bill_count > 0 AND NOT EXISTS (an open job)
  abbrev pub of_pair : JurisdictionCoverage → Jurisdiction → List ValidationCandidate
  of_pair c j =
      if j.id == c.jurisdiction_id
        && (ltb 0 c.bill_count && not (has_open_job j.abbreviation db.jobs))
      then candidate j c (priority cutoff (last_validated j.id db.runs) c)
      else []

  abbrev pub of_row : JurisdictionCoverage → List Jurisdiction → List ValidationCandidate
  of_row c [] = []
  of_row c (j ∷ js) = of_pair c j ++ of_row c js

  abbrev pub of_rows : List JurisdictionCoverage → List ValidationCandidate
  of_rows [] = []
  of_rows (c ∷ cs) = of_row c db.jurisdictions ++ of_rows cs

  unfoldable pub ranked : List ValidationCandidate
  ranked = of_rows db.coverage

unfoldable pub plan_validation : ℕ → ℕ → ℕ → Tables → List ValidationCandidate
unfolding collapse
plan_validation batch degraded_recheck_age_hours now db =
    let rows =
      take (batch * 4 + 10)
        (sort_by is_before (ranked db (now - degraded_recheck_age_hours * hour))) in
    take batch (sort_by key_le (collapse [] rows))

abbrev pub validate_payload : Text → Option ℕ → Payload
validate_payload abbr none = ("jurisdiction", PayloadValue.text abbr) ∷ []
validate_payload abbr (some n) =
    ("jurisdiction", PayloadValue.text abbr) ∷ ("sample", PayloadValue.number n) ∷ []

-- The rows get the ids from `id` on.
unfoldable pub enqueue_each : ℕ → ℕ → Option ℕ → List ValidationCandidate → List Job → List Job
enqueue_each id now sample [] jobs = jobs
enqueue_each id now sample (c ∷ cs) jobs =
    enqueue_each (id + 1) now sample cs
      (enqueue id "validate" (validate_payload c.jurisdiction_abbr sample) none now jobs)

abbrev pub abbreviations : List ValidationCandidate → List Text
abbreviations cs = map (λ (c : ValidationCandidate). c.jurisdiction_abbr) cs

-- `acquired` says whether the advisory lock was free.
unfoldable pub enqueue_validation_jobs :
    Bool → ℕ → ℕ → Option ℕ → ℕ → ℕ → Tables → Tables × List Text
enqueue_validation_jobs acquired batch age sample id now db =
    let plan = plan_validation batch age now db in
    if acquired
    then (record db { jobs = enqueue_each id now sample plan db.jobs }, abbreviations plan)
    else (db, [])
