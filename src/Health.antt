-- ===== src/Health.antt =====
-- workers/ingest/billcommons_ingest/healthcheck.py: whether the full-text crawl makes progress. Times are
-- microseconds since datetime.min.
pub mod Stall
mod Examples
use billcommons.Base.{
  ℕ, ◌+◌, ◌-◌, ◌*◌, max, String, Bool, true, false, Option, none, some, List, [], ◌∷◌, ◌&&◌, ◌||◌,
  not, any, filter, length, map, ◌==◌, ltb, leb, if◌then◌else◌, is_some,
}
use billcommons.Base.Text.{Text, text_eq}
use billcommons.Coverage.Documents.{has_url, note_of, terminal_statuses}
use billcommons.Queue.Jobs.{Job, JobStatus, count_queued, count_claimable}

abbrev pub minute : ℕ
minute = 60 * 1000000

abbrev pub default_stall_minutes : ℕ
default_stall_minutes = 30

pub record Document : Type 0 where
  pub url : Option Text
  pub extracted_text : Option Text
  pub license_note : Option Text
  pub updated_at : ℕ

-- The branches that choose the reason. The minutes since the last text are in microseconds.
pub data Reason : Type 0 where
  queue_empty : Option ℕ → Reason
  top_up_due : Reason
  idle : Reason
  never_extracted : ℕ → Reason
  nothing_extracted : ℕ → ℕ → Reason
  producing : ℕ → Reason

pub record CrawlHealth : Type 0 where
  pub healthy : Bool
  pub reason : Reason
  pub last_text_at : Option ℕ
  pub texted_last_hour : ℕ
  pub claimable_now : ℕ
  pub queued_total : ℕ
  pub dead_total : ℕ
  pub backlog_remains : Bool

abbrev pub has_text : Document → Bool
has_text d = is_some d.extracted_text

abbrev pub latest : ℕ → Option ℕ → Option ℕ
latest t none = some t
latest t (some u) = some (max t u)

-- max(updated_at) of the documents with text
unfoldable pub last_text_at : List Document → Option ℕ
last_text_at [] = none
last_text_at (d ∷ ds) =
    let rest = last_text_at ds in if has_text d then latest d.updated_at rest else rest

-- updated_at > now - 1 hour
unfoldable pub texted_since : ℕ → List Document → ℕ
texted_since now ds = length (filter (λ d. has_text d && ltb now (d.updated_at + 60 * minute)) ds)

-- license_note <> all(:terminal)
unfoldable pub is_unmarked : Option Text → Bool
is_unmarked none = true
is_unmarked (some note) = not (any (λ s. text_eq (note_of s) note) terminal_statuses)

unfoldable pub backlog_remains : List Document → Bool
backlog_remains ds = any (λ d. not (has_text d) && has_url d.url && is_unmarked d.license_note) ds

-- minutes_since is None or minutes_since >= stall_minutes
abbrev pub is_quiet : ℕ → ℕ → Option ℕ → Bool
is_quiet stall now none = true
is_quiet stall now (some t) = leb (t + stall * minute) now

abbrev pub since : ℕ → Option ℕ → Option ℕ
since now none = none
since now (some t) = some (now - t)

abbrev pub not_idle : ℕ → ℕ → ℕ → ℕ → Option ℕ → Bool × Reason
not_idle stall now claimable texted none = (false, never_extracted claimable)
not_idle stall now claimable texted (some t) =
    if leb (t + stall * minute) now
    then (false, nothing_extracted claimable (now - t))
    else (true, producing texted)

-- The chain of conditions
unfoldable pub assess : ℕ → ℕ → ℕ → ℕ → ℕ → Bool → Option ℕ → Bool × Reason
assess stall now claimable queued texted backlog last =
    if (queued == 0 && backlog) && is_quiet stall now last
    then (false, queue_empty (since now last))
    else if claimable == 0
    then (true, if backlog then top_up_due else idle)
    else not_idle stall now claimable texted last

unfoldable pub check_crawl_health : ℕ → ℕ → List Document → List Job → CrawlHealth
check_crawl_health stall now ds jobs =
    let last = last_text_at ds in
    let texted = texted_since now ds in
    let claimable = count_claimable "fetch_text" now jobs in
    let queued = count_queued "fetch_text" JobStatus.queued jobs in
    let dead = count_queued "fetch_text" JobStatus.dead jobs in
    let backlog = backlog_remains ds in
    let verdict = assess stall now claimable queued texted backlog last in
    record {
      healthy = verdict.0;
      reason = verdict.1;
      last_text_at = last;
      texted_last_hour = texted;
      claimable_now = claimable;
      queued_total = queued;
      dead_total = dead;
      backlog_remains = backlog;
    }
