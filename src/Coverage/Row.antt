-- ===== src/Coverage/Row.antt =====
-- The rows of `jurisdiction_coverage` and their recomputation, which is
-- workers/ingest/billcommons_ingest/coverage.py. A pass rate is the checks passed and the checks run.
use billcommons.Base.{
  ℕ, Bool, true, false, Option, none, some, List, ◌&&◌, filter, length, ◌==◌, ltb, map,
  if◌then◌else◌,
}
use billcommons.Coverage.Documents.{Bill, full_text_count, full_text_available_count}

pub data CoverageStatus : Type 0 where
  not_started source_identified bootstrapped metadata_searchable : CoverageStatus
  full_text_searchable validating green degraded blocked : CoverageStatus

-- What holds of each status holds of all.
pub by_status :
    (P : CoverageStatus → Type 0)
    → P not_started
    → P source_identified
    → P bootstrapped
    → P metadata_searchable
    → P full_text_searchable
    → P validating
    → P green
    → P degraded
    → P blocked
    → (s : CoverageStatus) → P s
by_status P a b c d e f g h i not_started = a
by_status P a b c d e f g h i source_identified = b
by_status P a b c d e f g h i bootstrapped = c
by_status P a b c d e f g h i metadata_searchable = d
by_status P a b c d e f g h i full_text_searchable = e
by_status P a b c d e f g h i validating = f
by_status P a b c d e f g h i green = g
by_status P a b c d e f g h i degraded = h
by_status P a b c d e f g h i blocked = i

-- _rank plus one, so that the statuses outside the order have 0.
abbrev pub rank : CoverageStatus → ℕ
rank not_started = 1
rank source_identified = 2
rank bootstrapped = 3
rank metadata_searchable = 4
rank full_text_searchable = 5
rank validating = 6
rank green = 7
rank degraded = 0
rank blocked = 0

abbrev pub is_green : CoverageStatus → Bool
is_green green = true
is_green _ = false

abbrev pub is_degraded : CoverageStatus → Bool
is_degraded degraded = true
is_degraded _ = false

abbrev pub is_blocked : CoverageStatus → Bool
is_blocked blocked = true
is_blocked _ = false

-- _TERMINAL_STATES_NOT_AUTO_ADVANCED
abbrev pub is_not_advanced : CoverageStatus → Bool
is_not_advanced green = true
is_not_advanced degraded = true
is_not_advanced blocked = true
is_not_advanced validating = true
is_not_advanced _ = false

-- What `known_gaps` says, with its figures.
pub data Gap : Type 0 where
  low_pass_rate : ℕ → ℕ → Gap
  not_yet_computed : Gap
  nothing_obtainable : Gap
  crawl_in_progress : ℕ → ℕ → Gap

pub record JurisdictionCoverage : Type 0 where
  pub jurisdiction_id : ℕ
  pub session_id : Option ℕ
  pub status : CoverageStatus
  pub bill_count : ℕ
  pub full_text_count : ℕ
  pub full_text_available_count : Option ℕ
  pub last_attempt_at : Option ℕ
  pub last_success_at : Option ℕ
  pub validation_pass_rate : Option (ℕ × ℕ)
  pub known_gaps : Option Gap

-- One of the three tests: the target moves up to `to` if there is something to count.
abbrev pub lift : ℕ → CoverageStatus → CoverageStatus → CoverageStatus
lift count to target = if ltb 0 count && ltb (rank target) (rank to) then to else target

unfoldable pub next_status_for_counts : CoverageStatus → ℕ → ℕ → CoverageStatus
next_status_for_counts current bills texts =
    if is_not_advanced current
    then current
    else lift texts full_text_searchable
        (lift bills metadata_searchable (lift bills bootstrapped current))

-- (bill_count, full_text_count, full_text_available_count)
unfoldable pub counts_for : List Bill → JurisdictionCoverage → ℕ × ℕ × ℕ
counts_for bills coverage = elim coverage.session_id [
  | some session ↦
      let of_session = filter (λ (b : Bill). b.session_id == session) bills in
      (length of_session, full_text_count of_session, full_text_available_count of_session)
  | none ↦
      (length (filter (λ (b : Bill). b.jurisdiction_id == coverage.jurisdiction_id) bills), 0, 0)
]

unfoldable pub recompute_coverage_row : List Bill → ℕ → JurisdictionCoverage → JurisdictionCoverage
unfolding next_status_for_counts
recompute_coverage_row bills now coverage =
    let (bill_count, texts, available) = counts_for bills coverage in
    record coverage {
      bill_count = bill_count;
      full_text_count = texts;
      full_text_available_count = some available;
      status = next_status_for_counts coverage.status bill_count texts;
      last_attempt_at = some now;
      last_success_at = if ltb 0 bill_count then some now else coverage.last_success_at;
    }

unfoldable pub recompute_all_coverage :
    List Bill → ℕ → List JurisdictionCoverage → List JurisdictionCoverage
recompute_all_coverage bills now rows = map (recompute_coverage_row bills now) rows
