-- ===== src/Coverage/Validation.antt =====
-- workers/ingest/billcommons_ingest/validation.py: what a sample of bills scores, and how
-- `apply_validation_result` moves the rows of the jurisdiction. The thresholds of 0.80 are exact in
-- fifths.
pub mod Badge
pub mod Blocked
use billcommons.Base.{
  ℕ, ◌+◌, ◌-◌, ◌*◌, String, Bool, true, false, Option, none, some, List, [], ◌∷◌, ◌++◌, not, filter,
  map, length, ◌==◌, leb, ltb, if◌then◌else◌,
}
use billcommons.Coverage.Row.{
  CoverageStatus, not_started, source_identified, bootstrapped, metadata_searchable,
  full_text_searchable, validating, green, degraded, blocked, Gap, JurisdictionCoverage, is_blocked,
}

pub data LegStatus : Type 0 where
  pass fail unverifiable skipped_robots : LegStatus
  advisory_pass advisory_fail unverifiable_js_page : LegStatus

pub record LegResult : Type 0 where
  pub leg : String
  pub status : LegStatus

pub record BillValidationResult : Type 0 where
  pub identifier : String
  pub legs : List LegResult

-- not in _NON_CHECKABLE
abbrev pub is_checkable : LegStatus → Bool
is_checkable pass = true
is_checkable fail = true
is_checkable _ = false

abbrev pub is_fail : LegStatus → Bool
is_fail fail = true
is_fail _ = false

unfoldable pub checkable_legs : BillValidationResult → List LegResult
checkable_legs b = filter (λ (l : LegResult). is_checkable l.status) b.legs

pub failed_legs : BillValidationResult → List LegResult
failed_legs b = filter (λ (l : LegResult). is_fail l.status) (checkable_legs b)

unfoldable pub checks_run : List BillValidationResult → ℕ
checks_run [] = 0
checks_run (b ∷ bills) = length (checkable_legs b) + checks_run bills

unfoldable pub checks_failed : List BillValidationResult → ℕ
unfolding failed_legs
checks_failed [] = 0
checks_failed (b ∷ bills) = length (failed_legs b) + checks_failed bills

-- The checks passed and the checks run, if any was run.
unfoldable pub pass_rate : List BillValidationResult → Option (ℕ × ℕ)
pass_rate bills =
    if checks_run bills == 0
    then none
    else some (checks_run bills - checks_failed bills, checks_run bills)

-- pass_rate < GREEN_PASS_RATE_THRESHOLD
abbrev pub is_below : ℕ × ℕ → Bool
is_below (passed, total) = ltb (5 * passed) (4 * total)

-- full_text_count >= GREEN_FULLTEXT_COVERAGE_THRESHOLD * available
abbrev pub meets_bar : ℕ → ℕ → Bool
meets_bar texts available = leb (4 * available) (5 * texts)

abbrev unless_blocked : CoverageStatus → CoverageStatus → CoverageStatus
unless_blocked to status = if is_blocked status then status else to

-- The statuses that move to VALIDATING where the denominator is unknown.
abbrev pub is_early : CoverageStatus → Bool
is_early bootstrapped = true
is_early metadata_searchable = true
is_early source_identified = true
is_early _ = false

-- _RECOVERABLE_INTO_VALIDATING
abbrev pub is_recoverable : CoverageStatus → Bool
is_recoverable bootstrapped = true
is_recoverable metadata_searchable = true
is_recoverable source_identified = true
is_recoverable full_text_searchable = true
is_recoverable degraded = true
is_recoverable green = true
is_recoverable _ = false

-- The sample is healthy, and `available` bills have obtainable text.
unfoldable pub promote_measured : ℕ → JurisdictionCoverage → JurisdictionCoverage
promote_measured available c =
    if available == 0
    then record c {
      status = unless_blocked green c.status;
      known_gaps = some Gap.nothing_obtainable;
    }
    else if meets_bar c.full_text_count available
    then record c { status = unless_blocked green c.status; known_gaps = none }
    else record c {
      status = if is_recoverable c.status then validating else c.status;
      known_gaps = some (Gap.crawl_in_progress c.full_text_count available);
    }

unfoldable pub promote : Option ℕ → JurisdictionCoverage → JurisdictionCoverage
promote none c = record c {
  status = if is_early c.status then validating else c.status;
  known_gaps = some Gap.not_yet_computed;
}
promote (some available) c = promote_measured available c

unfoldable pub judge : Option (ℕ × ℕ) → JurisdictionCoverage → JurisdictionCoverage
judge none c = c
judge (some rate) c =
    if is_below rate
    then record c {
      status = unless_blocked degraded c.status;
      known_gaps = some (Gap.low_pass_rate rate.0 rate.1);
    }
    else promote c.full_text_available_count c

-- One turn of the loop over the rows.
unfoldable pub apply_to_row : Option (ℕ × ℕ) → ℕ → JurisdictionCoverage → JurisdictionCoverage
apply_to_row rate now c =
    if c.bill_count == 0
    then c
    else judge rate (record c { validation_pass_rate = rate; last_attempt_at = some now })

unfoldable pub apply_validation_result :
    ℕ → List BillValidationResult → ℕ → List JurisdictionCoverage → List JurisdictionCoverage
apply_validation_result jurisdiction bills now rows =
    map
      (λ (c : JurisdictionCoverage).
        if c.jurisdiction_id == jurisdiction then apply_to_row (pass_rate bills) now c else c)
      rows
