-- ===== src/Coverage/Examples.antt =====
-- The coverage's theorems at concrete rows.
use billcommons.Base.{
  any, ℕ, ◌+◌, ◌*◌, ◌-◌, ◌≡◌, refl, true, false, Option, none, some, List, [], ◌∷◌, ◌||◌, not, all,
  ◌==◌, if◌then◌else◌, arith,
}
use billcommons.Base.Text.{Text, codes, text_eq, is_absent}
use billcommons.Coverage.Documents.{
  Document, Bill, license_note_matches_status, terminal_statuses, is_obtainable, full_text_count,
  full_text_available_count,
}
use billcommons.Coverage.Row.{
  CoverageStatus, green, degraded, validating, full_text_searchable, blocked, JurisdictionCoverage,
  is_green, counts_for, recompute_coverage_row,
}
use billcommons.Coverage.Validation.{BillValidationResult, LegStatus, apply_to_row, meets_bar}
use billcommons.Coverage.Validation.Badge.{earns, decided, apply_to_row-green}
use billcommons.Coverage.Validation.Blocked.{Pass, run_passes, blocked_rows, run_passes-blocked}
use billcommons.Coverage.Selection.{
  Tables, Jurisdiction, is_stale, priority, has_open_job, last_validated, priority_of, is_before,
  ranked, plan_validation, enqueue_validation_jobs, hour,
}
use billcommons.Coverage.Selection.Covers.{is_chosen}
use billcommons.Coverage.Selection.Once.{enqueue_validation_jobs-once}
use billcommons.Coverage.Selection.Fairness.{is_dated, plan_validation-fair}
use billcommons.Coverage.Selection.Recheck.{is_listed, is_second, recheck-agrees, degraded-recovers}

decorated :
    license_note_matches_status (codes "fulltext_status=ok_browser via=browser") terminal_statuses
    ≡ true
unfolding license_note_matches_status
decorated = refl

partial_is_not_terminal :
    license_note_matches_status (codes "fulltext_status=ok_partial_pdf") terminal_statuses ≡ false
unfolding license_note_matches_status
partial_is_not_terminal = refl

abbrev row : ℕ → CoverageStatus → ℕ → Option ℕ → JurisdictionCoverage
row id status texts available = record {
  jurisdiction_id = id;
  session_id = some (id + 10);
  status = status;
  bill_count = 5;
  full_text_count = texts;
  full_text_available_count = available;
  last_attempt_at = none;
  last_success_at = none;
  validation_pass_rate = none;
  known_gaps = none;
}

apply_to_row-green_example :
    is_green (apply_to_row (some (9, 10)) 70 (row 1 validating 4 (some 5))).status
    ≡ decided false false (earns (some (9, 10)) (some 5) 4)
apply_to_row-green_example = apply_to_row-green (some (9, 10)) 70 (row 1 validating 4 (some 5))

abbrev fetched : Document
fetched = record {
  url = some (codes "https://x.test/1");
  extracted_text = some (codes "An act");
  license_note = some (codes "fulltext_status=ok");
}

abbrev disallowed : Document
disallowed = record {
  url = some (codes "https://x.test/2");
  extracted_text = none;
  license_note = some (codes "fulltext_status=robots_disallowed");
}

abbrev bills : List Bill
bills =
    record { jurisdiction_id = 1; session_id = 11; documents = fetched ∷ disallowed ∷ [] }
    ∷ record { jurisdiction_id = 1; session_id = 11; documents = disallowed ∷ [] }
    ∷ []

counted : counts_for bills (row 1 degraded 0 none) ≡ (2, 1, 1)
unfolding counts_for full_text_count full_text_available_count is_obtainable
    license_note_matches_status
counted = refl

abbrev sample : List BillValidationResult
sample =
    record {
      identifier = "HB 1";
      legs =
          record { leg = "structural"; status = LegStatus.pass }
          ∷ record { leg = "cross_source"; status = LegStatus.unverifiable }
          ∷ [];
    }
    ∷ []

abbrev rows : List JurisdictionCoverage
rows = row 1 full_text_searchable 4 (some 5) ∷ row 2 blocked 5 (some 5) ∷ []

abbrev passes : List Pass
passes = Pass.recomputes bills 60 ∷ Pass.validates 2 sample 70 ∷ []

run_passes-blocked_example : blocked_rows (run_passes passes rows) ≡ false ∷ true ∷ []
run_passes-blocked_example = run_passes-blocked passes rows

abbrev fallen : JurisdictionCoverage
fallen = row 1 degraded 0 none

two_bills : (counts_for bills fallen).0 ≡ 2
unfolding counts_for
two_bills = refl

abbrev alaska : Jurisdiction
alaska = record { id = 1; abbreviation = codes "AK" }

abbrev delaware : Jurisdiction
delaware = record { id = 2; abbreviation = codes "DE" }

abbrev recovering : Tables
recovering = record {
  jurisdictions = delaware ∷ alaska ∷ [];
  coverage = row 2 green 5 (some 5) ∷ recompute_coverage_row bills 60 fallen ∷ [];
  runs = record { jurisdiction_id = 1; finished_at = some 40 } ∷ [];
  jobs = [];
}

idle : has_open_job (codes "AK") recovering.jobs ≡ false
unfolding has_open_job
idle = refl

recheck-agrees_example :
    is_green (apply_to_row (some (9, 10)) 70 (row 1 green 3 (some 5))).status
    ≡ not (is_listed recovering 50 (row 1 green 3 (some 5)) alaska)
recheck-agrees_example =
    recheck-agrees (9, 10) 70 50 5 recovering alaska (row 1 green 3 (some 5)) refl (omega arith)
      refl refl refl idle

validated_before : is_stale (last_validated 1 recovering.runs) 50 ≡ true
unfolding last_validated
validated_before = refl

degraded-recovers_example :
    (any (is_second 1) (ranked recovering 50) ≡ true)
    × ((apply_to_row (some (9, 10)) 70 (recompute_coverage_row bills 60 fallen)).status ≡ (
        if (counts_for bills fallen).2 == 0
          || meets_bar (counts_for bills fallen).1 (counts_for bills fallen).2
        then green
        else validating))
degraded-recovers_example =
    degraded-recovers bills (9, 10) 60 70 50 recovering fallen (row 2 green 5 (some 5) ∷ []) []
      alaska (delaware ∷ []) [] refl (omega (arith, two_bills)) refl refl refl refl idle
      validated_before

abbrev db : Tables
db = record {
  jurisdictions =
      record { id = 1; abbreviation = codes "AK" }
      ∷ record { id = 2; abbreviation = codes "DE" }
      ∷ [];
  coverage = row 1 full_text_searchable 4 (some 5) ∷ row 2 full_text_searchable 5 (some 5) ∷ [];
  runs = record { jurisdiction_id = 1; finished_at = some 30 } ∷ [];
  jobs = [];
}

enqueue_validation_jobs-once_example :
    all
      (is_absent
        (enqueue_validation_jobs true 3 6 none 8 90
          (record db { jobs = (enqueue_validation_jobs true 1 6 none 7 80 db).0.jobs })).1)
      (enqueue_validation_jobs true 1 6 none 7 80 db).1
    ≡ true
enqueue_validation_jobs-once_example =
    enqueue_validation_jobs-once 1 6 none 7 80 db 3 6 none 8 90 db

abbrev validated : Text → ℕ
validated abbr = if text_eq abbr (codes "AK") then 30 else 0

all_dated : all (is_dated validated) (ranked db (80 - 6 * hour)) ≡ true
unfolding ranked priority priority_of has_open_job last_validated
all_dated = refl

plan_validation-fair_example :
    all
      (λ c.
        all
          (λ r. is_chosen (plan_validation 1 6 80 db) r || is_before c r)
          (ranked db (80 - 6 * hour)))
      (plan_validation 1 6 80 db)
    ≡ true
plan_validation-fair_example = plan_validation-fair validated 1 6 80 db all_dated
