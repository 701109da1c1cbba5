-- ===== src/FullText.antt =====
-- workers/ingest/billcommons_ingest/fulltext.py: how the outcome of a fetch is written into the license
-- note of a document, and which documents are fetched; and what record_job_failure of cli.py and
-- _charge_fetch_error of browser_fetch.py write. Times are microseconds since datetime.min; an
-- empty text of an optional argument is falsy, as in Python.
pub mod Notes
pub mod Budget
mod Examples
use billcommons.Base.{
  ℕ, suc, ◌+◌, ◌*◌, String, Bool, true, false, Option, none, some, List, [], ◌∷◌, ◌++◌, ◌&&◌, ◌||◌,
  not, ltb, leb, if◌then◌else◌, is_some, str_eq,
}
use billcommons.Base.Text.{Text, codes}
use billcommons.Coverage.Documents.{has_url, is_terminal}

pub data Status : Type 0 where
  ok : Status
  ok_browser : Status
  ok_partial_pdf : Status
  robots_disallowed : Status
  scanned_pdf_no_text : Status
  fetch_error : Status
  unsupported_type : Status
  empty_url : Status
  unsupported_redirect_scheme : Status
  too_many_redirects : Status
  malformed_url : Status
  permanently_failed : Status
  no_document_text : Status
  ma_docket_no_bill_number : Status
  ma_docket_not_found : Status
  worker_error : Status

abbrev pub name_of : Status → String
name_of ok = "ok"
name_of ok_browser = "ok_browser"
name_of ok_partial_pdf = "ok_partial_pdf"
name_of robots_disallowed = "robots_disallowed"
name_of scanned_pdf_no_text = "scanned_pdf_no_text"
name_of fetch_error = "fetch_error"
name_of unsupported_type = "unsupported_type"
name_of empty_url = "empty_url"
name_of unsupported_redirect_scheme = "unsupported_redirect_scheme"
name_of too_many_redirects = "too_many_redirects"
name_of malformed_url = "malformed_url"
name_of permanently_failed = "permanently_failed"
name_of no_document_text = "no_document_text"
name_of ma_docket_no_bill_number = "ma_docket_no_bill_number"
name_of ma_docket_not_found = "ma_docket_not_found"
name_of worker_error = "worker_error"

-- status in TERMINAL_STATUSES
abbrev pub is_terminal_status : Status → Bool
is_terminal_status ok = false
is_terminal_status ok_partial_pdf = false
is_terminal_status fetch_error = false
is_terminal_status too_many_redirects = false
is_terminal_status ma_docket_no_bill_number = false
is_terminal_status worker_error = false
is_terminal_status _ = true

-- status in SUCCESS_STATUSES
abbrev pub is_success : Status → Bool
is_success ok = true
is_success ok_browser = true
is_success ok_partial_pdf = true
is_success _ = false

abbrev pub is_permanently_failed : Status → Bool
is_permanently_failed permanently_failed = true
is_permanently_failed _ = false

abbrev pub is_fetch_error : Status → Bool
is_fetch_error fetch_error = true
is_fetch_error _ = false

abbrev pub suffix : Bool → String → Option Text → Text
suffix allowed key none = []
suffix allowed key (some []) = []
suffix allowed key (some (c ∷ s)) = if allowed then b' ' ∷ codes key ++ (b'=' ∷ c ∷ s) else []

pub record Outcome : Type 0 where
  pub status : Status
  pub resolver : Option Text
  pub provenance : Option Text
  pub robots_exempt : Bool
  pub browser_attempted_at : Option Text
  pub fetch_detail : Option Text

-- The note that `_mark_status` writes.
unfoldable pub mark_status : Outcome → Text
mark_status o =
    codes "fulltext_status="
    ++ (codes (name_of o.status)
        ++ ((if o.robots_exempt && not (is_terminal_status o.status)
              then codes " robots=api_token_exempt"
              else [])
            ++ (suffix (is_success o.status) "url_resolver" o.resolver
                ++ (suffix (is_success o.status) "via" o.provenance
                    ++ (suffix (is_permanently_failed o.status) "browser_attempted_at"
                          o.browser_attempted_at
                        ++ suffix (is_fetch_error o.status) "fetch_detail" o.fetch_detail)))))

pub record Document : Type 0 where
  pub url : Option Text
  pub extracted_text : Option Text
  pub license_note : Option Text
  pub fetch_attempts : ℕ
  pub created_at : Option ℕ

abbrev pub max_fetch_attempts : ℕ
max_fetch_attempts = 15

abbrev pub grace : ℕ
grace = 180 * (24 * 3600 * 1000000)

-- The conditions of enqueue_fulltext_jobs on the document itself
unfoldable pub is_fetchable : Document → Bool
is_fetchable d =
    has_url d.url
    && not (is_some d.extracted_text)
    && not (is_terminal d.license_note)
    && ltb d.fetch_attempts max_fetch_attempts

abbrev pub plain : Status → Outcome
plain status = record {
  status = status;
  resolver = none;
  provenance = none;
  robots_exempt = false;
  browser_attempted_at = none;
  fetch_detail = none;
}

abbrev pub is_waiting_docket : Status → Bool
is_waiting_docket ma_docket_no_bill_number = true
is_waiting_docket _ = false

abbrev pub past_grace : Option ℕ → ℕ → Bool
past_grace none now = true
past_grace (some t) now = leb (t + grace) now

-- Whether a failure spends an attempt
abbrev pub is_charged : Bool → Status → ℕ → Document → Bool
is_charged count_attempt status now d =
    count_attempt
    && not (is_terminal_status status)
    && (not (is_waiting_docket status) || past_grace d.created_at now)

abbrev pub spent : Status → ℕ → Status
spent status attempts = if leb max_fetch_attempts attempts then permanently_failed else status

-- What record_job_failure does to the document.
unfoldable pub record_job_failure : Bool → Status → ℕ → Document → Document
record_job_failure count_attempt status now d =
    if is_charged count_attempt status now d
    then record d {
      fetch_attempts = suc d.fetch_attempts;
      license_note = some (mark_status (plain (spent status (suc d.fetch_attempts))));
    }
    else record d { license_note = some (mark_status (plain status)) }

-- The outcome that the browser marks, with the time in ISO format if the budget is spent
abbrev pub browser_outcome : Text → Status → Outcome
browser_outcome stamp status = record (plain status) {
  browser_attempted_at = if is_permanently_failed status then some stamp else none;
}

-- _charge_fetch_error
unfoldable pub charge_fetch_error : Text → Document → Document
charge_fetch_error stamp d = record d {
  fetch_attempts = suc d.fetch_attempts;
  license_note =
      some (mark_status (browser_outcome stamp (spent fetch_error (suc d.fetch_attempts))));
}
