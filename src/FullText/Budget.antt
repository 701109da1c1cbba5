-- ===== src/FullText/Budget.antt =====
-- The budget of fetches: a document that keeps failing is retired.
use billcommons.Base.{
  ℕ, all, length, suc, ◌+◌, ◌≡◌, sym, ◌∙◌, Bool, true, false, not, List, [], ◌∷◌, ◌&&◌,
  if◌then◌else◌, ltb, leb, arith, is_some,
}
use billcommons.Base.Text.{Text}
use billcommons.Coverage.Documents.{has_url}
use billcommons.FullText.{
  browser_outcome, charge_fetch_error, is_waiting_docket, Status, Document, is_terminal_status,
  is_fetchable, is_charged, spent, plain, record_job_failure, max_fetch_attempts, fetch_error,
}
use billcommons.FullText.Notes.{is_terminal-mark_status}

abbrev pub attempts_after : Bool → Status → ℕ → Document → ℕ
attempts_after count_attempt status now d =
    let more = suc d.fetch_attempts in
    if is_charged count_attempt status now d then more else d.fetch_attempts

spent-terminal :
    (status : Status) (n : ℕ)
    → is_terminal_status status ≡ false
    → is_terminal_status (spent status n) ≡ leb max_fetch_attempts n
spent-terminal status n h = ground (arith, h)

-- After a failure that is recorded a document is fetched again if and only if it has a URL and no text, the
-- status is not terminal, and the attempts, of which a charged failure is one, are fewer than 15.
pub record_job_failure-fetchable :
    (count_attempt : Bool) (status : Status) (now : ℕ) (d : Document)
    → is_fetchable (record_job_failure count_attempt status now d) ≡ (
        has_url d.url
        && not (is_some d.extracted_text)
        && not (is_terminal_status status)
        && ltb (attempts_after count_attempt status now d) max_fetch_attempts)
unfolding is_fetchable record_job_failure
record_job_failure-fetchable count_attempt status now d = ground (
  arith,
  is_terminal-mark_status (plain status),
  is_terminal-mark_status (plain (spent status (suc d.fetch_attempts))),
  spent-terminal status (suc d.fetch_attempts),
)

-- The failures of a document, one after the other, each with its time.
unfoldable pub fail_all : List (Status × ℕ) → Document → Document
fail_all [] d = d
fail_all ((status, now) ∷ fs) d = fail_all fs (record_job_failure true status now d)

-- A failure that is charged whenever the document was created
abbrev pub costs : Status × ℕ → Bool
costs f = not (is_terminal_status f.0) && not (is_waiting_docket f.0)

attempts-failure :
    (status : Status) (now : ℕ) (d : Document)
    → costs (status, now) ≡ true
    → (record_job_failure true status now d).fetch_attempts ≡ suc d.fetch_attempts
unfolding record_job_failure
attempts-failure status now d h = ground (arith, h)

url-failure :
    (status : Status) (now : ℕ) (d : Document)
    → (has_url (record_job_failure true status now d).url
        && not (is_some (record_job_failure true status now d).extracted_text))
      ≡ (has_url d.url && not (is_some d.extracted_text))
unfolding record_job_failure
url-failure status now d = ground arith

-- After failures that are charged, one at least, a document without text is fetched again if and only if
-- it has a URL and they and the attempts before are fewer than 15.
pub fail_all-fetchable :
    (f : Status × ℕ) (fs : List (Status × ℕ)) (d : Document)
    → all costs (f ∷ fs) ≡ true
    → is_fetchable (fail_all (f ∷ fs) d) ≡ (
        has_url d.url
        && not (is_some d.extracted_text)
        && ltb (d.fetch_attempts + length (f ∷ fs)) max_fetch_attempts)
unfolding fail_all
fail_all-fetchable (status, now) [] d h =
    record_job_failure-fetchable true status now d ∙ ground (arith, h)
fail_all-fetchable (status, now) (g ∷ fs) d h =
    fail_all-fetchable g fs (record_job_failure true status now d) (ground (arith, h))
    ∙ ground (arith, h, attempts-failure status now d, url-failure status now d)

-- The browser spends the same budget: after its failures a document is fetched again exactly if it would be
-- after the same failure of a worker.
pub charge_fetch_error-fetchable :
    (stamp : Text) (now : ℕ) (d : Document)
    → is_fetchable (charge_fetch_error stamp d)
      ≡ is_fetchable (record_job_failure true fetch_error now d)
unfolding charge_fetch_error is_fetchable
charge_fetch_error-fetchable stamp now d =
    ground (
      arith,
      is_terminal-mark_status (browser_outcome stamp (spent fetch_error (suc d.fetch_attempts))),
      spent-terminal fetch_error (suc d.fetch_attempts),
    )
    ∙ sym (record_job_failure-fetchable true fetch_error now d)
