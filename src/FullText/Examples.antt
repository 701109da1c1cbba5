-- ===== src/FullText/Examples.antt =====
-- A document that keeps failing, and the theorems at it.
use billcommons.Base.{ℕ, ◌≡◌, refl, false, none, some, [], ◌∷◌}
use billcommons.Base.Text.{codes}
use billcommons.Coverage.Documents.{has_url, is_terminal}
use billcommons.FullText.{
  Document, plain, mark_status, is_fetchable, fetch_error, permanently_failed, ok,
}
use billcommons.FullText.Notes.{is_terminal-mark_status}
use billcommons.FullText.Budget.{fail_all, fail_all-fetchable}

abbrev tried : ℕ → Document
tried n = record {
  url = some (codes "http://a/b");
  extracted_text = none;
  license_note = none;
  fetch_attempts = n;
  created_at = none;
}

decorated :
    mark_status (record (plain permanently_failed) { browser_attempted_at = some (codes "now") })
    ≡ codes "fulltext_status=permanently_failed browser_attempted_at=now"
unfolding mark_status
decorated = refl

is_terminal-mark_status_example :
    is_terminal (some (mark_status (record (plain ok) { provenance = some (codes "browser") })))
    ≡ false
is_terminal-mark_status_example =
    is_terminal-mark_status (record (plain ok) { provenance = some (codes "browser") })

fail_all-fetchable_example :
    is_fetchable (fail_all ((fetch_error, 1) ∷ (fetch_error, 2) ∷ []) (tried 13)) ≡ false
unfolding has_url
fail_all-fetchable_example =
    fail_all-fetchable (fetch_error, 1) ((fetch_error, 2) ∷ []) (tried 13) refl
