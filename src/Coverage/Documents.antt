-- ===== src/Coverage/Documents.antt =====
-- The counts of workers/ingest/billcommons_ingest/coverage.py: which bills have full text, and for
-- which of them it is obtainable. The status of a document stands in its license note, as fulltext.py
-- writes it.
use billcommons.Base.{
  ℕ, String, Bool, true, false, Option, none, some, List, [], ◌∷◌, ◌++◌, ◌&&◌, ◌||◌, not, any,
  filter, length, ◌==◌, is_some,
}
use billcommons.Base.Text.{Text, codes, text_eq}

pub record Document : Type 0 where
  pub url : Option Text
  pub extracted_text : Option Text
  pub license_note : Option Text

-- A bill with the documents of all its versions.
pub record Bill : Type 0 where
  pub jurisdiction_id : ℕ
  pub session_id : ℕ
  pub documents : List Document

abbrev pub terminal_statuses : List String
terminal_statuses =
    "ok_browser" ∷ "robots_disallowed" ∷ "empty_url" ∷ "scanned_pdf_no_text" ∷ "unsupported_type"
    ∷ "unsupported_redirect_scheme" ∷ "malformed_url" ∷ "permanently_failed" ∷ "no_document_text"
    ∷ "ma_docket_not_found" ∷ []

-- s LIKE p || '%': an underscore of the pattern stands for any character.
unfoldable pub like_prefix : Text → Text → Bool
like_prefix [] s = true
like_prefix (c ∷ p) [] = false
like_prefix (c ∷ p) (d ∷ s) = (c == b'_' || c == d) && like_prefix p s

unfoldable pub note_of : String → Text
note_of status = codes "fulltext_status=" ++ codes status

unfoldable pub license_note_matches_status : Text → List String → Bool
unfolding like_prefix note_of
license_note_matches_status note statuses =
    any (λ s. text_eq (note_of s) note) statuses
    || any (λ s. like_prefix (note_of s ++ (b' ' ∷ [])) note) statuses

abbrev pub has_text : Document → Bool
has_text d = is_some d.extracted_text

unfoldable pub is_terminal : Option Text → Bool
is_terminal none = false
is_terminal (some note) = license_note_matches_status note terminal_statuses

unfoldable pub has_url : Option Text → Bool
has_url none = false
has_url (some []) = false
has_url (some (c ∷ s)) = true

-- Its text is there, or may still be fetched.
unfoldable pub is_obtainable : Document → Bool
unfolding is_terminal has_url
is_obtainable d = has_url d.url && (has_text d || not (is_terminal d.license_note))

unfoldable pub full_text_count : List Bill → ℕ
full_text_count bills = length (filter (λ b. any has_text b.documents) bills)

unfoldable pub full_text_available_count : List Bill → ℕ
full_text_available_count bills = length (filter (λ b. any is_obtainable b.documents) bills)
