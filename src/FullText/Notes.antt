-- ===== src/FullText/Notes.antt =====
-- The note is read as it was written: exactly the terminal outcomes are terminal to the queries.
use billcommons.Base.{
  ℕ, ◌≡◌, refl, subst, Bool, true, false, not, Option, none, some, [], ◌∷◌, ◌++◌, ◌&&◌, ◌||◌, ◌==◌,
  if◌then◌else◌, if_induction, arith,
}
use billcommons.Base.Text.{Text, codes}
use billcommons.Coverage.Documents.{is_terminal, license_note_matches_status, like_prefix, note_of}
use billcommons.FullText.{
  Status, Outcome, is_terminal_status, is_success, is_permanently_failed, is_fetch_error,
  mark_status, suffix, name_of, ok, ok_browser, ok_partial_pdf, robots_disallowed,
  scanned_pdf_no_text, fetch_error, unsupported_type, empty_url, unsupported_redirect_scheme,
  too_many_redirects, malformed_url, permanently_failed, no_document_text, ma_docket_no_bill_number,
  ma_docket_not_found, worker_error,
}

-- What stands behind the status: nothing, or a blank and a key. The pattern for ok_browser would match a key
-- that begins with "browser" behind ok, since its underscore stands for any character.
abbrev is_key : Status → ℕ → Bool
is_key s d = not (d == b'b') || is_permanently_failed s

abbrev is_tail : Status → Text → Bool
is_tail s [] = true
is_tail s (c ∷ []) = false
is_tail s (c ∷ d ∷ t) = c == b' ' && is_key s d

abbrev noted : Status → Text → Text
noted s tail = codes "fulltext_status=" ++ (codes (name_of s) ++ tail)

bare_note : (s : Status) → is_terminal (some (noted s [])) ≡ is_terminal_status s
unfolding is_terminal license_note_matches_status like_prefix note_of
bare_note ok = refl
bare_note ok_browser = refl
bare_note ok_partial_pdf = refl
bare_note robots_disallowed = refl
bare_note scanned_pdf_no_text = refl
bare_note fetch_error = refl
bare_note unsupported_type = refl
bare_note empty_url = refl
bare_note unsupported_redirect_scheme = refl
bare_note too_many_redirects = refl
bare_note malformed_url = refl
bare_note permanently_failed = refl
bare_note no_document_text = refl
bare_note ma_docket_no_bill_number = refl
bare_note ma_docket_not_found = refl
bare_note worker_error = refl

decorated_note :
    (s : Status) (d : ℕ) (t : Text)
    → is_key s d ≡ true
    → is_terminal (some (noted s (b' ' ∷ d ∷ t))) ≡ is_terminal_status s
unfolding is_terminal license_note_matches_status like_prefix note_of
decorated_note ok d t h = ground (arith, h)
decorated_note ok_browser d t h = refl
decorated_note ok_partial_pdf d t h = refl
decorated_note robots_disallowed d t h = refl
decorated_note scanned_pdf_no_text d t h = refl
decorated_note fetch_error d t h = refl
decorated_note unsupported_type d t h = refl
decorated_note empty_url d t h = refl
decorated_note unsupported_redirect_scheme d t h = refl
decorated_note too_many_redirects d t h = refl
decorated_note malformed_url d t h = refl
decorated_note permanently_failed d t h = refl
decorated_note no_document_text d t h = refl
decorated_note ma_docket_no_bill_number d t h = refl
decorated_note ma_docket_not_found d t h = refl
decorated_note worker_error d t h = refl

blank : (s : Status) (c d : ℕ) (t : Text) → is_tail s (c ∷ d ∷ t) ≡ true → b' ' ≡ c
blank s c d t h = ground (arith, h)

key : (s : Status) (c d : ℕ) (t : Text) → is_tail s (c ∷ d ∷ t) ≡ true → is_key s d ≡ true
key s c d t h = ground (arith, h)

noted-tail :
    (s : Status) (tail : Text)
    → is_tail s tail ≡ true
    → is_terminal (some (noted s tail)) ≡ is_terminal_status s
noted-tail s [] h = bare_note s
noted-tail s (c ∷ []) h = ground (arith, h)
noted-tail s (c ∷ d ∷ t) h =
    subst (λ k. is_terminal (some (noted s (k ∷ d ∷ t))) ≡ is_terminal_status s) (blank s c d t h)
      (decorated_note s d t (key s c d t h))

tail-append :
    (s : Status) (x y : Text) → is_tail s x ≡ true → is_tail s y ≡ true → is_tail s (x ++ y) ≡ true
tail-append s [] y h k = k
tail-append s (c ∷ []) y h k = ground (arith, h)
tail-append s (c ∷ d ∷ x) y h k = h

tail_robots :
    (s : Status) (e : Bool) → is_tail s (if e then codes " robots=api_token_exempt" else []) ≡ true
tail_robots s true = refl
tail_robots s false = refl

tail_resolver :
    (s : Status) (b : Bool) (o : Option Text) → is_tail s (suffix b "url_resolver" o) ≡ true
tail_resolver s b none = refl
tail_resolver s b (some []) = refl
tail_resolver s true (some (c ∷ t)) = refl
tail_resolver s false (some (c ∷ t)) = refl

tail_via : (s : Status) (b : Bool) (o : Option Text) → is_tail s (suffix b "via" o) ≡ true
tail_via s b none = refl
tail_via s b (some []) = refl
tail_via s true (some (c ∷ t)) = refl
tail_via s false (some (c ∷ t)) = refl

tail_detail :
    (s : Status) (b : Bool) (o : Option Text) → is_tail s (suffix b "fetch_detail" o) ≡ true
tail_detail s b none = refl
tail_detail s b (some []) = refl
tail_detail s true (some (c ∷ t)) = refl
tail_detail s false (some (c ∷ t)) = refl

tail_browser :
    (s : Status) (o : Option Text)
    → is_tail s (suffix (is_permanently_failed s) "browser_attempted_at" o) ≡ true
tail_browser s none = refl
tail_browser s (some []) = refl
tail_browser s (some (c ∷ t)) =
    if_induction (λ x. is_tail s x ≡ true) (is_permanently_failed s) (λ h. h) λ _. refl

-- Whatever decorates it, the note of an outcome is recognised as terminal exactly if the status of the
-- outcome is.
pub is_terminal-mark_status :
    (o : Outcome) → is_terminal (some (mark_status o)) ≡ is_terminal_status o.status
unfolding mark_status
is_terminal-mark_status o =
    let s = o.status in
    let robots : Text =
      if o.robots_exempt && not (is_terminal_status s)
      then codes " robots=api_token_exempt"
      else [] in
    let resolver = suffix (is_success s) "url_resolver" o.resolver in
    let via = suffix (is_success s) "via" o.provenance in
    let browser = suffix (is_permanently_failed s) "browser_attempted_at" o.browser_attempted_at in
    let detail = suffix (is_fetch_error s) "fetch_detail" o.fetch_detail in
    let k1 =
      tail-append s browser detail (tail_browser s o.browser_attempted_at)
        (tail_detail s (is_fetch_error s) o.fetch_detail) in
    let k2 = tail-append s via (browser ++ detail) (tail_via s (is_success s) o.provenance) k1 in
    let k3 =
      tail-append s resolver (via ++ (browser ++ detail))
        (tail_resolver s (is_success s) o.resolver) k2 in
    noted-tail s (robots ++ (resolver ++ (via ++ (browser ++ detail)))) (
      tail-append s robots (resolver ++ (via ++ (browser ++ detail)))
        (tail_robots s (o.robots_exempt && not (is_terminal_status s))) k3)
