-- ===== src/Health/Examples.antt =====
-- A crawl that is over, and one that a decorated license note keeps from being over.
use billcommons.Base.{String, ◌*◌, ◌≡◌, refl, true, false, none, some, List, [], ◌∷◌}
use billcommons.Base.Text.{codes}
use billcommons.Coverage.Documents.{
  note_of, has_url, is_terminal, license_note_matches_status, like_prefix,
}
use billcommons.Queue.Jobs.{count_queued, count_claimable}
use billcommons.Health.{
  Document, check_crawl_health, assess, last_text_at, texted_since, backlog_remains, is_unmarked,
  minute,
}
use billcommons.Health.Stall.{check_crawl_health-healthy}

abbrev failed : String → Document
failed note = record {
  url = some (codes "http://a/b");
  extracted_text = none;
  license_note = some (codes note);
  updated_at = 0;
}

abbrev plain : List Document
plain = failed "fulltext_status=permanently_failed" ∷ []

-- The note as fulltext.py leaves it after an attempt with the browser
abbrev decorated : List Document
decorated = failed "fulltext_status=permanently_failed browser_attempted_at=1" ∷ []

over : (check_crawl_health 30 (60 * minute) plain []).healthy ≡ true
unfolding check_crawl_health assess last_text_at texted_since backlog_remains is_unmarked
    count_queued count_claimable note_of has_url
over = refl

alarm : (check_crawl_health 30 (60 * minute) decorated []).healthy ≡ false
unfolding check_crawl_health assess last_text_at texted_since backlog_remains is_unmarked
    count_queued count_claimable note_of has_url
alarm = refl

-- The coverage counts the same note as terminal.
terminal :
    is_terminal (some (codes "fulltext_status=permanently_failed browser_attempted_at=1")) ≡ true
unfolding is_terminal license_note_matches_status like_prefix note_of
terminal = refl

check_crawl_health-healthy_example : (check_crawl_health 30 (60 * minute) plain []).healthy ≡ true
unfolding check_crawl_health assess last_text_at texted_since backlog_remains is_unmarked
    count_queued count_claimable note_of has_url
check_crawl_health-healthy_example = check_crawl_health-healthy 30 (60 * minute) plain []
