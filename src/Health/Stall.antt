-- ===== src/Health/Stall.antt =====
-- When the crawl is reported as stalled.
use billcommons.Base.{
  ℕ, ◌+◌, ◌*◌, ◌≡◌, refl, ◌∙◌, ap, Bool, Option, none, some, List, [], ◌∷◌, ◌&&◌, ◌||◌, not, all,
  ◌==◌, ltb, leb, arith,
}
use billcommons.Queue.Jobs.{Job, JobStatus, count_queued, count_claimable}
use billcommons.Health.{
  Document, has_text, latest, last_text_at, is_quiet, backlog_remains, assess, check_crawl_health,
  minute, texted_since,
}

-- The document has no text, or was last updated at least the given minutes ago.
abbrev pub is_old : ℕ → ℕ → Document → Bool
is_old stall now d = not (has_text d) || leb (d.updated_at + stall * minute) now

quiet_latest :
    (stall now t : ℕ) (o : Option ℕ)
    → is_quiet stall now (latest t o) ≡ (leb (t + stall * minute) now && is_quiet stall now o)
quiet_latest stall now t none = ground arith
quiet_latest stall now t (some u) = ground arith

quiet_last :
    (stall now : ℕ) (ds : List Document)
    → is_quiet stall now (last_text_at ds) ≡ all (is_old stall now) ds
unfolding last_text_at
quiet_last stall now [] = refl
quiet_last stall now (d ∷ ds) =
    ground (arith, quiet_last stall now ds, quiet_latest stall now d.updated_at (last_text_at ds))

assess-healthy :
    (stall now claimable queued texted : ℕ) (backlog : Bool) (last : Option ℕ)
    → (assess stall now claimable queued texted backlog last).0
      ≡ not (is_quiet stall now last && ((queued == 0 && backlog) || ltb 0 claimable))
unfolding assess
assess-healthy stall now claimable queued texted backlog none = ground arith
assess-healthy stall now claimable queued texted backlog (some t) = ground arith

-- The crawl is reported as stalled if and only if no document with text was updated within the given
-- minutes, and a fetch_text job may be claimed now, or no such job is queued while a document with a URL
-- and without text has no note or a note that is not literally a terminal one.
pub check_crawl_health-healthy :
    (stall now : ℕ) (ds : List Document) (jobs : List Job)
    → (check_crawl_health stall now ds jobs).healthy
      ≡ not (
          all (is_old stall now) ds
          && ((count_queued "fetch_text" JobStatus.queued jobs == 0 && backlog_remains ds)
              || ltb 0 (count_claimable "fetch_text" now jobs)))
unfolding check_crawl_health
check_crawl_health-healthy stall now ds jobs =
    let claimable = count_claimable "fetch_text" now jobs in
    let queued = count_queued "fetch_text" JobStatus.queued jobs in
    assess-healthy stall now claimable queued (texted_since now ds) (backlog_remains ds)
      (last_text_at ds)
    ∙ ap (λ q. not (q && ((queued == 0 && backlog_remains ds) || ltb 0 claimable)))
        (quiet_last stall now ds)
