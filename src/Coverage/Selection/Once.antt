-- ===== src/Coverage/Selection/Once.antt =====
-- A jurisdiction that a pass enqueues is left alone by the next passes, as long as its job is open.
use billcommons.Base.{
  all-append, ℕ, ◌+◌, ◌*◌, ◌-◌, ◌≡◌, refl, ◌∙◌, Bool, true, false, Option, none, some, List, [],
  ◌∷◌, ◌||◌, not, all, take, zero, suc, arith, Bool-cases, inl, inr,
}
use billcommons.Base.Dict
use billcommons.Base.Text.{Text, is_absent, absent_of, text_eq, text_eq_refl}
use billcommons.Base.Sorting.{sort_by, all-sort_by}
use billcommons.Queue.Jobs.{Job, enqueue}
use billcommons.Coverage.Row.{JurisdictionCoverage}
use billcommons.Coverage.Selection.{
  ValidationCandidate, Jurisdiction, Tables, has_open_job, is_before, key_le, keep_best, collapse,
  candidate, of_pair, of_row, of_rows, priority, last_validated, ranked, plan_validation,
  validate_payload, enqueue_each, abbreviations, hour, enqueue_validation_jobs,
}

-- A property of every row that the query returns is one of every candidate of the plan.
all-keep_best :
    (p : ValidationCandidate → Bool) (c : ValidationCandidate) (seen : List ValidationCandidate)
    → p c ≡ true
    → all p seen ≡ true
    → all p (keep_best c seen) ≡ true
unfolding keep_best
all-keep_best p c [] h k = ground (arith, h)
all-keep_best p c (e ∷ seen) h k = ground (arith, h, k, all-keep_best p c seen)

pub all-collapse :
    (p : ValidationCandidate → Bool) (seen rows : List ValidationCandidate)
    → all p seen ≡ true
    → all p rows ≡ true
    → all p (collapse seen rows) ≡ true
unfolding collapse
all-collapse p seen [] h k = h
all-collapse p seen (c ∷ rows) h k =
    all-collapse p (keep_best c seen) rows (all-keep_best p c seen (ground (arith, k)) h)
      (ground (arith, k))

pub all-take :
    (p : ValidationCandidate → Bool) (n : ℕ) (cs : List ValidationCandidate)
    → all p cs ≡ true
    → all p (take n cs) ≡ true
all-take p zero cs h = refl
all-take p (suc n) [] h = refl
all-take p (suc n) (c ∷ cs) h = ground (arith, h, all-take p n cs)

pub all-plan_validation :
    (p : ValidationCandidate → Bool) (batch age now : ℕ) (db : Tables)
    → all p (ranked db (now - age * hour)) ≡ true
    → all p (plan_validation batch age now db) ≡ true
unfolding plan_validation
all-plan_validation p batch age now db h =
    let rows = sort_by is_before (ranked db (now - age * hour)) in
    all-take p batch _ (
      all-sort_by key_le p (collapse [] (take (batch * 4 + 10) rows))
      ∙ all-collapse p [] (take (batch * 4 + 10) rows) refl
          (all-take p (batch * 4 + 10) rows (all-sort_by is_before p _ ∙ h)))

abbrev is_free_in : List Job → ValidationCandidate → Bool
is_free_in jobs c = not (has_open_job c.jurisdiction_abbr jobs)

module _ (db : Tables) (cutoff : ℕ) where
  free_candidate :
      (j : Jurisdiction) (c : JurisdictionCoverage) (p : Option ℕ)
      → has_open_job j.abbreviation db.jobs ≡ false
      → all (is_free_in db.jobs) (candidate db cutoff j c p) ≡ true
  free_candidate j c none h = refl
  free_candidate j c (some n) h = ground (arith, h)

  free_pair :
      (c : JurisdictionCoverage) (j : Jurisdiction)
      → all (is_free_in db.jobs) (of_pair db cutoff c j) ≡ true
  free_pair c j = elim (Bool-cases (has_open_job j.abbreviation db.jobs)) [
    | inl busy ↦ ground (arith, busy)
    | inr free ↦
        ground (arith, free_candidate j c (priority cutoff (last_validated j.id db.runs) c) free)
  ]

  free_row :
      (c : JurisdictionCoverage) (js : List Jurisdiction)
      → all (is_free_in db.jobs) (of_row db cutoff c js) ≡ true
  free_row c [] = refl
  free_row c (j ∷ js) = all-append (is_free_in db.jobs) _ _ (free_pair c j) (free_row c js)

  free_rows :
      (cs : List JurisdictionCoverage) → all (is_free_in db.jobs) (of_rows db cutoff cs) ≡ true
  free_rows [] = refl
  free_rows (c ∷ cs) =
      all-append (is_free_in db.jobs) _ _ (free_row c db.jurisdictions) (free_rows cs)

  free_ranked : all (is_free_in db.jobs) (ranked db cutoff) ≡ true
  unfolding ranked
  free_ranked = free_rows db.coverage

any-enqueue :
    (abbr : Text) (id : ℕ) (now : ℕ) (sample : Option ℕ) (c : ValidationCandidate) (jobs : List Job)
    → has_open_job abbr
        (enqueue id "validate" (validate_payload c.jurisdiction_abbr sample) none now jobs)
      ≡ (has_open_job abbr jobs || text_eq abbr c.jurisdiction_abbr)
unfolding has_open_job enqueue Dict.get
any-enqueue abbr id now none c [] = ground arith
any-enqueue abbr id now (some n) c [] = ground arith
any-enqueue abbr id now sample c (j ∷ jobs) = ground (arith, any-enqueue abbr id now sample c jobs)

open_kept :
    (abbr : Text) (id now : ℕ) (sample : Option ℕ) (cs : List ValidationCandidate) (jobs : List Job)
    → has_open_job abbr jobs ≡ true
    → has_open_job abbr (enqueue_each id now sample cs jobs) ≡ true
unfolding enqueue_each
open_kept abbr id now sample [] jobs h = h
open_kept abbr id now sample (c ∷ cs) jobs h =
    open_kept abbr (id + 1) now sample cs _
      (ground (arith, h, any-enqueue abbr id now sample c jobs))

opened :
    (id now : ℕ) (sample : Option ℕ) (cs : List ValidationCandidate) (jobs : List Job)
    → all (λ a. has_open_job a (enqueue_each id now sample cs jobs)) (abbreviations cs) ≡ true
unfolding enqueue_each
opened id now sample [] jobs = refl
opened id now sample (c ∷ cs) jobs = ground (
  arith,
  open_kept c.jurisdiction_abbr (id + 1) now sample cs
      (enqueue id "validate" (validate_payload c.jurisdiction_abbr sample) none now jobs)
      (any-enqueue c.jurisdiction_abbr id now sample c jobs
        ∙ ground (arith, text_eq_refl c.jurisdiction_abbr)),
  opened (id + 1) now sample cs
      (enqueue id "validate" (validate_payload c.jurisdiction_abbr sample) none now jobs),
)

free_of :
    (jobs : List Job) (cs : List ValidationCandidate)
    → all (is_free_in jobs) cs ≡ true
    → all (λ a. not (has_open_job a jobs)) (abbreviations cs) ≡ true
free_of jobs [] h = refl
free_of jobs (c ∷ cs) h = ground (arith, h, free_of jobs cs)

all_absent :
    (jobs : List Job) (abbrs texts : List Text)
    → all (λ a. has_open_job a jobs) abbrs ≡ true
    → all (λ a. not (has_open_job a jobs)) texts ≡ true
    → all (is_absent texts) abbrs ≡ true
all_absent jobs [] texts h k = refl
all_absent jobs (a ∷ abbrs) texts h k = ground (
  arith,
  h,
  absent_of (λ b. not (has_open_job b jobs)) a texts (ground (arith, h)) k,
  all_absent jobs abbrs texts (ground (arith, h)) k,
)

-- No jurisdiction that a pass enqueues is enqueued by a pass over the jobs that it leaves, whatever
-- has become of the coverage rows and the runs.
pub enqueue_validation_jobs-once :
    (batch age : ℕ) (sample : Option ℕ) (id now : ℕ) (db : Tables) (batch' age' : ℕ)
    (sample' : Option ℕ) (id' now' : ℕ) (db' : Tables)
    → all
        (is_absent
          (enqueue_validation_jobs true batch' age' sample' id' now' (record db' {
            jobs = (enqueue_validation_jobs true batch age sample id now db).0.jobs;
          })).1)
        (enqueue_validation_jobs true batch age sample id now db).1
      ≡ true
unfolding enqueue_validation_jobs
enqueue_validation_jobs-once batch age sample id now db batch' age' sample' id' now' db' =
    let plan = plan_validation batch age now db in
    let after = enqueue_each id now sample plan db.jobs in
    let next : Tables = record db' { jobs = after } in
    all_absent after (abbreviations plan) (abbreviations (plan_validation batch' age' now' next))
      (opened id now sample plan db.jobs)
      (free_of after (plan_validation batch' age' now' next) (
        all-plan_validation (is_free_in after) batch' age' now' next
          (free_ranked next (now' - age' * hour))))
