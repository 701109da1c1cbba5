-- ===== src/Coverage/Selection/Recheck.antt =====
-- The scheduler and the validation agree: which rows are looked at again, and what becomes of them.
use billcommons.Base.{
  ℕ, ◌<◌, ◌≡◌, refl, sym, subst, Bool, true, false, Option, none, some, List, [], ◌∷◌, ◌++◌, ◌&&◌,
  ◌||◌, not, any, length, ltb, if◌then◌else◌, arith, ◌==◌, is_some,
}
use billcommons.Coverage.Documents.{Bill}
use billcommons.Coverage.Row.{
  validating, green, degraded, JurisdictionCoverage, is_green, counts_for, next_status_for_counts,
  recompute_coverage_row,
}
use billcommons.Coverage.Validation.{
  is_below, meets_bar, promote_measured, promote, judge, apply_to_row,
}
use billcommons.Coverage.Validation.Badge.{apply_to_row-green}
use billcommons.Coverage.Selection.{
  priority, priority_of, is_stale, Tables, Jurisdiction, ValidationCandidate, candidate, of_pair,
  of_row, of_rows, ranked, has_open_job, last_validated,
}

-- The query lists the row with its jurisdiction.
abbrev pub is_listed : Tables → ℕ → JurisdictionCoverage → Jurisdiction → Bool
is_listed db cutoff c j = ltb 0 (length (of_pair db cutoff c j))

listed-candidate :
    (db : Tables) (cutoff : ℕ) (j : Jurisdiction) (c : JurisdictionCoverage) (p : Option ℕ)
    → ltb 0 (length (candidate db cutoff j c p)) ≡ is_some p
listed-candidate db cutoff j c none = refl
listed-candidate db cutoff j c (some p) = refl

badge-priority :
    (rate : ℕ × ℕ) (now cutoff available : ℕ) (last : Option ℕ) (c : JurisdictionCoverage)
    → c.status ≡ green
    → 0 < c.bill_count
    → c.full_text_available_count ≡ some available
    → is_below rate ≡ false
    → is_green (apply_to_row (some rate) now c).status ≡ not (is_some (priority cutoff last c))
unfolding priority priority_of
badge-priority rate now cutoff available last c s b a h =
    ground (arith, apply_to_row-green (some rate) now c, s, a, h)

-- A GREEN row with bills and a known count of obtainable texts, whose jurisdiction has no open validation
-- job, keeps the badge in a validation that passes exactly if the query of the scheduler does not list
-- it, whatever the limit of the batch leaves out.
pub recheck-agrees :
    (rate : ℕ × ℕ) (now cutoff available : ℕ) (db : Tables) (j : Jurisdiction)
    (c : JurisdictionCoverage)
    → c.status ≡ green
    → 0 < c.bill_count
    → c.full_text_available_count ≡ some available
    → is_below rate ≡ false
    → (j.id == c.jurisdiction_id) ≡ true
    → has_open_job j.abbreviation db.jobs ≡ false
    → is_green (apply_to_row (some rate) now c).status ≡ not (is_listed db cutoff c j)
recheck-agrees rate now cutoff available db j c s b a h own idle =
    let last = last_validated j.id db.runs in
    ground (
      arith,
      badge-priority rate now cutoff available last c s b a h,
      listed-candidate db cutoff j c (priority cutoff last c),
      own,
      idle,
      b,
    )

degraded_promoted :
    (available : Option ℕ) (a : ℕ) (c : JurisdictionCoverage)
    → c.status ≡ degraded
    → available ≡ some a
    → (promote available c).status
      ≡ (if a == 0 || meets_bar c.full_text_count a then green else validating)
unfolding promote promote_measured
degraded_promoted none a c s e = ground (arith, e)
degraded_promoted (some b) a c s e = ground (arith, e, s)

abbrev pub is_second : ℕ → ValidationCandidate → Bool
is_second id x = x.jurisdiction_id == id && x.priority == 2

any-append :
    (p : ValidationCandidate → Bool) (xs ys : List ValidationCandidate)
    → any p (xs ++ ys) ≡ (any p xs || any p ys)
any-append p [] ys = refl
any-append p (x ∷ xs) ys = ground (arith, any-append p xs ys)

module _ (db : Tables) (cutoff : ℕ) (p : ValidationCandidate → Bool) where
  any-of_row :
      (c : JurisdictionCoverage) (j : Jurisdiction) (js ks : List Jurisdiction)
      → any p (of_pair db cutoff c j) ≡ true
      → any p (of_row db cutoff c (js ++ j ∷ ks)) ≡ true
  any-of_row c j [] ks h =
      ground (arith, h, any-append p (of_pair db cutoff c j) (of_row db cutoff c ks))
  any-of_row c j (i ∷ js) ks h = ground (
    arith,
    any-of_row c j js ks h,
    any-append p (of_pair db cutoff c i) (of_row db cutoff c (js ++ j ∷ ks)),
  )

  any-of_rows :
      (c : JurisdictionCoverage) (cs ds : List JurisdictionCoverage)
      → any p (of_row db cutoff c db.jurisdictions) ≡ true
      → any p (of_rows db cutoff (cs ++ c ∷ ds)) ≡ true
  any-of_rows c [] ds h =
      ground (arith, h, any-append p (of_row db cutoff c db.jurisdictions) (of_rows db cutoff ds))
  any-of_rows c (b ∷ cs) ds h = ground (
    arith,
    any-of_rows c cs ds h,
    any-append p (of_row db cutoff b db.jurisdictions) (of_rows db cutoff (cs ++ c ∷ ds)),
  )

second-candidate :
    (db : Tables) (cutoff : ℕ) (j : Jurisdiction) (c : JurisdictionCoverage) (p : Option ℕ)
    → p ≡ some 2
    → any (is_second j.id) (candidate db cutoff j c p) ≡ true
second-candidate db cutoff j c none h = ground (arith, h)
second-candidate db cutoff j c (some q) h = ground (arith, h)

-- A row that the query lists with its jurisdiction is ranked.
second_ranked :
    (db : Tables) (cutoff : ℕ) (c : JurisdictionCoverage) (cs ds : List JurisdictionCoverage)
    (j : Jurisdiction) (js ks : List Jurisdiction)
    → db.coverage ≡ cs ++ c ∷ ds
    → db.jurisdictions ≡ js ++ j ∷ ks
    → any (is_second j.id) (of_pair db cutoff c j) ≡ true
    → any (is_second j.id) (ranked db cutoff) ≡ true
unfolding ranked
second_ranked db cutoff c cs ds j js ks rows all h =
    subst (λ l. any (is_second j.id) (of_rows db cutoff l) ≡ true) (sym rows)
      (any-of_rows db cutoff (is_second j.id) c cs ds (
        subst (λ l. any (is_second j.id) (of_row db cutoff c l) ≡ true) (sym all)
          (any-of_row db cutoff (is_second j.id) c j js ks h)))

module _ (bills : List Bill) (counted : ℕ) (c : JurisdictionCoverage) (s : c.status ≡ degraded)
    (b : 0 < (counts_for bills c).0) where
  abbrev row : JurisdictionCoverage
  row = recompute_coverage_row bills counted c

  still : row.status ≡ degraded
  unfolding recompute_coverage_row next_status_for_counts
  still = ground (arith, s)

  second-of_pair :
      (db : Tables) (cutoff : ℕ) (j : Jurisdiction)
      → (j.id == c.jurisdiction_id) ≡ true
      → has_open_job j.abbreviation db.jobs ≡ false
      → is_stale (last_validated j.id db.runs) cutoff ≡ true
      → any (is_second j.id) (of_pair db cutoff row j) ≡ true
  unfolding priority priority_of recompute_coverage_row
  second-of_pair db cutoff j own idle old =
      let p = priority cutoff (last_validated j.id db.runs) row in
      let two : p ≡ some 2 = ground (arith, still, old) in
      ground (arith, second-candidate db cutoff j row p two, own, idle, b)

  row_promoted :
      (rate : ℕ × ℕ) (now : ℕ)
      → is_below rate ≡ false
      → (apply_to_row (some rate) now row).status ≡ (
          if (counts_for bills c).2 == 0 || meets_bar (counts_for bills c).1 (counts_for bills c).2
          then green
          else validating)
  unfolding recompute_coverage_row next_status_for_counts apply_to_row judge
  row_promoted rate now h = ground (
    arith,
    b,
    h,
    degraded_promoted (some (counts_for bills c).2) (counts_for bills c).2
        (record row { validation_pass_rate = some rate; last_attempt_at = some now }) still refl,
  )

-- A DEGRADED row with bills that is recomputed, of a jurisdiction with no open validation job and a last
-- validation not after the cutoff, is in the list of candidates with priority 2, whatever else the tables
-- hold; and a validation of it whose sample passes makes it GREEN or, while text is missing,
-- VALIDATING.
pub degraded-recovers :
    (bills : List Bill) (rate : ℕ × ℕ) (counted now cutoff : ℕ) (db : Tables)
    (c : JurisdictionCoverage) (cs ds : List JurisdictionCoverage) (j : Jurisdiction)
    (js ks : List Jurisdiction)
    → c.status ≡ degraded
    → 0 < (counts_for bills c).0
    → is_below rate ≡ false
    → db.coverage ≡ cs ++ recompute_coverage_row bills counted c ∷ ds
    → db.jurisdictions ≡ js ++ j ∷ ks
    → (j.id == c.jurisdiction_id) ≡ true
    → has_open_job j.abbreviation db.jobs ≡ false
    → is_stale (last_validated j.id db.runs) cutoff ≡ true
    → (any (is_second j.id) (ranked db cutoff) ≡ true)
      × ((apply_to_row (some rate) now (recompute_coverage_row bills counted c)).status ≡ (
          if (counts_for bills c).2 == 0 || meets_bar (counts_for bills c).1 (counts_for bills c).2
          then green
          else validating))
degraded-recovers bills rate counted now cutoff db c cs ds j js ks s b h rows all own idle old = (
  second_ranked db cutoff (recompute_coverage_row bills counted c) cs ds j js ks rows all
      (second-of_pair bills counted c s b db cutoff j own idle old),
  row_promoted bills counted c s b rate now h,
)
