-- ===== src/Coverage/Selection/Fairness.antt =====
-- No jurisdiction starves: those that a plan leaves out come after those that it takes.
use billcommons.Base.{
  all-append, ℕ, ◌+◌, ◌*◌, ◌-◌, ◌≡◌, refl, ◌∙◌, ap, Bool, true, false, Option, none, some, List, [],
  ◌∷◌, ◌++◌, ◌&&◌, ◌||◌, any, all, take, drop, take-append-drop, if◌then◌else◌, arith, Bool-cases,
  inl, inr, ◌==◌, leb,
}
use billcommons.Base.Text.{Text, text_eq→eq}
use billcommons.Base.Sorting.{
  sort_by, all-sort_by, any-sort_by, sort_by-IsOrdered, taken_first, all-drop, text_le,
  text_le-total, text_le_trans,
}
use billcommons.Coverage.Selection.{
  ValidationCandidate, Tables, turn, or_min, is_before, key_le, collapse, ranked, plan_validation,
  hour,
}
use billcommons.Coverage.Selection.Covers.{covers, collapse-covers, is_chosen, covers-is_chosen}
use billcommons.Coverage.Selection.Once.{all-take, all-collapse}

is_before-total : (a b : ValidationCandidate) → is_before a b ≡ false → is_before b a ≡ true
is_before-total a b h = ground (arith, h, text_le-total a.jurisdiction_abbr b.jurisdiction_abbr)

is_before_trans :
    (a b c : ValidationCandidate)
    → is_before a b ≡ true
    → is_before b c ≡ true
    → is_before a c ≡ true
is_before_trans a b c h k =
    ground (arith, h, k, text_le_trans a.jurisdiction_abbr b.jurisdiction_abbr c.jurisdiction_abbr)

key_le-total : (a b : ValidationCandidate) → key_le a b ≡ false → key_le b a ≡ true
key_le-total a b h = ground (arith, h, text_le-total a.jurisdiction_abbr b.jurisdiction_abbr)

key_le_trans :
    (a b c : ValidationCandidate) → key_le a b ≡ true → key_le b c ≡ true → key_le a c ≡ true
key_le_trans a b c h k =
    ground (arith, h, k, text_le_trans a.jurisdiction_abbr b.jurisdiction_abbr c.jurisdiction_abbr)

abbrev agrees : ℕ → Option ℕ → Bool
agrees u none = u == 0
agrees u (some t) = u == t && leb 1 t

-- The last validation is that of the jurisdiction, and no validation ended at datetime.min.
abbrev pub is_dated : (Text → ℕ) → ValidationCandidate → Bool
is_dated validated c = agrees (validated c.jurisdiction_abbr) c.last_validated_at

or_min-agrees : (u : ℕ) (l : Option ℕ) → agrees u l ≡ true → or_min l ≡ u
or_min-agrees u none h = ground (arith, h)
or_min-agrees u (some t) h = ground (arith, h)

turn-agrees : (u : ℕ) (l : Option ℕ) → agrees u l ≡ true → turn l ≡ (if u == 0 then 0 else u + 1)
turn-agrees u none h = ground (arith, h)
turn-agrees u (some t) h = ground (arith, h)

module _ (validated : Text → ℕ) (c : ValidationCandidate)
    (dated : is_dated validated c ≡ true) where
  before_covered :
      (e r : ValidationCandidate)
      → is_dated validated e ≡ true
      → is_dated validated r ≡ true
      → key_le c e ≡ true
      → covers r e ≡ true
      → is_before c r ≡ true
  before_covered e r de dr le cov =
      let same = text_eq→eq e.jurisdiction_abbr r.jurisdiction_abbr (ground (arith, cov)) in
      ground (
        arith,
        le,
        cov,
        ap validated same,
        ap (text_le c.jurisdiction_abbr) same,
        or_min-agrees (validated c.jurisdiction_abbr) c.last_validated_at dated,
        or_min-agrees (validated e.jurisdiction_abbr) e.last_validated_at de,
        turn-agrees (validated c.jurisdiction_abbr) c.last_validated_at dated,
        turn-agrees (validated r.jurisdiction_abbr) r.last_validated_at dr,
      )

  before_rest :
      (r : ValidationCandidate) (rest : List ValidationCandidate)
      → is_dated validated r ≡ true
      → all (is_dated validated) rest ≡ true
      → all (key_le c) rest ≡ true
      → any (covers r) rest ≡ true
      → is_before c r ≡ true
  before_rest r [] dr ds le cov = ground (arith, cov)
  before_rest r (e ∷ rest) dr ds le cov = elim (Bool-cases (covers r e)) [
    | inl here ↦ before_covered e r (ground (arith, ds)) dr (ground (arith, le)) here
    | inr there ↦
        before_rest r rest dr (ground (arith, ds)) (ground (arith, le)) (ground (arith, cov, there))
  ]

any-append :
    (p : ValidationCandidate → Bool) (cs ds : List ValidationCandidate)
    → any p (cs ++ ds) ≡ (any p cs || any p ds)
any-append p [] ds = refl
any-append p (c ∷ cs) ds = ground (arith, any-append p cs ds)

module _ (validated : Text → ℕ) (plan rest : List ValidationCandidate)
    (ds : all (is_dated validated) rest ≡ true) where
  -- A row that the collapsed rows cover is chosen, or comes after the candidate.
  abbrev is_fair : ValidationCandidate → ValidationCandidate → Bool
  is_fair c r = is_chosen plan r || is_before c r

  fair_covered :
      (c : ValidationCandidate) (rows : List ValidationCandidate)
      → is_dated validated c ≡ true
      → all (key_le c) rest ≡ true
      → all (is_dated validated) rows ≡ true
      → all (λ r. any (covers r) (plan ++ rest)) rows ≡ true
      → all (is_fair c) rows ≡ true
  fair_covered c [] dc le dr cov = refl
  fair_covered c (r ∷ rows) dc le dr cov = ground (
    arith,
    any-append (covers r) plan rest,
    cov,
    dr,
    covers-is_chosen r plan,
    before_rest validated c dc r rest (ground (arith, dr)) ds le,
    fair_covered c rows dc le,
  )

  fair_after :
      (c : ValidationCandidate) (rows : List ValidationCandidate)
      → all (is_before c) rows ≡ true
      → all (is_fair c) rows ≡ true
  fair_after c [] h = refl
  fair_after c (r ∷ rows) h = ground (arith, h, fair_after c rows)

  fair_each :
      (cs rows out : List ValidationCandidate)
      → all (is_dated validated) cs ≡ true
      → all (λ c. all (key_le c) rest) cs ≡ true
      → all (is_dated validated) rows ≡ true
      → all (λ r. any (covers r) (plan ++ rest)) rows ≡ true
      → all (λ c. all (is_before c) out) cs ≡ true
      → all (λ c. all (is_fair c) (rows ++ out)) cs ≡ true
  fair_each [] rows out dc le dr cov h = refl
  fair_each (c ∷ cs) rows out dc le dr cov h = ground (
    arith,
    all-append (is_fair c) rows out
        (fair_covered c rows (ground (arith, dc)) (ground (arith, le)) dr cov)
        (fair_after c out (ground (arith, h))),
    fair_each cs rows out (ground (arith, dc)) (ground (arith, le)) dr cov (ground (arith, h)),
  )

all_unsorted :
    (p : ValidationCandidate → ValidationCandidate → Bool) (n : ℕ)
    (cs rows : List ValidationCandidate)
    → all (λ c. all (p c) (take n (sort_by is_before rows) ++ drop n (sort_by is_before rows))) cs
      ≡ true
    → all (λ c. all (p c) rows) cs ≡ true
all_unsorted p n [] rows h = refl
all_unsorted p n (c ∷ cs) rows h = ground (
  arith,
  h,
  ap (all (p c)) (take-append-drop n (sort_by is_before rows)),
  all-sort_by is_before (p c) rows,
  all_unsorted p n cs rows,
)

covered_sorted :
    (batch : ℕ) (rows kept : List ValidationCandidate)
    → all (λ r. any (covers r) kept) rows ≡ true
    → all
        (λ r. any (covers r) (take batch (sort_by key_le kept) ++ drop batch (sort_by key_le kept)))
        rows
      ≡ true
covered_sorted batch [] kept h = refl
covered_sorted batch (r ∷ rows) kept h = ground (
  arith,
  h,
  ap (any (covers r)) (take-append-drop batch (sort_by key_le kept)),
  any-sort_by key_le (covers r) kept,
  covered_sorted batch rows kept,
)

-- Each candidate of a plan comes before every row of a jurisdiction that the plan leaves out: by the
-- priority, then by the time of the last validation, never counting as the earliest, then by the
-- abbreviation. The rows of a jurisdiction share the time of its last validation, and none ended at
-- datetime.min.
pub plan_validation-fair :
    (validated : Text → ℕ) (batch age now : ℕ) (db : Tables)
    → all (is_dated validated) (ranked db (now - age * hour)) ≡ true
    → all
        (λ c.
          all
            (λ r. is_chosen (plan_validation batch age now db) r || is_before c r)
            (ranked db (now - age * hour)))
        (plan_validation batch age now db)
      ≡ true
unfolding plan_validation
plan_validation-fair validated batch age now db dated =
    let found = ranked db (now - age * hour) in
    let sorted = sort_by is_before found in
    let n = batch * 4 + 10 in
    let rows = take n sorted in
    let kept = collapse [] rows in
    let ordered = sort_by key_le kept in
    let dated_sorted : all (is_dated validated) sorted ≡ true =
      all-sort_by is_before (is_dated validated) found ∙ dated in
    let dated_rows = all-take (is_dated validated) n sorted dated_sorted in
    let keep = λ (p : ValidationCandidate → Bool) (h : all p rows ≡ true).
      all-sort_by key_le p kept ∙ all-collapse p [] rows refl h in
    all_unsorted
      (is_fair validated (take batch ordered) (drop batch ordered)
        (all-drop (is_dated validated) batch ordered (keep (is_dated validated) dated_rows)))
      n (take batch ordered) found
      (fair_each validated (take batch ordered) (drop batch ordered)
        (all-drop (is_dated validated) batch ordered (keep (is_dated validated) dated_rows))
        (take batch ordered) rows (drop n sorted)
        (all-take (is_dated validated) batch ordered (keep (is_dated validated) dated_rows))
        (taken_first key_le batch ordered (sort_by-IsOrdered key_le key_le-total key_le_trans kept))
        dated_rows (covered_sorted batch rows kept (collapse-covers [] rows))
        (all-take (λ c. all (is_before c) (drop n sorted)) batch ordered
          (keep (λ c. all (is_before c) (drop n sorted))
            (taken_first is_before n sorted
              (sort_by-IsOrdered is_before is_before-total is_before_trans found)))))
