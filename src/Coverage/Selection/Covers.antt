-- ===== src/Coverage/Selection/Covers.antt =====
-- What the collapse of `plan_validation` keeps: for each row a candidate that stands for it.
use billcommons.Base.{◌≡◌, refl, ap, subst, Bool, true, List, [], ◌∷◌, ◌&&◌, any, all, arith, leb}
use billcommons.Base.Text.{Text, text_eq, text_eq→eq, text_eq_refl}
use billcommons.Coverage.Selection.{ValidationCandidate, keep_best, collapse, abbreviations}

-- The candidate stands for the row: it is of the same jurisdiction and of no worse priority.
abbrev pub covers : ValidationCandidate → ValidationCandidate → Bool
covers r e = text_eq e.jurisdiction_abbr r.jurisdiction_abbr && leb e.priority r.priority

text_eq-same : (s t u : Text) → text_eq s t ≡ true → text_eq s u ≡ text_eq t u
text_eq-same s t u h = ap (λ x. text_eq x u) (text_eq→eq s t h)

keep_best-keeps :
    (r c : ValidationCandidate) (seen : List ValidationCandidate)
    → any (covers r) seen ≡ true
    → any (covers r) (keep_best c seen) ≡ true
unfolding keep_best
keep_best-keeps r c [] h = ground (arith, h)
keep_best-keeps r c (e ∷ seen) h = ground (
  arith,
  h,
  text_eq-same e.jurisdiction_abbr c.jurisdiction_abbr r.jurisdiction_abbr,
  keep_best-keeps r c seen,
)

keep_best-new :
    (c : ValidationCandidate) (seen : List ValidationCandidate)
    → any (covers c) (keep_best c seen) ≡ true
unfolding keep_best
keep_best-new c [] = ground (arith, text_eq_refl c.jurisdiction_abbr)
keep_best-new c (e ∷ seen) = ground (arith, text_eq_refl c.jurisdiction_abbr, keep_best-new c seen)

collapse-keeps :
    (r : ValidationCandidate) (seen rows : List ValidationCandidate)
    → any (covers r) seen ≡ true
    → any (covers r) (collapse seen rows) ≡ true
unfolding collapse
collapse-keeps r seen [] h = h
collapse-keeps r seen (c ∷ rows) h =
    collapse-keeps r (keep_best c seen) rows (keep_best-keeps r c seen h)

pub collapse-covers :
    (seen rows : List ValidationCandidate)
    → all (λ r. any (covers r) (collapse seen rows)) rows ≡ true
unfolding collapse
collapse-covers seen [] = refl
collapse-covers seen (c ∷ rows) = ground (
  arith,
  collapse-keeps c (keep_best c seen) rows (keep_best-new c seen),
  collapse-covers (keep_best c seen) rows,
)

abbrev pub is_chosen : List ValidationCandidate → ValidationCandidate → Bool
is_chosen plan r = any (text_eq r.jurisdiction_abbr) (abbreviations plan)

text_eq-sym : (s t : Text) → text_eq s t ≡ true → text_eq t s ≡ true
text_eq-sym s t h = subst (λ u. text_eq u s ≡ true) (text_eq→eq s t h) (text_eq_refl s)

pub covers-is_chosen :
    (r : ValidationCandidate) (plan : List ValidationCandidate)
    → any (covers r) plan ≡ true
    → is_chosen plan r ≡ true
covers-is_chosen r [] h = h
covers-is_chosen r (e ∷ plan) h =
    ground (arith, h, covers-is_chosen r plan, text_eq-sym e.jurisdiction_abbr r.jurisdiction_abbr)
