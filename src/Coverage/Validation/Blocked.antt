-- ===== src/Coverage/Validation/Blocked.antt =====
-- What nobody but an operator changes, through every sequence of the passes that write the rows.
use billcommons.Base.{
  ℕ, ◌≡◌, refl, sym, ◌∙◌, Bool, false, Option, none, some, List, [], ◌∷◌, map, if◌then◌else◌,
  if_induction, arith,
}
use billcommons.Coverage.Documents.{Bill}
use billcommons.Coverage.Row.{
  CoverageStatus, bootstrapped, metadata_searchable, full_text_searchable, validating, green,
  degraded, by_status, JurisdictionCoverage, is_blocked, counts_for, lift, is_not_advanced,
  next_status_for_counts, recompute_coverage_row, recompute_all_coverage,
}
use billcommons.Coverage.Validation.{
  BillValidationResult, pass_rate, promote_measured, promote, judge, apply_to_row,
  apply_validation_result, unless_blocked, is_early, is_recoverable,
}

blocked_unless_blocked :
    (to s : CoverageStatus)
    → is_blocked to ≡ false
    → is_blocked (unless_blocked to s) ≡ is_blocked s
blocked_unless_blocked to s h = ground (arith, h)

blocked_if_early :
    (s : CoverageStatus) → is_blocked (if is_early s then validating else s) ≡ is_blocked s
blocked_if_early = by_status _ refl refl refl refl refl refl refl refl refl

blocked_if_recoverable :
    (s : CoverageStatus) → is_blocked (if is_recoverable s then validating else s) ≡ is_blocked s
blocked_if_recoverable = by_status _ refl refl refl refl refl refl refl refl refl

blocked_lift :
    (n : ℕ) (to s : CoverageStatus)
    → is_blocked to ≡ false
    → is_blocked s ≡ false
    → is_blocked (lift n to s) ≡ false
blocked_lift n to s h k = ground (arith, h, k)

blocked_advanced : (s : CoverageStatus) → is_not_advanced s ≡ false → is_blocked s ≡ false
blocked_advanced =
    by_status _ (λ h. refl) (λ h. refl) (λ h. refl) (λ h. refl) (λ h. refl) (λ h. refl) (λ h. refl)
      (λ h. refl) (λ h. h)

blocked_next :
    (s : CoverageStatus) (bills texts : ℕ)
    → is_blocked (next_status_for_counts s bills texts) ≡ is_blocked s
unfolding next_status_for_counts
blocked_next s bills texts =
    if_induction (λ t. is_blocked t ≡ is_blocked s) (is_not_advanced s) (λ _. refl)
      λ h.
        let free = blocked_advanced s h in
        blocked_lift texts full_text_searchable _ refl (
          blocked_lift bills metadata_searchable _ refl
            (blocked_lift bills bootstrapped s refl free))
        ∙ sym free

blocked_promote_measured :
    (available : ℕ) (c : JurisdictionCoverage)
    → is_blocked (promote_measured available c).status ≡ is_blocked c.status
unfolding promote_measured
blocked_promote_measured available c =
    ground (arith, blocked_unless_blocked green c.status refl, blocked_if_recoverable c.status)

blocked_promote :
    (available : Option ℕ) (c : JurisdictionCoverage)
    → is_blocked (promote available c).status ≡ is_blocked c.status
unfolding promote
blocked_promote none c = blocked_if_early c.status
blocked_promote (some available) c = blocked_promote_measured available c

blocked_judge :
    (rate : Option (ℕ × ℕ)) (c : JurisdictionCoverage)
    → is_blocked (judge rate c).status ≡ is_blocked c.status
unfolding judge
blocked_judge none c = refl
blocked_judge (some rate) c = ground (
  arith,
  blocked_unless_blocked degraded c.status refl,
  blocked_promote c.full_text_available_count c,
)

blocked_apply :
    (rate : Option (ℕ × ℕ)) (now : ℕ) (c : JurisdictionCoverage)
    → is_blocked (apply_to_row rate now c).status ≡ is_blocked c.status
unfolding apply_to_row
blocked_apply rate now c = ground (
  arith,
  blocked_judge rate (record c { validation_pass_rate = rate; last_attempt_at = some now }),
)

-- The two passes of the worker that write the rows.
pub data Pass : Type 0 where
  recomputes : List Bill → ℕ → Pass
  validates : ℕ → List BillValidationResult → ℕ → Pass

unfoldable pub run_pass : Pass → List JurisdictionCoverage → List JurisdictionCoverage
run_pass (recomputes bills now) rows = recompute_all_coverage bills now rows
run_pass (validates jurisdiction bills now) rows =
    apply_validation_result jurisdiction bills now rows

unfoldable pub run_passes : List Pass → List JurisdictionCoverage → List JurisdictionCoverage
run_passes [] rows = rows
run_passes (p ∷ ps) rows = run_passes ps (run_pass p rows)

abbrev pub blocked_rows : List JurisdictionCoverage → List Bool
blocked_rows rows = map (λ (c : JurisdictionCoverage). is_blocked c.status) rows

blocked_recomputes :
    (bills : List Bill) (now : ℕ) (rows : List JurisdictionCoverage)
    → blocked_rows (recompute_all_coverage bills now rows) ≡ blocked_rows rows
unfolding recompute_all_coverage recompute_coverage_row
blocked_recomputes bills now [] = refl
blocked_recomputes bills now (c ∷ rows) = cc (
  blocked_next c.status (counts_for bills c).0 (counts_for bills c).1,
  blocked_recomputes bills now rows,
)

blocked_validates :
    (jurisdiction : ℕ) (bills : List BillValidationResult) (now : ℕ)
    (rows : List JurisdictionCoverage)
    → blocked_rows (apply_validation_result jurisdiction bills now rows) ≡ blocked_rows rows
unfolding apply_validation_result
blocked_validates jurisdiction bills now [] = refl
blocked_validates jurisdiction bills now (c ∷ rows) =
    ground
      (arith, blocked_apply (pass_rate bills) now c, blocked_validates jurisdiction bills now rows)

-- Whatever recomputations and validations follow each other, the same rows are BLOCKED afterwards as
-- before.
pub run_passes-blocked :
    (ps : List Pass) (rows : List JurisdictionCoverage)
    → blocked_rows (run_passes ps rows) ≡ blocked_rows rows
unfolding run_passes run_pass
run_passes-blocked [] rows = refl
run_passes-blocked (recomputes bills now ∷ ps) rows =
    run_passes-blocked ps _ ∙ blocked_recomputes bills now rows
run_passes-blocked (validates jurisdiction bills now ∷ ps) rows =
    run_passes-blocked ps _ ∙ blocked_validates jurisdiction bills now rows
