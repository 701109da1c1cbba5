-- ===== src/Coverage/Validation/Badge.antt =====
-- When a jurisdiction wears the GREEN badge after a validation.
use billcommons.Base.{
  ℕ, ◌≡◌, refl, Bool, false, Option, none, some, ◌&&◌, ◌||◌, not, ◌==◌, if◌then◌else◌, arith,
}
use billcommons.Coverage.Row.{
  CoverageStatus, validating, green, degraded, by_status, JurisdictionCoverage, is_green,
  is_blocked,
}
use billcommons.Coverage.Validation.{
  is_below, meets_bar, promote_measured, promote, judge, apply_to_row, unless_blocked, is_early,
  is_recoverable,
}

-- Whether the checks that were run earn the badge, given the text that is obtainable; nothing where
-- they decide nothing.
abbrev pub earns : Option (ℕ × ℕ) → Option ℕ → ℕ → Option Bool
earns none available texts = none
earns (some rate) none texts = if is_below rate then some false else none
earns (some rate) (some available) texts =
    some (not (is_below rate) && (available == 0 || meets_bar texts available))

abbrev pub decided : Bool → Bool → Option Bool → Bool
decided was out none = was
decided was out (some b) = b && not out

green_unless_blocked : (s : CoverageStatus) → is_green (unless_blocked green s) ≡ not (is_blocked s)
green_unless_blocked = by_status _ refl refl refl refl refl refl refl refl refl

degraded_unless_blocked : (s : CoverageStatus) → is_green (unless_blocked degraded s) ≡ false
degraded_unless_blocked = by_status _ refl refl refl refl refl refl refl refl refl

green_if_early : (s : CoverageStatus) → is_green (if is_early s then validating else s) ≡ is_green s
green_if_early = by_status _ refl refl refl refl refl refl refl refl refl

green_if_recoverable :
    (s : CoverageStatus) → is_green (if is_recoverable s then validating else s) ≡ false
green_if_recoverable = by_status _ refl refl refl refl refl refl refl refl refl

green_promote_measured :
    (available : ℕ) (c : JurisdictionCoverage)
    → is_green (promote_measured available c).status
      ≡ ((available == 0 || meets_bar c.full_text_count available) && not (is_blocked c.status))
unfolding promote_measured
green_promote_measured available c =
    ground (arith, green_unless_blocked c.status, green_if_recoverable c.status)

green_judge :
    (rate : Option (ℕ × ℕ)) (available : Option ℕ) (c : JurisdictionCoverage)
    → c.full_text_available_count ≡ available
    → is_green (judge rate c).status
      ≡ decided (is_green c.status) (is_blocked c.status) (earns rate available c.full_text_count)
unfolding judge promote
green_judge none available c e = refl
green_judge (some rate) none c e =
    ground (arith, degraded_unless_blocked c.status, green_if_early c.status)
green_judge (some rate) (some available) c e =
    ground (arith, degraded_unless_blocked c.status, green_promote_measured available c)

-- A validation leaves a row GREEN exactly if it is not blocked, the sample passes and the text that
-- is obtainable has landed; where the sample or the count decides nothing, or no bill is there, the
-- row keeps or lacks the badge as before.
pub apply_to_row-green :
    (rate : Option (ℕ × ℕ)) (now : ℕ) (c : JurisdictionCoverage)
    → is_green (apply_to_row rate now c).status ≡ (
        if c.bill_count == 0
        then is_green c.status
        else decided
            (is_green c.status)
            (is_blocked c.status)
            (earns rate c.full_text_available_count c.full_text_count))
unfolding apply_to_row
apply_to_row-green rate now c = ground (
  arith,
  green_judge rate c.full_text_available_count
      (record c { validation_pass_rate = rate; last_attempt_at = some now }) refl,
)
