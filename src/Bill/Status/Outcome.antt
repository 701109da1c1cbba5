-- ===== src/Bill/Status/Outcome.antt =====
-- What `derive_status` reports of outcomes: an outcome is not undone.
use billcommons.Base.{
  ℕ, ◌≡◌, refl, sym, ap, subst, String, Bool, true, false, Option, none, some, List, [], ◌∷◌, ◌&&◌,
  not, any, all, filter, length, inl, inr, arith,
}
use billcommons.Bill.Vocabulary.{Status, ActionRow, is_terminal}
use billcommons.Bill.Status.{
  Entry, status_eq, max_entry, first_max, is_concluding, or_else, pool, derived, progress_dates,
  derive_status, upgrade,
}
use billcommons.Bill.Status.Greatest.{first_or_later}
use billcommons.Bill.Status.Resolve.{
  fresh, status_of, without_stale, resolve-eq-without_stale, max-or_else,
}

abbrev pub is_outcome : Option Status → Bool
is_outcome none = false
is_outcome (some s) = is_terminal s

abbrev pub is_act : Entry → Bool
is_act e = is_terminal e.status && not (status_eq e.status Status.dead)

all-filter : (p : Entry → Bool) (es : List Entry) → all p (filter p es) ≡ true
all-filter p [] = refl
all-filter p (e ∷ es) = ground (arith, all-filter p es)

pub all_part : (p q : Entry → Bool) (es : List Entry) → all p es ≡ true → all p (filter q es) ≡ true
all_part p q [] h = refl
all_part p q (e ∷ es) h = ground (arith, all_part p q es)

-- What holds of every entry holds of the greatest.
pub greatest_holds :
    (p : Entry → Bool) (es : List Entry) (w : Entry)
    → all p es ≡ true
    → max_entry es ≡ some w
    → p w ≡ true
unfolding max_entry
greatest_holds p [] w a h = ground arith
greatest_holds p (e ∷ es) w a h = elim (first_or_later e (max_entry es) w h) [
  | inl (at, most) ↦ subst (λ x. p x ≡ true) at (ground (arith, a))
  | inr (later, less_w) ↦ greatest_holds p es w (ground (arith, a)) later
]

pub all-pool : (p : Entry → Bool) (es : List Entry) → all p es ≡ true → all p (pool es) ≡ true
all-pool p es h = go (filter is_concluding es) (all_part p is_concluding es h)
  where
    go : (ts : List Entry) → all p ts ≡ true → all p (or_else ts es) ≡ true
    go [] k = h
    go (t ∷ ts) k = k

act_fresh :
    (dates : List ℕ) (es : List Entry)
    → any is_act es ≡ true
    → any is_concluding (filter is_concluding (fresh dates es)) ≡ true
act_fresh dates [] h = h
act_fresh dates (e ∷ es) h = ground (arith, act_fresh dates es)

max_some :
    (es : List Entry) (p : Entry → Bool) → any p es ≡ true → (w : Entry) × (max_entry es ≡ some w)
unfolding max_entry
max_some [] p h = absurd (ground arith)
max_some (e ∷ es) p h = (first_max e (max_entry es), refl)

module _ (text_status : String → Option Status) (actions : List ActionRow) where
  pub derive-eq :
      derive_status text_status actions
      ≡ upgrade actions
          (without_stale (progress_dates text_status actions) (derived text_status actions))
  unfolding derive_status
  derive-eq = ap (upgrade actions) (
      resolve-eq-without_stale (progress_dates text_status actions)
        (length (derived text_status actions)) (derived text_status actions) (omega arith))

  outcome-upgrade :
      (o : Option Status) → is_outcome o ≡ true → is_outcome (upgrade actions o) ≡ true
  unfolding upgrade is_terminal
  outcome-upgrade none h = ground arith
  outcome-upgrade (some Status.introduced) h = h
  outcome-upgrade (some Status.in_committee) h = h
  outcome-upgrade (some Status.substituted) h = h
  outcome-upgrade (some Status.passed_one_chamber) h = ground arith
  outcome-upgrade (some Status.passed_both) h = h
  outcome-upgrade (some Status.enrolled) h = h
  outcome-upgrade (some Status.enacted) h = h
  outcome-upgrade (some Status.vetoed) h = h
  outcome-upgrade (some Status.dead) h = h
  outcome-upgrade (some Status.withdrawn) h = h
  outcome-upgrade (some Status.died_on_adjournment) h = h

  -- If one action records an enactment, a veto or a withdrawal, the status is an outcome, whatever
  -- else was filed.
  pub act_concludes :
      any is_act (derived text_status actions) ≡ true
      → is_outcome (derive_status text_status actions) ≡ true
  act_concludes h =
      let dates = progress_dates text_status actions in
      let es = derived text_status actions in
      let concluded = filter is_concluding (fresh dates es) in
      let (w, win) = max_some concluded is_concluding (act_fresh dates es h) in
      subst (λ o. is_outcome o ≡ true) (sym derive-eq)
        (outcome-upgrade (without_stale dates es) (
          subst (λ o. is_outcome (status_of o) ≡ true)
            (sym (max-or_else concluded (fresh dates es) w win))
            (greatest_holds is_concluding concluded w (all-filter is_concluding (fresh dates es))
              win)))
