-- ===== src/Bill/Session/Adjournment.antt =====
-- What adjournment does to a status, and to the status that `derive_status` reports.
use billcommons.Base.{
  ℕ, ◌≡◌, refl, sym, subst, String, Bool, true, Option, none, some, List, [], ◌∷◌, ◌&&◌, not, all,
  str_eq, leb, ltb, if_induction, arith,
}
use billcommons.Base.Text.{Text}
use billcommons.Bill.Vocabulary.{
  Status, ActionRow, is_live, rank, better, best_of, look_up, classification_status, tokens,
  status_from_classification, status_from_text, status_for_action,
}
use billcommons.Bill.Status.{
  Entry, status_eq, max_entry, pool, is_stale, distinct, chambers, upgrade, progress_dates, derived,
  derive_status,
}
use billcommons.Bill.Status.Resolve.{fresh, status_of, without_stale}
use billcommons.Bill.Status.Outcome.{derive-eq, greatest_holds, all-pool, all_part}
use billcommons.Bill.Session.{apply_session_outcome, is_settled, is_over}

-- Adjournment is not the status.
abbrev pub survives : Option Status → Bool
survives none = true
survives (some s) = not (status_eq s Status.died_on_adjournment)

-- Applied again on the same facts it changes nothing.
pub apply_session_outcome_idem :
    (status : Option Status) (ended : Option ℕ) (today : ℕ) (active recent : Bool)
    → apply_session_outcome
        (apply_session_outcome status ended today active recent)
        ended
        today
        active
        recent
      ≡ apply_session_outcome status ended today active recent
unfolding apply_session_outcome is_live
apply_session_outcome_idem status ended today active recent = ground arith

survives-look_up :
    (token : Text) (table : List (String × Status))
    → all (λ (row : String × Status). survives (some row.1)) table ≡ true
    → survives (look_up token table) ≡ true
survives-look_up token [] h = refl
survives-look_up token ((name, s) ∷ table) h = ground (arith, survives-look_up token table)

survives-better :
    (best mapped : Option Status)
    → survives best ≡ true
    → survives mapped ≡ true
    → survives (better best mapped) ≡ true
survives-better best none h k = h
survives-better none (some m) h k = k
survives-better (some b) (some m) h k =
    if_induction (λ o. survives o ≡ true) (ltb (rank b) (rank m)) (λ _. k) λ _. h

survives-table : (token : Text) → survives (look_up token classification_status) ≡ true
unfolding classification_status rank
survives-table token = survives-look_up token classification_status refl

survives-best_of :
    (best : Option Status) (ts : List Text)
    → survives best ≡ true
    → survives (best_of best ts) ≡ true
survives-best_of best [] h = h
survives-best_of best (t ∷ ts) h =
    survives-best_of (better best (look_up t classification_status)) ts
      (survives-better best (look_up t classification_status) h (survives-table t))

survives-classification : (c : Option String) → survives (status_from_classification c) ≡ true
unfolding status_from_classification
survives-classification none = refl
survives-classification (some c) = survives-best_of none (tokens c) refl

module _ (text_status : String → Option Status)
    (no_pattern_adjourns : (d : String) → survives (text_status d) ≡ true) where
  survives-text : (d : Option String) → survives (status_from_text text_status d) ≡ true
  unfolding status_from_text
  survives-text none = refl
  survives-text (some d) =
      if_induction (λ o. survives o ≡ true) (str_eq d "") (λ _. refl) λ _. no_pattern_adjourns d

  survives-action : (a : ActionRow) → survives (status_for_action text_status a) ≡ true
  unfolding status_for_action
  survives-action a =
      go (status_from_classification a.classification) (survives-classification a.classification)
    where
      go :
          (o : Option Status)
          → survives o ≡ true
          → survives (elim o [
            | none ↦ status_from_text text_status a.description
            | some status ↦ some status
          ])
            ≡ true
      go none h = survives-text a.description
      go (some s) h = h

  all-derived :
      (actions : List ActionRow)
      → all (λ e. survives (some e.status)) (derived text_status actions) ≡ true
  unfolding derived
  all-derived [] = refl
  all-derived (a ∷ more) = ground (arith, survives-action a, all-derived more)

  survives-upgrade :
      (actions : List ActionRow) (o : Option Status)
      → survives o ≡ true
      → survives (upgrade actions o) ≡ true
  unfolding upgrade rank
  survives-upgrade actions none h = refl
  survives-upgrade actions (some Status.introduced) h = h
  survives-upgrade actions (some Status.in_committee) h = h
  survives-upgrade actions (some Status.substituted) h = h
  survives-upgrade actions (some Status.passed_one_chamber) h =
      if_induction (λ o. survives o ≡ true) (leb 2 (distinct (chambers actions))) (λ _. refl)
        λ _. refl
  survives-upgrade actions (some Status.passed_both) h = h
  survives-upgrade actions (some Status.enrolled) h = h
  survives-upgrade actions (some Status.enacted) h = h
  survives-upgrade actions (some Status.vetoed) h = h
  survives-upgrade actions (some Status.dead) h = h
  survives-upgrade actions (some Status.withdrawn) h = h
  survives-upgrade actions (some Status.died_on_adjournment) h = h

  survives-status_of :
      (o : Option Entry)
      → ((w : Entry) → o ≡ some w → survives (some w.status) ≡ true)
      → survives (status_of o) ≡ true
  survives-status_of none h = refl
  survives-status_of (some w) h = h w refl

  -- The actions alone never say that a bill died with its session.
  pub survives-derive_status :
      (actions : List ActionRow) → survives (derive_status text_status actions) ≡ true
  survives-derive_status actions =
      let dates = progress_dates text_status actions in
      let es = derived text_status actions in
      let ok = λ (e : Entry). survives (some e.status) in
      subst (λ o. survives o ≡ true) (sym (derive-eq text_status actions))
        (survives-upgrade actions (without_stale dates es) (
          survives-status_of (max_entry (pool (fresh dates es))) λ w win.
            greatest_holds ok (pool (fresh dates es)) w
              (all-pool ok (fresh dates es)
                (all_part ok (λ e. not (is_stale dates e)) es (all-derived actions)))
              win))

  -- A bill is reported as died on adjournment exactly if its session is over, the source does not
  -- call the session active, and its own actions left it without an outcome and not enrolled.
  pub died_on_adjournment_iff :
      (actions : List ActionRow) (ended : Option ℕ) (today : ℕ) (active recent : Bool)
      → not (
          survives
            (apply_session_outcome (derive_status text_status actions) ended today active recent))
        ≡ (is_over ended today
            && (not active && not (is_settled (derive_status text_status actions))))
  unfolding apply_session_outcome rank
  died_on_adjournment_iff actions ended today active recent =
      ground (arith, survives-derive_status actions)
