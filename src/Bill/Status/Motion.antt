-- ===== src/Bill/Status/Motion.antt =====
-- `derive_status` and its exception for a stale DEAD, on records that end with forward motion.
use billcommons.Base.{
  ℕ, ◌≡◌, ◌≢◌, refl, sym, ◌∙◌, subst, String, Bool, true, false, Option, none, some, List, [], ◌∷◌,
  ◌&&◌, ◌||◌, ◌==◌, not, any, all, ltb, str_eq, eq_iff, arith, Bool-cases, inl, inr, if_induction,
  filter, Option-cases,
}
use billcommons.Bill.Vocabulary.{
  Status, ActionRow, rank, is_progress_classification, status_from_classification,
  status_for_action, classification_status,
}
use billcommons.Bill.Status.{
  Entry, day, status_eq, derived, progress_dates, derive_status, upgrade, pool, max_entry,
}
use billcommons.Bill.Status.Resolve.{fresh, status_of, without_stale}
use billcommons.Bill.Status.Outcome.{derive-eq, greatest_holds, all-pool}

-- The classifications of forward motion: a passage, a committee's passage or report, a referral, a later
-- reading, the receipt by the executive.
abbrev pub motions : List String
motions =
    "passage" ∷ "committee-passage" ∷ "committee-passage-favorable"
    ∷ "committee-passage-unfavorable" ∷ "referral-committee" ∷ "reading-2" ∷ "reading-3"
    ∷ "executive-receipt" ∷ []

abbrev pub is_class : Option String → String → Bool
is_class none name = false
is_class (some c) name = str_eq name c

abbrev pub is_day : ℕ → Option ℕ → Bool
is_day d none = false
is_day d (some e) = d == e

-- The action is of that day, and a motion.
unfoldable pub moves_on : ℕ → ActionRow → Bool
moves_on d a = is_day d a.action_date && any (is_class a.classification) motions

abbrev is_alive : Option Status → Bool
is_alive none = false
is_alive (some s) = not (status_eq s Status.dead)

abbrev is_motion : String → Bool
is_motion c = is_progress_classification (some c) && is_alive (status_from_classification (some c))

motions-IsMotion : all is_motion motions ≡ true
unfolding is_progress_classification status_from_classification classification_status rank
    billcommons.Base.Text.is_space
motions-IsMotion = refl

holds_of_listed :
    (p : String → Bool) (c : String) (names : List String)
    → all p names ≡ true
    → any (is_class (some c)) names ≡ true
    → p c ≡ true
holds_of_listed p c [] h k = ground (arith, k)
holds_of_listed p c (n ∷ names) h k = elim (Bool-cases (str_eq n c)) [
  | inl same ↦ subst (λ x. p x ≡ true) ((eq_iff n c).0 same) (ground (arith, h))
  | inr other ↦ holds_of_listed p c names (ground (arith, h)) (ground (arith, k, other))
]

motion_of_class :
    (o : Option String)
    → any (is_class o) motions ≡ true
    → (is_progress_classification o ≡ true) × (is_alive (status_from_classification o) ≡ true)
motion_of_class none h = ground (arith, h)
motion_of_class (some c) h =
    let m = holds_of_listed is_motion c motions motions-IsMotion h in
    (ground (arith, m), ground (arith, m))

later_date :
    (x d : ℕ) (dates : List ℕ)
    → any (λ pd. pd == d) dates ≡ true
    → ltb x d ≡ true
    → any (λ pd. ltb x pd) dates ≡ true
later_date x d [] h k = h
later_date x d (pd ∷ dates) h k = ground (arith, h, k, later_date x d dates)

-- A death is dated before the day.
abbrev died_before : ℕ → Entry → Bool
died_before d e = not (status_eq e.status Status.dead) || ltb (day e.date) d

abbrev is_other : Entry → Bool
is_other e = not (status_eq e.status Status.dead)

others_fresh :
    (d : ℕ) (dates : List ℕ) (es : List Entry)
    → any (λ pd. pd == d) dates ≡ true
    → all (died_before d) es ≡ true
    → all is_other (fresh dates es) ≡ true
others_fresh d dates [] h k = refl
others_fresh d dates (e ∷ es) h k =
    ground (arith, h, k, later_date (day e.date) d dates h, others_fresh d dates es h)

both : (x y : Bool) → (x && y) ≡ true → (x ≡ true) × (y ≡ true)
both true y h = (refl, h)
both false y h = absurd (ground (arith, h))

day_of : (d : ℕ) (o : Option ℕ) → is_day d o ≡ true → o ≡ some d
day_of d none h = ground (arith, h)
day_of d (some e) h = ground (arith, h)

motion_that_day :
    (d : ℕ) (a : ActionRow)
    → moves_on d a ≡ true
    → (a.action_date ≡ some d) × (any (is_class a.classification) motions ≡ true)
unfolding moves_on
motion_that_day d a h =
    let m = both (is_day d a.action_date) (any (is_class a.classification) motions) h in
    (day_of d a.action_date m.0, m.1)

module _ (text_status : String → Option Status) (d : ℕ) where
  alive_action :
      (a : ActionRow)
      → any (is_class a.classification) motions ≡ true
      → is_alive (status_for_action text_status a) ≡ true
  unfolding status_for_action
  alive_action a h = ground (arith, (motion_of_class a.classification h).1)

  progress_here :
      (a : ActionRow) (more : List ActionRow)
      → a.action_date ≡ some d
      → is_progress_classification a.classification ≡ true
      → any (λ pd. pd == d) (progress_dates text_status (a ∷ more)) ≡ true
  unfolding progress_dates
  progress_here a more e p = rw (e, p) (ground arith)

  progress_there :
      (a : ActionRow) (more : List ActionRow)
      → any (λ pd. pd == d) (progress_dates text_status more) ≡ true
      → any (λ pd. pd == d) (progress_dates text_status (a ∷ more)) ≡ true
  unfolding progress_dates
  progress_there a more h = ground (arith, h)

  progress_that_day :
      (actions : List ActionRow)
      → any (moves_on d) actions ≡ true
      → any (λ pd. pd == d) (progress_dates text_status actions) ≡ true
  progress_that_day [] h = absurd (ground (arith, h))
  progress_that_day (a ∷ more) h = elim (Bool-cases (moves_on d a)) [
    | inl now ↦
        let m = motion_that_day d a now in
        progress_here a more m.0 (motion_of_class a.classification m.1).0
    | inr later ↦ progress_there a more (progress_that_day more (ground (arith, h, later)))
  ]

  deaths_cons :
      (date : Option ℕ) (o : Option Status) (rest : List Entry)
      → (ltb (day date) d || is_alive o) ≡ true
      → all (died_before d) rest ≡ true
      → all
          (died_before d)
          (elim o [ none ↦ rest | some status ↦ record { date = date; status = status } ∷ rest ])
        ≡ true
  deaths_cons date none rest h k = k
  deaths_cons date (some status) rest h k = ground (arith, h, k)

  early_or_alive :
      (a : ActionRow)
      → (ltb (day a.action_date) d || moves_on d a) ≡ true
      → (ltb (day a.action_date) d || is_alive (status_for_action text_status a)) ≡ true
  early_or_alive a h = elim (Bool-cases (moves_on d a)) [
    | inl now ↦ ground (arith, alive_action a (motion_that_day d a now).1)
    | inr early ↦ ground (arith, h, early)
  ]

  deaths_before :
      (actions : List ActionRow)
      → all (λ a. ltb (day a.action_date) d || moves_on d a) actions ≡ true
      → all (died_before d) (derived text_status actions) ≡ true
  unfolding derived
  deaths_before [] h = refl
  deaths_before (a ∷ more) h =
      deaths_cons a.action_date (status_for_action text_status a) (derived text_status more)
        (early_or_alive a (ground (arith, h))) (deaths_before more (ground (arith, h)))

status_of-other :
    (es : List Entry) → all is_other es ≡ true → status_of (max_entry es) ≡ some Status.dead → ⊥
status_of-other es h k = elim (Option-cases (max_entry es)) [
  | inl nothing ↦ ground (arith, nothing, k)
  | inr (w, win) ↦ ground (arith, win, k, greatest_holds is_other es w h win)
]

not_dead :
    (actions : List ActionRow) (o : Option Status)
    → (o ≡ some Status.dead → ⊥)
    → upgrade actions o ≢ some Status.dead
unfolding upgrade
not_dead actions none h k = ground (arith, k)
not_dead actions (some Status.introduced) h k = h k
not_dead actions (some Status.in_committee) h k = h k
not_dead actions (some Status.substituted) h k = h k
not_dead actions (some Status.passed_one_chamber) h k = ground (arith, k)
not_dead actions (some Status.passed_both) h k = h k
not_dead actions (some Status.enrolled) h k = h k
not_dead actions (some Status.enacted) h k = h k
not_dead actions (some Status.vetoed) h k = h k
not_dead actions (some Status.dead) h k = h k
not_dead actions (some Status.withdrawn) h k = h k
not_dead actions (some Status.died_on_adjournment) h k = h k

-- A bill is not reported dead if the last day of its record has nothing but forward motion: a passage, a
-- committee's passage, a referral, a second or third reading, or the receipt by the executive, each
-- as the whole classification of an action; whatever was recorded on the days before.
pub derive_status-moving :
    (text_status : String → Option Status) (actions : List ActionRow) (d : ℕ)
    → any (moves_on d) actions ≡ true
    → all (λ a. ltb (day a.action_date) d || moves_on d a) actions ≡ true
    → derive_status text_status actions ≢ some Status.dead
derive_status-moving text_status actions d moving rest =
    let dates = progress_dates text_status actions in
    let es = derived text_status actions in
    subst (λ o. o ≢ some Status.dead) (sym (derive-eq text_status actions))
      (not_dead actions (without_stale dates es) (
        status_of-other (pool (fresh dates es)) (
          all-pool is_other (fresh dates es) (
            others_fresh d dates es (progress_that_day text_status d actions moving)
              (deaths_before text_status d actions rest)))))
