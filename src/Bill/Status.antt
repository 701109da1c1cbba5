-- ===== src/Bill/Status.antt =====
-- `derive_status` of status.py: the status that a bill's actions imply.
pub mod Greatest
pub mod Resolve
pub mod Outcome
pub mod Motion
use billcommons.Base.{
  ℕ, zero, suc, String, Bool, true, false, Option, none, some, List, [], ◌∷◌, ◌&&◌, ◌||◌, not, any,
  filter, length, ◌==◌, leb, ltb, if◌then◌else◌,
}
use billcommons.Base.Text.{codes, text_eq}
use billcommons.Bill.Vocabulary.{
  Status, ActionRow, is_terminal, rank, tokens, is_progress_classification, status_for_action,
}

pub record Entry : Type 0 where
  pub date : Option ℕ
  pub status : Status

-- action_date or date.min
abbrev pub day : Option ℕ → ℕ
day none = 0
day (some d) = d

abbrev pub status_eq : Status → Status → Bool
status_eq s t = rank s == rank t

abbrev pub date_eq : Option ℕ → Option ℕ → Bool
date_eq none none = true
date_eq none (some d) = false
date_eq (some d) none = false
date_eq (some d) (some e) = d == e

-- sort_key(a) < sort_key(b)
abbrev pub less : Entry → Entry → Bool
less a b =
    ltb (day a.date) (day b.date)
    || (day a.date == day b.date && ltb (rank a.status) (rank b.status))

-- max(entries, key=sort_key): the first of the greatest.
abbrev pub first_max : Entry → Option Entry → Entry
first_max e none = e
first_max e (some m) = if less e m then m else e

unfoldable pub max_entry : List Entry → Option Entry
max_entry [] = none
max_entry (e ∷ es) = some (first_max e (max_entry es))

-- remaining.remove(winner)
unfoldable pub remove : Entry → List Entry → List Entry
remove w [] = []
remove w (e ∷ es) =
    let rest = remove w es in
    if date_eq e.date w.date && status_eq e.status w.status then es else e ∷ rest

abbrev pub is_concluding : Entry → Bool
is_concluding e = is_terminal e.status

abbrev pub or_else : List Entry → List Entry → List Entry
or_else [] es = es
or_else (t ∷ ts) es = t ∷ ts

-- terminal or remaining
abbrev pub pool : List Entry → List Entry
pool es = or_else (filter is_concluding es) es

-- A recorded death that forward motion on a later day contradicts.
abbrev pub is_stale : List ℕ → Entry → Bool
is_stale progress_dates e =
    status_eq e.status Status.dead && any (λ pd. ltb (day e.date) pd) progress_dates

-- The loop over `remaining`. Its length is enough fuel: `Resolve.resolve-eq-without_stale`.
unfoldable pub resolve : List ℕ → ℕ → List Entry → Option Status
resolve progress_dates zero remaining = none
resolve progress_dates (suc fuel) remaining = elim (max_entry (pool remaining)) [
  | none ↦ none
  | some winner ↦
      let again = resolve progress_dates fuel (remove winner remaining) in
      if is_stale progress_dates winner then again else some winner.status
]

-- len(set(ids))
abbrev pub distinct : List ℕ → ℕ
distinct [] = 0
distinct (i ∷ ids) = if any (λ j. j == i) ids then distinct ids else suc (distinct ids)

abbrev pub has_passage : Option String → Bool
has_passage none = false
has_passage (some classification) = any (λ t. text_eq (codes "passage") t) (tokens classification)

-- The chambers that recorded a passage, with repetitions.
unfoldable pub chambers : List ActionRow → List ℕ
chambers [] = []
chambers (a ∷ more) =
    let rest = chambers more in
    elim a.organization_id [
      | none ↦ rest
      | some i ↦ if has_passage a.classification then i ∷ rest else rest
    ]

unfoldable pub upgrade : List ActionRow → Option Status → Option Status
upgrade actions (some Status.passed_one_chamber) =
    if leb 2 (distinct (chambers actions))
    then some Status.passed_both
    else some Status.passed_one_chamber
upgrade actions result = result

abbrev pub has_passed : Option Status → Bool
has_passed (some Status.passed_one_chamber) = true
has_passed (some Status.passed_both) = true
has_passed _ = false

module _ (text_status : String → Option Status) where
  unfoldable pub derived : List ActionRow → List Entry
  derived [] = []
  derived (a ∷ more) =
      let rest = derived more in
      elim (status_for_action text_status a) [
        | none ↦ rest
        | some status ↦ record { date = a.action_date; status = status } ∷ rest
      ]

  unfoldable pub progress_dates : List ActionRow → List ℕ
  progress_dates [] = []
  progress_dates (a ∷ more) =
      let rest = progress_dates more in
      elim a.action_date [
        | none ↦ rest
        | some d ↦
            if is_progress_classification a.classification
              || has_passed (status_for_action text_status a)
            then d ∷ rest
            else rest
      ]

  unfoldable pub derive_status : List ActionRow → Option Status
  derive_status actions =
      let entries = derived actions in
      upgrade actions (resolve (progress_dates actions) (length entries) entries)
