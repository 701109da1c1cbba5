-- ===== src/Bill/Vocabulary.antt =====
-- The controlled vocabulary of status.py, and what one action says.
use billcommons.Base.{
  ℕ, String, Bool, true, false, Option, none, some, List, [], ◌∷◌, map, any, ltb, str_eq,
  if◌then◌else◌,
}
use billcommons.Base.Text.{Text, codes, text_eq, split_on, strip}

pub data Status : Type 0 where
  introduced : Status
  in_committee : Status
  substituted : Status
  passed_one_chamber : Status
  passed_both : Status
  enrolled : Status
  enacted : Status
  vetoed : Status
  dead : Status
  withdrawn : Status
  died_on_adjournment : Status

-- TERMINAL_STATUSES
unfoldable pub is_terminal : Status → Bool
is_terminal Status.enacted = true
is_terminal Status.vetoed = true
is_terminal Status.dead = true
is_terminal Status.withdrawn = true
is_terminal Status.died_on_adjournment = true
is_terminal _ = false

-- LIVE_STATUSES
unfoldable pub is_live : Status → Bool
is_live Status.introduced = true
is_live Status.in_committee = true
is_live Status.substituted = true
is_live Status.passed_one_chamber = true
is_live Status.passed_both = true
is_live _ = false

-- _RANK, each rank doubled, since two of them are halves.
unfoldable pub rank : Status → ℕ
rank Status.introduced = 2
rank Status.in_committee = 4
rank Status.substituted = 5
rank Status.passed_one_chamber = 6
rank Status.passed_both = 8
rank Status.enrolled = 10
rank Status.died_on_adjournment = 11
rank Status.withdrawn = 12
rank Status.dead = 14
rank Status.vetoed = 16
rank Status.enacted = 18

unfoldable pub classification_status : List (String × Status)
classification_status =
    ("became-law", Status.enacted)
    ∷ ("executive-signature", Status.enacted)
    ∷ ("executive-veto", Status.vetoed)
    ∷ ("executive-veto-line-item", Status.vetoed)
    ∷ ("withdrawal", Status.withdrawn)
    ∷ ("failure", Status.dead)
    ∷ ("committee-failure", Status.dead)
    ∷ ("enrolled", Status.enrolled)
    ∷ ("executive-receipt", Status.enrolled)
    ∷ ("passage", Status.passed_one_chamber)
    ∷ ("committee-passage", Status.in_committee)
    ∷ ("committee-passage-favorable", Status.in_committee)
    ∷ ("committee-passage-unfavorable", Status.in_committee)
    ∷ ("referral-committee", Status.in_committee)
    ∷ ("introduction", Status.introduced)
    ∷ ("filing", Status.introduced)
    ∷ ("reading-1", Status.introduced)
    ∷ ("reading-2", Status.introduced)
    ∷ ("reading-3", Status.introduced)
    ∷ []

-- _CLASSIFICATION_STATUS.get(token)
abbrev pub look_up : Text → List (String × Status) → Option Status
look_up token [] = none
look_up token ((name, status) ∷ table) =
    if text_eq (codes name) token then some status else look_up token table

abbrev pub progress_classifications : List String
progress_classifications =
    "passage" ∷ "committee-passage" ∷ "committee-passage-favorable"
    ∷ "committee-passage-unfavorable" ∷ "referral-committee" ∷ "reading-2" ∷ "reading-3"
    ∷ "executive-receipt" ∷ []

-- [token.strip() for token in classification.split(",")]
abbrev pub tokens : String → List Text
tokens classification = map strip (split_on 44 (codes classification))

-- A date is the number of days since `date.min`; an organization stands by a number.
pub record ActionRow : Type 0 where
  pub action_date : Option ℕ
  pub classification : Option String
  pub description : Option String
  pub organization_id : Option ℕ

unfoldable pub is_progress_classification : Option String → Bool
is_progress_classification none = false
is_progress_classification (some classification) =
    any (λ token. any (λ name. text_eq (codes name) token) progress_classifications)
      (tokens classification)

-- mapped and (best is None or _RANK[mapped] > _RANK[best])
abbrev pub better : Option Status → Option Status → Option Status
better best none = best
better none (some mapped) = some mapped
better (some best) (some mapped) = if ltb (rank best) (rank mapped) then some mapped else some best

abbrev pub best_of : Option Status → List Text → Option Status
best_of best [] = best
best_of best (token ∷ rest) = best_of (better best (look_up token classification_status)) rest

unfoldable pub status_from_classification : Option String → Option Status
status_from_classification none = none
status_from_classification (some classification) = best_of none (tokens classification)

-- `text_status` is the search of the table of patterns over a description that is not empty.
module _ (text_status : String → Option Status) where
  unfoldable pub status_from_text : Option String → Option Status
  status_from_text none = none
  status_from_text (some description) =
      if str_eq description "" then none else text_status description

  unfoldable pub status_for_action : ActionRow → Option Status
  status_for_action action = elim (status_from_classification action.classification) [
    | none ↦ status_from_text action.description
    | some status ↦ some status
  ]
