-- ===== src/Bill/Examples.antt =====
-- The status theorems at a concrete bill.
use billcommons.Base.{
  ℕ, ◌≡◌, ◌≢◌, ◌||◌, refl, String, true, Option, none, some, List, [], ◌∷◌, any, all, ltb, arith,
}
use billcommons.Base.Text.{is_space}
use billcommons.Bill.Vocabulary.{
  Status, ActionRow, status_for_action, status_from_classification, status_from_text,
  classification_status, rank, is_terminal, is_progress_classification,
}
use billcommons.Bill.Status.{
  Entry, day, derived, progress_dates, derive_status, resolve, max_entry, upgrade,
}
use billcommons.Bill.Status.Resolve.{without_stale, resolve-eq-without_stale}
use billcommons.Bill.Status.Motion.{moves_on, derive_status-moving}
use billcommons.Bill.Status.Outcome.{is_act}

abbrev no_text : String → Option Status
no_text d = none

abbrev action : ℕ → String → ActionRow
action d c = record {
  action_date = some d;
  classification = some c;
  description = none;
  organization_id = some 1;
}

-- Died in the first year, passed in the second, signed, and referred once more.
abbrev carried_over : List ActionRow
carried_over =
    action 10 "failure"
    ∷ action 20 "passage, reading-3"
    ∷ action 30 "became-law"
    ∷ action 40 "referral-committee"
    ∷ []

abbrev killed : List ActionRow
killed = action 10 "introduction" ∷ action 20 "committee-failure" ∷ []

abbrev entries : List Entry
entries =
    record { date = some 10; status = Status.dead }
    ∷ record { date = some 20; status = Status.passed_one_chamber }
    ∷ []

resolve-eq-without_stale_example : resolve (20 ∷ []) 2 entries ≡ without_stale (20 ∷ []) entries
resolve-eq-without_stale_example = resolve-eq-without_stale (20 ∷ []) 2 entries (omega arith)

signed : any is_act (derived no_text carried_over) ≡ true
unfolding derived status_for_action status_from_classification classification_status rank
    is_terminal status_from_text is_space
signed = refl

reported_dead : derive_status no_text killed ≡ some Status.dead
unfolding derive_status derived progress_dates resolve max_entry upgrade status_for_action
    status_from_classification status_from_text classification_status rank is_terminal
    is_progress_classification is_space
reported_dead = refl

-- The stale death does not count, and the signature does.
reported_enacted : derive_status no_text carried_over ≡ some Status.enacted
unfolding derive_status derived progress_dates resolve max_entry upgrade status_for_action
    status_from_classification status_from_text classification_status rank is_terminal
    is_progress_classification is_space
reported_enacted = refl

-- Died in the first year, read again in the second.
abbrev revived : List ActionRow
revived = action 10 "failure" ∷ action 20 "reading-3" ∷ []

moving : any (moves_on 20) revived ≡ true
unfolding moves_on
moving = refl

nothing_later : all (λ (a : ActionRow). ltb (day a.action_date) 20 || moves_on 20 a) revived ≡ true
unfolding moves_on
nothing_later = refl

derive_status-moving_example : derive_status no_text revived ≢ some Status.dead
derive_status-moving_example = derive_status-moving no_text revived 20 moving nothing_later
