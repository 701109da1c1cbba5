-- ===== src/Schedule/Examples.antt =====
-- The schedule at two states.
use billcommons.Base.{ℕ, ◌+◌, ◌≡◌, refl, true, Option, none, some, List, [], ◌∷◌, all, arith, ◌*◌}
use billcommons.Base.Text.{codes, is_absent}
use billcommons.Schedule.{
  Jurisdiction, last_enqueued_at, first_session, is_due, plan_schedule, enqueue_due,
  run_schedule_pass, minute, day,
}
use billcommons.Schedule.Cadence.{is_no_earlier, run_schedule_pass-spaced}

abbrev states : List Jurisdiction
states =
    record {
      abbreviation = codes "DC";
      sessions = record { active = true; start_date = some 700000; end_date = none } ∷ [];
    }
    ∷ record {
      abbreviation = codes "VT";
      sessions =
          record { active = true; start_date = some 700000; end_date = some 739900 }
          ∷ record { active = true; start_date = none; end_date = none }
          ∷ [];
    }
    ∷ []

abbrev at : ℕ
at = 739800 * day

first_pass : (run_schedule_pass true 1 at states []).1 ≡ codes "DC" ∷ codes "VT" ∷ []
unfolding run_schedule_pass plan_schedule enqueue_due last_enqueued_at first_session is_due
first_pass = refl

no_earlier_self : (o : Option ℕ) → is_no_earlier o o ≡ true
no_earlier_self none = refl
no_earlier_self (some t) = ground arith

run_schedule_pass-spaced_example :
    all
      (is_absent
        (run_schedule_pass true 3
          (at + 29 * minute)
          states
          (run_schedule_pass true 1 at states []).0).1)
      (run_schedule_pass true 1 at states []).1
    ≡ true
run_schedule_pass-spaced_example =
    run_schedule_pass-spaced 1 3 at (at + 29 * minute) states states []
      (run_schedule_pass true 1 at states []).0
      (λ s. no_earlier_self (last_enqueued_at s (run_schedule_pass true 1 at states []).0))
      (omega arith)
