-- ===== src/Webhooks/Drain/Examples.antt =====
-- The drain loop at concrete inputs.
use billcommons.Base.{ℕ, ◌*◌, ◌≤◌, ◌≡◌, refl, Bool, true, false, none, List, [], ◌∷◌, arith, length}
use billcommons.Webhooks.Subscription.{record_success, classify_http_status}
use billcommons.Webhooks.Subscription.Examples.{struggling}
use billcommons.Webhooks.Drain.{
  Event, Drain, Round, Outcome, drain_one, next, drain_round, fetch_batch, deliver, deliver_batch,
  halve, post, answered, advance_to, advance_last_seq, stopped_or_again,
}
use billcommons.Webhooks.Drain.Shrink.{halve-Fits, Fits}
use billcommons.Webhooks.Drain.Cursor.{handled, Ascending}
use billcommons.Webhooks.Drain.AtLeastOnce.{at_least_once}

abbrev event : ℕ → Event
event q = record { seq = q; in_scope = true; has_bill = true }

abbrev three : List Event
three = event 5 ∷ event 6 ∷ event 9 ∷ []

-- 300 KiB an event.
abbrev heavy : List Event → Bool → ℕ
heavy es more = length es * 300000

abbrev round : Outcome → Round
round o = record { now = 20; post_now = 21; scope_known = true; outcome = o; factor = 1000000 }

abbrev start : Drain
start = record { sub = struggling; log = []; sent = 0 }

abbrev answers : List Round
answers = round (Outcome.response 200 none) ∷ []

three_ascend : Ascending 0 three
three_ascend = (omega arith, (omega arith, (omega arith, tt)))

-- The first batch is halved to one event, which is taken.
passed_five : 5 ≤ (drain_one heavy true three 9 answers start).0.sub.last_seq
unfolding drain_one next drain_round fetch_batch deliver deliver_batch halve post answered
    record_success advance_to advance_last_seq stopped_or_again classify_http_status
passed_five = omega arith

abbrev halved : List Event × Bool
halved = halve heavy true three 9 3 three false

halve-Fits_example : Fits heavy true three 9 three halved
halve-Fits_example = halve-Fits heavy true three 9 3 three false (omega arith) (omega arith)

at_least_once_example : handled heavy 5 (drain_one heavy true three 9 answers start).0.log ≡ true
at_least_once_example =
    at_least_once heavy true three 9 three_ascend answers start 5 refl (omega arith) passed_five
