-- ===== src/Webhooks/Rotation/Examples.antt =====
-- Two subscriptions and one place in the tick.
use billcommons.Base.{◌≡◌, Bool, true, none, List, [], ◌∷◌, ◌||◌, all, any, filter, leb, ◌==◌}
use billcommons.Webhooks.Subscription.{Subscription}
use billcommons.Webhooks.Subscription.Examples.{struggling}
use billcommons.Webhooks.Rotation.{turn, is_eligible, eligible_deliveries}
use billcommons.Webhooks.Rotation.Turns.{left_out, eligible_deliveries-fair}

abbrev fresh : Subscription
fresh = record struggling { last_attempt_at = none; last_seq = 9 }

abbrev both : List Subscription
both = struggling ∷ fresh ∷ []

abbrev is_fresh : Subscription → Bool
is_fresh s = s.last_seq == 9

eligible_deliveries-fair_example :
    (all
        (λ s. all (λ x. leb (turn s.last_attempt_at) (turn x.last_attempt_at)) (left_out both 50 1))
        (eligible_deliveries both 50 1)
      ≡ true)
    × ((any is_fresh (eligible_deliveries both 50 1) || any is_fresh (left_out both 50 1))
        ≡ any is_fresh (filter (is_eligible 50) both))
eligible_deliveries-fair_example = eligible_deliveries-fair both 50 1 is_fresh
