-- ===== src/Webhooks/Rotation.antt =====
-- `eligible_deliveries` and `rotation_order` of dispatch_webhooks.py: which subscriptions a tick
-- serves. Those that were never attempted come first, then the least recently attempted.
pub mod Turns
mod Examples
use billcommons.Base.{
  ℕ, suc, Bool, true, false, Option, none, some, List, [], ◌∷◌, ◌&&◌, filter, take, leb,
  if◌then◌else◌,
}
use billcommons.Webhooks.Subscription.{Subscription}

-- (last_attempt_at is not None, last_attempt_at) as a number
abbrev pub turn : Option ℕ → ℕ
turn none = 0
turn (some t) = suc t

abbrev pub insert_by_turn : Subscription → List Subscription → List Subscription
insert_by_turn s [] = s ∷ []
insert_by_turn s (x ∷ xs) =
    let rest = insert_by_turn s xs in
    if leb (turn s.last_attempt_at) (turn x.last_attempt_at) then s ∷ x ∷ xs else x ∷ rest

-- sorted(subs, key=...), which is stable
unfoldable pub sort_by_turn : List Subscription → List Subscription
sort_by_turn [] = []
sort_by_turn (s ∷ subs) = insert_by_turn s (sort_by_turn subs)

unfoldable pub rotation_order : List Subscription → ℕ → List Subscription
rotation_order subs limit = take limit (sort_by_turn subs)

abbrev pub is_due : Option ℕ → ℕ → Bool
is_due none now = true
is_due (some t) now = leb t now

abbrev pub is_eligible : ℕ → Subscription → Bool
is_eligible now s = s.active && (s.verified && is_due s.next_attempt_at now)

unfoldable pub eligible_deliveries : List Subscription → ℕ → ℕ → List Subscription
eligible_deliveries subs now limit = rotation_order (filter (is_eligible now) subs) limit
