-- ===== src/Webhooks/Rotation/Turns.antt =====
-- No subscription that is due starves: those that a tick leaves out come after those that it takes.
use billcommons.Base.{
  ℕ, zero, suc, ◌≤◌, ◌≡◌, refl, sym, ◌∙◌, ap, Bool, true, List, [], ◌∷◌, ◌++◌, ◌||◌, any, all,
  filter, take, drop, take-append-drop, leb, if_induction, arith,
}
use billcommons.Webhooks.Subscription.{Subscription}
use billcommons.Webhooks.Rotation.{
  turn, insert_by_turn, sort_by_turn, rotation_order, is_eligible, eligible_deliveries,
}

abbrev from : ℕ → List Subscription → Bool
from t subs = all (λ s. leb t (turn s.last_attempt_at)) subs

-- Each stands before those whose turn is later.
abbrev IsOrdered : List Subscription → Type 0
IsOrdered [] = Unit
IsOrdered (s ∷ subs) = (from (turn s.last_attempt_at) subs ≡ true) × IsOrdered subs

from-later : (t u : ℕ) (subs : List Subscription) → t ≤ u → from u subs ≡ true → from t subs ≡ true
from-later t u [] le h = refl
from-later t u (s ∷ subs) le h = ground (arith, from-later t u subs le)

from-insert_by_turn :
    (t : ℕ) (s : Subscription) (subs : List Subscription)
    → leb t (turn s.last_attempt_at) ≡ true
    → from t subs ≡ true
    → from t (insert_by_turn s subs) ≡ true
from-insert_by_turn t s [] h k = ground (arith, h)
from-insert_by_turn t s (x ∷ xs) h k = ground (arith, h, from-insert_by_turn t s xs h)

insert_by_turn-IsOrdered :
    (s : Subscription) (subs : List Subscription)
    → IsOrdered subs
    → IsOrdered (insert_by_turn s subs)
insert_by_turn-IsOrdered s [] o = (refl, tt)
insert_by_turn-IsOrdered s (x ∷ xs) o =
    if_induction IsOrdered (leb (turn s.last_attempt_at) (turn x.last_attempt_at))
      (λ first. (
        ground (
          arith,
          first,
          from-later (turn s.last_attempt_at) (turn x.last_attempt_at) xs (ground (arith, first))
              o.0,
        ),
        o,
      ))
      λ later. (
        from-insert_by_turn (turn x.last_attempt_at) s xs (ground (arith, later)) o.0,
        insert_by_turn-IsOrdered s xs o.1,
      )

sort_by_turn-IsOrdered : (subs : List Subscription) → IsOrdered (sort_by_turn subs)
unfolding sort_by_turn
sort_by_turn-IsOrdered [] = tt
sort_by_turn-IsOrdered (s ∷ subs) =
    insert_by_turn-IsOrdered s (sort_by_turn subs) (sort_by_turn-IsOrdered subs)

any-insert_by_turn :
    (p : Subscription → Bool) (s : Subscription) (subs : List Subscription)
    → any p (insert_by_turn s subs) ≡ (p s || any p subs)
any-insert_by_turn p s [] = refl
any-insert_by_turn p s (x ∷ xs) = ground (arith, any-insert_by_turn p s xs)

any-sort_by_turn :
    (p : Subscription → Bool) (subs : List Subscription) → any p (sort_by_turn subs) ≡ any p subs
unfolding sort_by_turn
any-sort_by_turn p [] = refl
any-sort_by_turn p (s ∷ subs) =
    ground (arith, any-insert_by_turn p s (sort_by_turn subs), any-sort_by_turn p subs)

any-append :
    (p : Subscription → Bool) (xs ys : List Subscription)
    → any p (xs ++ ys) ≡ (any p xs || any p ys)
any-append p [] ys = refl
any-append p (x ∷ xs) ys = ground (arith, any-append p xs ys)

from-drop : (t n : ℕ) (subs : List Subscription) → from t subs ≡ true → from t (drop n subs) ≡ true
from-drop t zero subs h = h
from-drop t (suc n) [] h = h
from-drop t (suc n) (s ∷ subs) h = from-drop t n subs (ground (arith, h))

-- Everything that stands in the first n comes before everything behind them.
taken_first :
    (n : ℕ) (subs : List Subscription)
    → IsOrdered subs
    → all (λ s. from (turn s.last_attempt_at) (drop n subs)) (take n subs) ≡ true
taken_first zero subs o = refl
taken_first (suc n) [] o = refl
taken_first (suc n) (s ∷ subs) o =
    ground (arith, from-drop (turn s.last_attempt_at) n subs o.0, taken_first n subs o.1)

-- The due subscriptions that a tick leaves out.
abbrev pub left_out : List Subscription → ℕ → ℕ → List Subscription
left_out subs now limit = drop limit (sort_by_turn (filter (is_eligible now) subs))

-- Every subscription that is due is served or left out, and each that is served was attempted no
-- later than each that is left out, never counting as the earliest.
pub eligible_deliveries-fair :
    (subs : List Subscription) (now limit : ℕ) (p : Subscription → Bool)
    → (all
          (λ s.
            all
              (λ x. leb (turn s.last_attempt_at) (turn x.last_attempt_at))
              (left_out subs now limit))
          (eligible_deliveries subs now limit)
        ≡ true)
      × ((any p (eligible_deliveries subs now limit) || any p (left_out subs now limit))
          ≡ any p (filter (is_eligible now) subs))
unfolding eligible_deliveries rotation_order
eligible_deliveries-fair subs now limit p =
    let due = filter (is_eligible now) subs in
    (
      taken_first limit (sort_by_turn due) (sort_by_turn-IsOrdered due),
      sym (any-append p (take limit (sort_by_turn due)) (drop limit (sort_by_turn due)))
          ∙ ap (any p) (take-append-drop limit (sort_by_turn due))
          ∙ any-sort_by_turn p due,
    )
