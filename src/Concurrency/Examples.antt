-- ===== src/Concurrency/Examples.antt =====
-- The concurrency limit at a concrete order of requests.
use billcommons.Base.{◌≡◌, refl, false, List, [], ◌∷◌}
use billcommons.Concurrency.{Event, acquire, release, serve, serve_all, new_service}
use billcommons.Concurrency.Balance.{IsBalanced, serve_all-IsBalanced, new_service-IsBalanced}

-- Two slots; the third request is refused, and the fourth takes the slot of the first.
abbrev order : List Event
order =
    Event.arrives 1 false
    ∷ Event.arrives 2 false
    ∷ Event.arrives 3 false
    ∷ Event.finishes 1
    ∷ Event.arrives 4 false
    ∷ []

in_the_end : (serve_all order (new_service 2)).handling ≡ 4 ∷ 2 ∷ []
unfolding serve_all serve acquire release new_service
in_the_end = refl

serve_all-IsBalanced_example : IsBalanced (serve_all order (new_service 2))
serve_all-IsBalanced_example = serve_all-IsBalanced order (new_service 2) (new_service-IsBalanced 2)
