-- ===== src/Concurrency.antt =====
-- apps/api/billcommons_api/concurrency.py: the limit on the requests in flight. The lock makes each
-- of `_acquire` and `_release` one step; requests arrive and finish in any order.
pub mod Balance
mod Examples
use billcommons.Base.{
  ℕ, ◌+◌, ◌-◌, Bool, true, false, Option, none, some, List, [], ◌∷◌, ltb, leb, ◌==◌, if◌then◌else◌,
}

pub record Limiter : Type 0 where
  pub max_concurrent : ℕ
  pub in_flight : ℕ
  pub shed_total : ℕ

unfoldable pub acquire : Limiter → Limiter × Bool
acquire l =
    if leb l.max_concurrent l.in_flight
    then (record l { shed_total = l.shed_total + 1 }, false)
    else (record l { in_flight = l.in_flight + 1 }, true)

unfoldable pub release : Limiter → Limiter
release l = record l { in_flight = l.in_flight - 1 }

-- The service: the limiter, the requests that the application is handling with a slot, and the
-- number of requests that were handled without one or answered 503.
pub record Service : Type 0 where
  pub limiter : Limiter
  pub handling : List ℕ
  pub exempt_served : ℕ
  pub refused : ℕ

-- A request arrives, on an exempt path or not; or the application returns or raises for one.
pub data Event : Type 0 where
  arrives : ℕ → Bool → Event
  finishes : ℕ → Event

-- The first of the requests with the number leaves.
abbrev pub leave : ℕ → List ℕ → Option (List ℕ)
leave i [] = none
leave i (j ∷ js) =
    let rest = leave i js in
    if j == i then some js else elim rest [ none ↦ none | some ks ↦ some (j ∷ ks) ]

abbrev pub admit : ℕ → Limiter × Bool → Service → Service
admit i (l, true) s = record s { limiter = l; handling = i ∷ s.handling }
admit i (l, false) s = record s { limiter = l; refused = s.refused + 1 }

-- `finally: self._release()`: a slot is given back for a request that has one.
abbrev pub finish : Option (List ℕ) → Service → Service
finish none s = s
finish (some rest) s = record s { limiter = release s.limiter; handling = rest }

unfoldable pub serve : Event → Service → Service
serve (arrives i true) s = record s { exempt_served = s.exempt_served + 1 }
serve (arrives i false) s = admit i (acquire s.limiter) s
serve (finishes i) s = finish (leave i s.handling) s

unfoldable pub serve_all : List Event → Service → Service
serve_all [] s = s
serve_all (e ∷ es) s = serve_all es (serve e s)

unfoldable pub new_service : ℕ → Service
new_service max_concurrent = record {
  limiter = record { max_concurrent = max_concurrent; in_flight = 0; shed_total = 0 };
  handling = [];
  exempt_served = 0;
  refused = 0;
}
