-- ===== src/Concurrency/Balance.antt =====
-- No slot is lost and none is invented, whatever the order of the requests.
use billcommons.Base.{
  ℕ, suc, ◌≤◌, ◌≡◌, refl, ap, subst, true, false, Option, none, some, List, [], ◌∷◌, leb, ◌==◌,
  if_induction, arith, length,
}
use billcommons.Concurrency.{
  Service, Event, acquire, release, leave, admit, finish, serve, serve_all, new_service,
}

-- The slots in use are those of the requests being handled, at most `max_concurrent`, and each
-- refusal is counted.
pub record IsBalanced (s : Service) : Type 0 where
  pub slots : s.limiter.in_flight ≡ length s.handling
  pub bounded : s.limiter.in_flight ≤ s.limiter.max_concurrent
  pub counted : s.limiter.shed_total ≡ s.refused

-- What is left is one request shorter.
abbrev Shorter : ℕ → Option (List ℕ) → Type 0
Shorter n none = Unit
Shorter n (some ks) = suc (length ks) ≡ n

Shorter-cons :
    (n j : ℕ) (o : Option (List ℕ))
    → Shorter n o
    → Shorter (suc n) (elim o [ none ↦ none | some ks ↦ some (j ∷ ks) ])
Shorter-cons n j none h = tt
Shorter-cons n j (some ks) h = ap suc h

leave-Shorter : (i : ℕ) (js : List ℕ) → Shorter (length js) (leave i js)
leave-Shorter i [] = tt
leave-Shorter i (j ∷ js) =
    if_induction (Shorter (suc (length js))) (j == i) (λ _. refl)
      λ _. Shorter-cons (length js) j (leave i js) (leave-Shorter i js)

length-leave : (i : ℕ) (js ks : List ℕ) → leave i js ≡ some ks → suc (length ks) ≡ length js
length-leave i js ks h = subst (Shorter (length js)) h (leave-Shorter i js)

admit-IsBalanced : (i : ℕ) (s : Service) → IsBalanced s → IsBalanced (admit i (acquire s.limiter) s)
unfolding acquire
admit-IsBalanced i s b =
    if_induction (λ a. IsBalanced (admit i a s)) (leb s.limiter.max_concurrent s.limiter.in_flight)
      (λ full. record { slots = b.slots; bounded = b.bounded; counted = omega (arith, b.counted) })
      λ room. record {
        slots = omega (arith, b.slots);
        bounded = ground (arith, room);
        counted = b.counted;
      }

finish-IsBalanced :
    (i : ℕ) (s : Service) (o : Option (List ℕ))
    → leave i s.handling ≡ o
    → IsBalanced s
    → IsBalanced (finish o s)
unfolding release
finish-IsBalanced i s none e b = b
finish-IsBalanced i s (some ks) e b = record {
  slots = omega (arith, b.slots, length-leave i s.handling ks e);
  bounded = omega (arith, b.bounded);
  counted = b.counted;
}

serve-IsBalanced : (e : Event) (s : Service) → IsBalanced s → IsBalanced (serve e s)
unfolding serve
serve-IsBalanced (Event.arrives i true) s b = record {
  slots = b.slots;
  bounded = b.bounded;
  counted = b.counted;
}
serve-IsBalanced (Event.arrives i false) s b = admit-IsBalanced i s b
serve-IsBalanced (Event.finishes i) s b = finish-IsBalanced i s (leave i s.handling) refl b

-- In whatever order requests arrive and finish, the slots in use are those of the requests being
-- handled, they are at most max_concurrent, and shed_total is the number of refusals.
pub serve_all-IsBalanced :
    (es : List Event) (s : Service) → IsBalanced s → IsBalanced (serve_all es s)
unfolding serve_all
serve_all-IsBalanced [] s b = b
serve_all-IsBalanced (e ∷ es) s b = serve_all-IsBalanced es (serve e s) (serve-IsBalanced e s b)

pub new_service-IsBalanced : (n : ℕ) → IsBalanced (new_service n)
unfolding new_service
new_service-IsBalanced n = record { slots = refl; bounded = omega arith; counted = refl }
