-- ===== src/RateLimit/Counter/Admission.antt =====
-- How many hits of one window are admitted.
use billcommons.Base.{
  ℕ, ◌+◌, ◌-◌, ◌≤◌, ◌<◌, String, ◌≡◌, some, arith, List, [], ◌∷◌, ◌&&◌, length, min, leb, str_eq,
  eq_iff, if◌then◌else◌, subst, sym,
}
use native.Mathlib.Nat.{le_refl}
use billcommons.Base.Dict.{IsUnique, length-set}
use billcommons.RateLimit.Counter.{Bucket, Counter, existing, sweep, bumped, allow}
use billcommons.RateLimit.Counter.Verdicts.{peek-eq-allow}
use billcommons.RateLimit.Counter.Charges.{
  allow-SameLimits, existing_lem, existing-allow, allow_with_room, length-sweep, allow-IsUnique,
}
use billcommons.RateLimit.Counter.Retry.{spent, peek-allowed}

-- The requests that reach a counter: the reading of the clock, and the key.
abbrev pub Hits : Type 0
Hits = List (ℕ × String)

pub admitted : String → Counter → Hits → ℕ
admitted key c [] = 0
admitted key c ((t, k) ∷ es) =
    let rest = admitted key (allow t k c).0 es in
    if str_eq k key && (allow t k c).1.allowed then rest + 1 else rest

pub hits_of : String → Hits → ℕ
hits_of key [] = 0
hits_of key ((t, k) ∷ es) = let rest = hits_of key es in if str_eq k key then rest + 1 else rest

-- The readings do not go back, and all lie in the window that began at `start`.
abbrev pub Within : ℕ → ℕ → ℕ → Hits → Type 0
Within now start window [] = Unit
Within now start window ((t, k) ∷ es) = (now ≤ t) × (t - start < window) × Within t start window es

module _ (t : ℕ) (k : String) (c : Counter) (u : IsUnique c.buckets) where
  allow-allowed : (allow t k c).1.allowed ≡ leb (spent t k c + 1) c.limit
  allow-allowed = ground (arith, peek-eq-allow t k c, peek-allowed t k c u)

  length-allow_step :
      length c.buckets < c.max_keys → length (allow t k c).0.buckets ≤ length c.buckets + 1
  length-allow_step room = ground (
    arith,
    allow_with_room t k c room,
    length-set k (bumped t (existing t k (sweep t c))) (sweep t c).buckets,
    length-sweep t c,
  )

  module _ {start : ℕ} (key : String) (inside : t - start < c.window) where
    -- One hit in a running window
    existing-step :
        (n : ℕ)
        → length c.buckets < c.max_keys
        → existing t key c ≡ some (record { start = start; count = n })
        → existing t key (allow t k c).0
          ≡ some (record { start = start; count = if str_eq k key then n + 1 else n })
    existing-step n room e = ground (arith, existing-allow (le_refl t) k key c u room, eq_iff k key)

existing-later :
    (now t : ℕ) (key : String) (c : Counter) (b : Bucket)
    → existing now key c ≡ some b
    → t - b.start < c.window
    → existing t key c ≡ some b
existing-later now t key c b e h = ground (arith, existing_lem now key c, existing_lem t key c)

-- Of the hits of a key in its running window exactly those are admitted that the limit leaves, as
-- long as no bucket has to be evicted, whatever other keys are hit in between.
pub admitted_exact :
    (now : ℕ) (key : String) (c : Counter) (start n : ℕ) (es : Hits)
    → IsUnique c.buckets
    → existing now key c ≡ some (record { start = start; count = n })
    → Within now start c.window es
    → length c.buckets + length es ≤ c.max_keys
    → admitted key c es ≡ min (c.limit - n) (hits_of key es)
unfolding admitted hits_of
admitted_exact now key c start n [] u e w room = omega arith
admitted_exact now key c start n ((t, k) ∷ es) u e w room =
    let e' = existing-later now t key c (record { start = start; count = n }) e w.1 in
    let c' = (allow t k c).0 in
    let same = allow-SameLimits t k c in
    let n' = if str_eq k key then n + 1 else n in
    let ih =
      admitted_exact t key c' start n' es (allow-IsUnique t k c u)
        (existing-step t k c u key w.1 n (omega arith) e')
        (subst (λ x. Within t start x es) (sym same.window) w.2)
        (omega (arith, length-allow_step t k c u (omega arith), same.max_keys)) in
    ground (arith, ih, allow-allowed t k c u, same.limit, eq_iff k key)
