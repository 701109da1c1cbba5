-- ===== src/RateLimit/Counter/Retry.antt =====
-- The Retry-After of a refusal.
use billcommons.Base.{
  ℕ, ◌+◌, ◌-◌, ◌*◌, ◌≤◌, ◌<◌, String, ◌≡◌, false, none, some, arith, Option-cases, inl, inr, max,
  ltb, leb,
}
use native.Mathlib.Nat.{le_refl}
use billcommons.Base.Dict.{IsUnique}
use billcommons.RateLimit.Counter.{
  Bucket, Counter, existing, verdict, peek, ceil_seconds, ticks_per_second,
}
use billcommons.RateLimit.Counter.Verdicts.{existing-sweep, existing-peek}
use billcommons.RateLimit.Counter.Charges.{sweep-SameLimits, peek-SameLimits, existing_lem}
use billcommons.RateLimit.Counter.Invariant.{IsValid, peek-IsValid}

-- The hits in the window that runs at `now`.
abbrev pub spent : ℕ → String → Counter → ℕ
spent now key c = elim (existing now key c) [ none ↦ 0 | some b ↦ b.count ]

module _ (now : ℕ) (key : String) (c : Counter) (u : IsUnique c.buckets) where
  pub peek-allowed : (peek now key c).1.allowed ≡ leb (spent now key c + 1) c.limit
  unfolding peek verdict
  peek-allowed = ground (arith, existing-sweep (le_refl now) key c u, sweep-SameLimits now c)

  peek-retry_after :
      (b : Bucket)
      → existing now key c ≡ some b
      → (peek now key c).1.allowed ≡ false
      → (peek now key c).1.retry_after ≡ max 1 (ceil_seconds (c.window - (now - b.start)))
  unfolding peek verdict
  peek-retry_after b e h =
      ground (arith, existing-sweep (le_refl now) key c u, sweep-SameLimits now c)

wait_exact :
    (window elapsed s : ℕ)
    → elapsed < window
    → ltb (elapsed + s * ticks_per_second) window ≡ ltb s (max 1 (ceil_seconds (window - elapsed)))
wait_exact window elapsed s h = ground arith

-- A refusal comes from a window that runs.
refused-existing :
    (now : ℕ) (key : String) (c : Counter)
    → IsUnique c.buckets
    → 0 < c.limit
    → (peek now key c).1.allowed ≡ false
    → (b : Bucket) × (existing now key c ≡ some b) × (c.limit ≤ b.count)
refused-existing now key c u pos h = elim (Option-cases (existing now key c)) [
  | inl e ↦ absurd (ground (arith, peek-allowed now key c u))
  | inr (b, e) ↦ (b, e, ground (arith, peek-allowed now key c u))
]

module _ (now : ℕ) (key : String) (c : Counter) (v : IsValid now c) (pos : 0 < c.limit)
    (refused : (peek now key c).1.allowed ≡ false) where
  -- A key that is refused is admitted after `s` whole seconds exactly if the Retry-After is at most
  -- `s`, where no other request comes between.
  pub retry_after_exact :
      (s : ℕ)
      → (peek (now + s * ticks_per_second) key (peek now key c).0).1.allowed
        ≡ leb (peek now key c).1.retry_after s
  retry_after_exact s =
      let (b, e, full) = refused-existing now key c v.unique pos refused in
      let t = now + s * ticks_per_second in
      let c' = (peek now key c).0 in
      let w = peek-IsValid (le_refl now) key c v in
      ground (
        arith,
        peek-allowed t key c' w.unique,
        peek-retry_after now key c v.unique b e refused,
        existing-peek {now = now} {t = t} (omega arith) key c v.unique key,
        peek-SameLimits now key c,
        existing_lem now key c,
        existing_lem t key c,
        wait_exact c.window (now - b.start) s,
        v.started key b,
      )
