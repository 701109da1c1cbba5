-- ===== src/TokenBucket/Retry.antt =====
-- The Retry-After header of the MCP server is long enough.
use native.Mathlib.Nat.{lt-div-mul-add}
use billcommons.Base.{
  ℕ, ◌+◌, ◌-◌, ◌*◌, ◌/◌, ◌≤◌, ◌<◌, min, max, ◌≡◌, refl, subst, sym, ◌∙◌, Bool, true, false, leb,
  ◌==◌, if_induction, arith, false≢true, Bool-cases, inl, inr,
}
use billcommons.TokenBucket.{TokenBucket, token, try_consume, retry_after_header}

abbrev refilled : ℕ → TokenBucket → ℕ
refilled t b = min b.capacity (b.tokens + (t - b.last_refill) * b.rate)

admits :
    (amount t : ℕ) (b : TokenBucket) → amount ≤ refilled t b → (try_consume amount t b).1 ≡ true
unfolding try_consume
admits amount t b h =
    if_induction (λ (p : TokenBucket × Bool × ℕ). p.1 ≡ true) (leb amount (refilled t b))
      (λ _. refl) λ short. absurd (ground (arith, h, short))

refuses :
    (amount t : ℕ) (b : TokenBucket)
    → (try_consume amount t b).1 ≡ false
    → (try_consume amount t b
        ≡ (record b { tokens = refilled t b; last_refill = t }, false, amount - refilled t b))
      × (refilled t b < amount)
unfolding try_consume
refuses amount t b no_token = elim (Bool-cases (leb amount (refilled t b))) [
  | inl enough ↦ absurd (false≢true (sym no_token ∙ rw enough refl))
  | inr short ↦ (rw short refl, ground (arith, short))
]

whole_seconds :
    (x d rate : ℕ)
    → d < x * (rate * 1000000000) + rate * 1000000000
    → d ≤ max 1 (x + 1) * 1000000000 * rate
whole_seconds x d rate h = grind (arith, h)

header_covers :
    (rate deficit : ℕ) → 0 < rate → deficit ≤ retry_after_header rate deficit * 1000000000 * rate
unfolding retry_after_header
header_covers rate deficit pos =
    if_induction (λ h. deficit ≤ h * 1000000000 * rate) (rate == 0)
      (λ none_left. absurd (ground (arith, pos, none_left)))
      λ some_rate.
        let x = deficit / (rate * 1000000000) in
        let m : deficit < x * (rate * 1000000000) + rate * 1000000000 =
          lt-div-mul-add (omega (arith, pos)) in
        whole_seconds x deficit rate m

refilled_enough :
    (capacity held elapsed wait rate : ℕ)
    → token ≤ capacity
    → elapsed ≡ wait
    → token ≤ held + wait * rate
    → token ≤ min capacity (held + elapsed * rate)
refilled_enough capacity held elapsed wait rate h same enough =
    subst (λ x. token ≤ min capacity (held + x * rate)) (sym same) (omega (arith, h, enough))

-- A client that the MCP server refuses is admitted after the seconds of the Retry-After header,
-- where the bucket can hold a token, is refilled at all, and no other request comes between.
pub retry_after_header-enough :
    (t : ℕ) (b : TokenBucket)
    → 0 < b.rate
    → token ≤ b.capacity
    → (try_consume token t b).1 ≡ false
    → (try_consume token
        (t + retry_after_header b.rate (try_consume token t b).2 * 1000000000)
        (try_consume token t b).0).1
      ≡ true
retry_after_header-enough t b pos holds refused =
    let (state, missing) = refuses token t b refused in
    let deficit = token - refilled t b in
    let wait = retry_after_header b.rate deficit * 1000000000 in
    subst
      (λ (p : TokenBucket × Bool × ℕ).
        (try_consume token (t + retry_after_header b.rate p.2 * 1000000000) p.0).1 ≡ true)
      (sym state)
      (admits token (t + wait) (record b { tokens = refilled t b; last_refill = t })
        (refilled_enough b.capacity (refilled t b) ((t + wait) - t) wait b.rate holds (omega arith)
          (omega (arith, header_covers b.rate deficit pos))))
