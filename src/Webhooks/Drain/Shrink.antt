-- ===== src/Webhooks/Drain/Shrink.antt =====
-- The halving loop ends with a batch that fits, or with a single event.
use billcommons.Base.{
  ℕ, zero, suc, ◌/◌, ◌≤◌, ◌<◌, max, ◌≡◌, sym, ◌∙◌, ap, Bool, true, List, [], ◌++◌, ◌&&◌, ◌⊎◌, ltb,
  arith, take, drop, length, length-take, take-append-drop, append_assoc, append_nil, if_induction,
}
use billcommons.Webhooks.Drain.{Event, halve, too_large, max_body_bytes}

module _ (size : List Event → Bool → ℕ) (supports : Bool) (store : List Event) (watermark : ℕ) where
  -- What is kept is a first part that is not empty, and it fits or is a single event.
  abbrev pub Fits : List Event → List Event × Bool → Type 0
  Fits events out =
      (rest : List Event) × (out.0 ++ rest ≡ events)
      × (0 < length out.0)
      × ((size out.0 out.1 ≤ max_body_bytes) ⊎ (length out.0 ≡ 1))

  Fits-part :
      (n : ℕ) (events : List Event) (out : List Event × Bool)
      → Fits (take n events) out
      → Fits events out
  Fits-part n events (kept, more) (rest, whole, some_kept, ok) = (
    rest ++ drop n events,
    sym (append_assoc kept rest (drop n events))
        ∙ ap (λ l. l ++ drop n events) whole
        ∙ take-append-drop n events,
    some_kept,
    ok,
  )

  -- With as much fuel as events the halving loop keeps a first part of the batch that is not empty
  -- and is within the cap on the body unless it is a single event.
  pub halve-Fits :
      (fuel : ℕ) (events : List Event) (more : Bool)
      → length events ≤ fuel
      → 0 < length events
      → Fits events (halve size supports store watermark fuel events more)
  unfolding halve
  halve-Fits zero events more le ne = absurd (omega arith)
  halve-Fits (suc fuel) events more le ne =
      let half = max (length events / 2) 1 in
      if_induction (Fits events)
        (too_large size supports store watermark events more && ltb 1 (length events))
        (λ over. Fits-part half events _ (
          halve-Fits fuel (take half events) true (ground (arith, length-take half events))
            (omega (arith, length-take half events))))
        λ fits. ([], append_nil events, ne, ground arith)
