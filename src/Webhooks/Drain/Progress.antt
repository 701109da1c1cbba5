-- ===== src/Webhooks/Drain/Progress.antt =====
-- A round of `_drain_one`, and the whole loop, move the cursor past handled events only.
use billcommons.Base.{
  ℕ, ◌≤◌, ◌<◌, max, ◌≡◌, sym, subst, Bool, true, false, some, List, ◌++◌, ◌&&◌, arith, any, filter,
  take, drop, take-append-drop,
}
use billcommons.Webhooks.Subscription.{Subscription}
use billcommons.Webhooks.Drain.{
  Event, Delivery, Drain, Next, has_bill, in_window, last_seq_of, max_events_per_batch,
  stopped_or_again,
}
use billcommons.Webhooks.Drain.Cursor.{
  is_at, due, live_at, accepted, handled, Ascending, any-append, before, Ascending-filter,
  Ascending-prefix, at_last, live→at, at-filter, live-filter, due-window, window_bounds,
}

-- Something that holds of one of two parts, and not of the second.
left_part {ℓ} :
    {A : Type ℓ} (p : A → Bool) (xs ys : List A)
    → any p (xs ++ ys) ≡ true
    → (any p ys ≡ true → ⊥)
    → any p xs ≡ true
left_part p xs ys h none_there = ground (arith, any-append p xs ys, h, none_there)

left_side {ℓ} :
    {A : Type ℓ} (p : A → Bool) (xs ys : List A) → any p xs ≡ true → any p (xs ++ ys) ≡ true
left_side p xs ys h = ground (arith, any-append p xs ys)

module _ (size : List Event → Bool → ℕ) (supports : Bool) (store : List Event) (watermark : ℕ)
    (ordered : Ascending 0 store) where
  -- What a step from s to s' keeps.
  abbrev pub Progress : Drain → Drain → Type 0
  Progress s s' =
      (s.sub.last_seq ≤ s'.sub.last_seq)
      × (s'.sub.last_seq ≤ max s.sub.last_seq watermark)
      × ((q : ℕ)
          → due q store ≡ true
          → s.sub.last_seq < q
          → q ≤ s'.sub.last_seq
          → handled size q s'.log ≡ true)
      × ((q : ℕ) → handled size q s.log ≡ true → handled size q s'.log ≡ true)

  abbrev pub After : Drain → Next → Type 0
  After s (Next.stop failed s') = Progress s s'
  After s (Next.again s') = Progress s s'

  pub After-either :
      (more : Bool) (s s' : Drain)
      → Progress s s'
      → After s (stopped_or_again size supports store watermark more s')
  unfolding stopped_or_again
  After-either true s s' h = h
  After-either false s s' h = h

  -- A step that leaves the cursor, and logs an attempt.
  pub still :
      (s : Drain) (sub : Subscription) (rows : List Delivery)
      → sub.last_seq ≡ s.sub.last_seq
      → Progress s (record s { sub = sub; log = s.log ++ rows })
  still s sub rows same = (
    omega (arith, same),
    omega (arith, same),
    λ q d l u. absurd (omega (arith, same)),
    λ q h. ground (
      arith,
      any-append (λ (row : Delivery). accepted size row && any (is_at q) row.events) s.log rows,
    ),
  )

  abbrev pub found : ℕ → List Event
  found lo = filter (in_window lo watermark) store

  abbrev pub rows : ℕ → List Event
  rows lo = take max_events_per_batch (found lo)

  parts_ascend : (lo : ℕ) → Ascending 0 (rows lo ++ drop max_events_per_batch (found lo))
  parts_ascend lo =
      subst (Ascending 0) (sym (take-append-drop max_events_per_batch (found lo)))
        (Ascending-filter (in_window lo watermark) 0 store ordered)

  -- A row numbered m of a batch.
  module _ (lo m : ℕ) (in_rows : any (is_at m) (rows lo) ≡ true) where
    pub row_bounds : (lo < m) × (m ≤ watermark)
    row_bounds = window_bounds lo watermark m store (
        subst (λ l. any (is_at m) l ≡ true) (take-append-drop max_events_per_batch (found lo))
          (left_side (is_at m) (rows lo) (drop max_events_per_batch (found lo)) in_rows))

    pub due_in_rows :
        (q : ℕ) → due q store ≡ true → lo < q → q ≤ m → any (live_at q) (rows lo) ≡ true
    due_in_rows q d l u =
        let dropped = drop max_events_per_batch (found lo) in
        left_part (live_at q) (rows lo) dropped
          (subst (λ l. any (live_at q) l ≡ true)
            (sym (take-append-drop max_events_per_batch (found lo)))
            (due-window lo watermark q store d l (omega (arith, row_bounds))))
          λ h. absurd (
            omega (
              arith,
              before 0 m q (rows lo) dropped (parts_ascend lo) in_rows (live→at q dropped h),
            ))

  -- A first part of the events of a batch, and the number of its last event.
  module _ (lo : ℕ) (kept rest : List Event) (m : ℕ)
      (split : kept ++ rest ≡ filter has_bill (rows lo)) (last : last_seq_of kept ≡ some m) where
    in_kept : any (is_at m) kept ≡ true
    in_kept = at_last m kept last

    pub kept_in_rows : any (is_at m) (rows lo) ≡ true
    kept_in_rows =
        at-filter has_bill m (rows lo)
          (subst (λ l. any (is_at m) l ≡ true) split (left_side (is_at m) kept rest in_kept))

    kept_ascend : Ascending 0 (kept ++ rest)
    kept_ascend = subst (Ascending 0) (sym split) (
        Ascending-filter has_bill 0 (rows lo)
          (Ascending-prefix 0 (rows lo) (drop max_events_per_batch (found lo)) (parts_ascend lo)))

    pub kept_all : (q : ℕ) → due q store ≡ true → lo < q → q ≤ m → any (is_at q) kept ≡ true
    kept_all q d l u =
        left_part (is_at q) kept rest
          (subst (λ l. any (is_at q) l ≡ true) (sym split)
            (live-filter q (rows lo) (due_in_rows lo m kept_in_rows q d l u)))
          λ h. absurd (omega (arith, before 0 m q kept rest kept_ascend in_kept h))
