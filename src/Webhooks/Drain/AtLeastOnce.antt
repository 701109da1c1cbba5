-- ===== src/Webhooks/Drain/AtLeastOnce.antt =====
-- A round of `_drain_one`, and the whole loop, move the cursor past handled events only.
use billcommons.Base.{
  ◌≤◌, ◌<◌, max, ℕ, ◌≡◌, refl, sym, ◌∙◌, subst, Bool, true, Option, none, some, List, [], ◌∷◌, leb,
  arith, any, false≢true, Bool-cases, inl, inr, filter, take, length, if_induction,
}
use billcommons.Webhooks.Subscription.Cursor.{last_seq-disable}
use billcommons.Webhooks.Drain.{
  Event, Round, Drain, Next, has_bill, last_seq_of, max_events_per_batch, fetch_batch,
  advance_last_seq, attempted, deliver, drain_round, drain_one, next,
}
use billcommons.Webhooks.Drain.Shrink.{halve-Fits}
use billcommons.Webhooks.Drain.Cursor.{
  due, handled, is_at, live_at, live-filter, due-window, at_last, Ascending,
}
use billcommons.Webhooks.Drain.Progress.{
  Progress, After, After-either, rows, found, row_bounds, due_in_rows,
}
use billcommons.Webhooks.Drain.Attempt.{After-deliver_batch}

last_some : (e : Event) (es : List Event) → last_seq_of (e ∷ es) ≡ none → ⊥
last_some e [] h = cc
last_some e (f ∷ es) h = last_some f es h

-- If no row is taken, none was found.
none_taken : (es : List Event) → last_seq_of (take max_events_per_batch es) ≡ none → es ≡ []
none_taken [] h = refl
none_taken (e ∷ es) h = absurd (last_some e (take 99 es) h)

module _ (size : List Event → Bool → ℕ) (supports : Bool) (store : List Event) (watermark : ℕ)
    (ordered : Ascending 0 store) where
  -- A fetch whose rows have lost their bills.
  without_bills :
      (s : Drain) (now m : ℕ)
      → filter has_bill (rows size supports store watermark ordered s.sub.last_seq) ≡ []
      → last_seq_of (rows size supports store watermark ordered s.sub.last_seq) ≡ some m
      → Progress size supports store watermark ordered s (record s {
        sub = attempted size supports store watermark now (advance_last_seq m s.sub);
      })
  unfolding attempted advance_last_seq
  without_bills s now m none_left last =
      let lo = s.sub.last_seq in
      let rs = rows size supports store watermark ordered lo in
      let at = at_last m rs last in
      let bounds = row_bounds size supports store watermark ordered lo m at in
      (
        omega arith,
        omega (arith, bounds),
        λ q d l u. absurd (
            false≢true (
              subst (λ es. any (is_at q) es ≡ true) none_left
                (live-filter q rs (
                  due_in_rows size supports store watermark ordered lo m at q d l
                    (omega (arith, bounds)))))),
        λ q h. h,
      )

  -- A fetch without rows.
  nothing_found :
      (s : Drain) (now : ℕ)
      → last_seq_of (rows size supports store watermark ordered s.sub.last_seq) ≡ none
      → Progress size supports store watermark ordered s (record s {
        sub = attempted size supports store watermark now (advance_last_seq watermark s.sub);
      })
  unfolding attempted advance_last_seq
  nothing_found s now no_last =
      let lo = s.sub.last_seq in
      (
        omega arith,
        omega arith,
        λ q d l u. absurd (
            false≢true (
              subst (λ es. any (live_at q) es ≡ true)
                (none_taken (found size supports store watermark ordered lo) no_last)
                (due-window lo watermark q store d l (omega arith)))),
        λ q h. h,
      )

  After-deliver :
      (r : Round) (events : List Event) (more : Bool) (raw : Option ℕ) (s : Drain)
      → events ≡ filter has_bill (rows size supports store watermark ordered s.sub.last_seq)
      → last_seq_of (rows size supports store watermark ordered s.sub.last_seq) ≡ raw
      → After size supports store watermark ordered s
          (deliver size supports store watermark r events more raw s)
  unfolding deliver
  After-deliver r [] more none s es raw = nothing_found s r.now raw
  After-deliver r [] more (some m) s es raw =
      After-either size supports store watermark ordered more s _
        (without_bills s r.now m (sym es) raw)
  After-deliver r (e ∷ es) more raw s all last =
      let fits =
        halve-Fits size supports store watermark (length (e ∷ es)) (e ∷ es) more (omega arith)
          (omega arith) in
      After-deliver_batch size supports store watermark ordered s _ fits.0 (fits.1 ∙ all) fits.2 r _

  After-round :
      (r : Round) (s : Drain)
      → After size supports store watermark ordered s
          (drain_round size supports store watermark r s)
  unfolding drain_round fetch_batch attempted
  After-round r s =
      if_induction (After size supports store watermark ordered s) r.scope_known
        (λ _. After-deliver r _ _ _ s refl refl)
        λ _. (
          omega (arith, last_seq-disable "unknown_scope" r.now supports s.sub),
          omega (arith, last_seq-disable "unknown_scope" r.now supports s.sub),
          λ q d l u. absurd (omega (arith, last_seq-disable "unknown_scope" r.now supports s.sub)),
          λ q h. h,
        )

  chain :
      (s t u : Drain)
      → Progress size supports store watermark ordered s t
      → Progress size supports store watermark ordered t u
      → Progress size supports store watermark ordered s u
  chain s t u f g = (
    omega (arith, f, g),
    omega (arith, f.1, g.1),
    λ q d l h. elim (Bool-cases (leb q t.sub.last_seq)) [
      | inl passed ↦ g.3 q (f.2 q d l (ground (arith, passed)))
      | inr ahead ↦ g.2 q d (ground (arith, ahead)) h
    ],
    λ q h. g.3 q (f.3 q h),
  )

  drain_next :
      (rs : List Round) (s : Drain) (n : Next)
      → After size supports store watermark ordered s n
      → ((s' : Drain)
          → Progress size supports store watermark ordered s'
              (drain_one size supports store watermark rs s').0)
      → Progress size supports store watermark ordered s
          (next size supports store watermark (drain_one size supports store watermark rs) n).0
  unfolding next
  drain_next rs s (Next.stop failed s') step later = step
  drain_next rs s (Next.again s') step later =
      chain s s' (drain_one size supports store watermark rs s').0 step (later s')

  progress :
      (rounds : List Round) (s : Drain)
      → Progress size supports store watermark ordered s
          (drain_one size supports store watermark rounds s).0
  unfolding drain_one
  progress [] s = (omega arith, omega arith, λ q d l u. absurd (omega arith), λ q h. h)
  progress (r ∷ rs) s =
      drain_next rs s (drain_round size supports store watermark r s) (After-round r s)
        (progress rs)

  -- In a table in the order of `seq`, whatever the receiver answers and however the deadline cuts
  -- the loop, the cursor does not move back, and does not pass the watermark unless it had.
  pub cursor_bounds :
      (rounds : List Round) (s : Drain)
      → (s.sub.last_seq ≤ (drain_one size supports store watermark rounds s).0.sub.last_seq)
        × ((drain_one size supports store watermark rounds s).0.sub.last_seq
            ≤ max s.sub.last_seq watermark)
  cursor_bounds rounds s = let p = progress rounds s in (p.0, p.1)

  -- In a table in the order of seq, whatever the receiver answers and however the deadline cuts the
  -- loop, each event in scope and with its bill that the cursor passes stands in a row of the
  -- delivery log that the receiver answered with a 2xx, or is the only event of a row logged as too
  -- large, and its body is over the cap.
  pub at_least_once :
      (rounds : List Round) (s : Drain) (q : ℕ)
      → due q store ≡ true
      → s.sub.last_seq < q
      → q ≤ (drain_one size supports store watermark rounds s).0.sub.last_seq
      → handled size q (drain_one size supports store watermark rounds s).0.log ≡ true
  at_least_once rounds s q d l u = (progress rounds s).2 q d l u
