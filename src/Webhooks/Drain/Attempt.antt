-- ===== src/Webhooks/Drain/Attempt.antt =====
-- One delivery attempt of `_drain_one` moves the cursor past the events it logged as handled, or
-- not at all.
use billcommons.Base.{
  ℕ, ◌+◌, ◌<◌, max, ◌≡◌, refl, sym, ◌∙◌, subst, Bool, true, Option, none, some, String, List, [],
  ◌∷◌, ◌++◌, ◌&&◌, ◌==◌, leb, ltb, false, arith, any, filter, take, length, if◌then◌else◌,
  if_induction,
}
use billcommons.Webhooks.Subscription.{
  Subscription, ℤ, classify_http_status, record_skip, record_success, fail_with_response,
  fail_without_response, disable, oversized_skip_disable_after,
}
use billcommons.Webhooks.Subscription.Cursor.{
  last_seq-disable, last_seq-with_response, last_seq-without_response,
}
use billcommons.Webhooks.Drain.{
  Event, Delivery, Outcome, Round, Drain, has_bill, in_window, last_seq_of, max_events_per_batch,
  max_body_bytes, advance_last_seq, advance_to, skip, answered, post, deliver_batch,
}
use billcommons.Webhooks.Drain.Cursor.{is_at, is_skipped, accepted, handled, Ascending, any-append}
use billcommons.Webhooks.Drain.Progress.{
  Progress, After, After-either, still, rows, row_bounds, kept_in_rows, kept_all,
}

last_seq-advance_to :
    (o : Option ℕ) (m : ℕ) (sub : Subscription)
    → o ≡ some m
    → (advance_to o sub).last_seq ≡ max sub.last_seq m
unfolding advance_to advance_last_seq
last_seq-advance_to none m sub h = ground arith
last_seq-advance_to (some q) m sub h = ground arith

last_exists : (es : List Event) → 0 < length es → (m : ℕ) × (last_seq_of es ≡ some m)
last_exists [] h = absurd (omega arith)
last_exists (e ∷ []) h = (e.seq, refl)
last_exists (e ∷ f ∷ es) h = last_exists (f ∷ es) (omega arith)

handled-logged :
    (size : List Event → Bool → ℕ) (q : ℕ) (log : List Delivery) (row : Delivery)
    → accepted size row ≡ true
    → any (is_at q) row.events ≡ true
    → handled size q (log ++ row ∷ []) ≡ true
handled-logged size q log row ok at =
    ground (
      arith,
      any-append (λ (r : Delivery). accepted size r && any (is_at q) r.events) log (row ∷ []),
    )

handled-append :
    (size : List Event → Bool → ℕ) (q : ℕ) (log rows : List Delivery)
    → handled size q log ≡ true
    → handled size q (log ++ rows) ≡ true
handled-append size q log rows h =
    ground
      (arith, any-append (λ (r : Delivery). accepted size r && any (is_at q) r.events) log rows)

-- No other answer is without an error.
classified_2xx :
    (status : ℕ)
    → (classify_http_status status).0 ≡ none
    → (leb 200 status && ltb status 300) ≡ true
unfolding classify_http_status
classified_2xx status h = ground (arith, h)

over_cap :
    (size : List Event → Bool → ℕ) (events : List Event) (more : Bool)
    → (length events == 1 && ltb max_body_bytes (size events more)) ≡ true
    → is_skipped size (some "payload_too_large") events ≡ true
over_cap size events true h = ground (arith, h)
over_cap size events false h = ground (arith, h)

module _ (size : List Event → Bool → ℕ) (supports : Bool) (store : List Event) (watermark : ℕ)
    (ordered : Ascending 0 store) where
  module _ (s : Drain) (kept rest : List Event)
      (split : kept ++ rest
        ≡ filter has_bill
            (take max_events_per_batch (filter (in_window s.sub.last_seq watermark) store)))
      (some_kept : 0 < length kept) where
    -- The cursor moves to the last event of a row that is accepted.
    moved :
        (s' : Drain) (row : Delivery)
        → row.events ≡ kept
        → accepted size row ≡ true
        → s'.log ≡ s.log ++ row ∷ []
        → ((m : ℕ) → last_seq_of kept ≡ some m → s'.sub.last_seq ≡ max s.sub.last_seq m)
        → Progress size supports store watermark ordered s s'
    moved s' row all ok logs moves =
        let (m, last) = last_exists kept some_kept in
        let bounds = row_bounds size supports store watermark ordered s.sub.last_seq m (
          kept_in_rows size supports store watermark ordered s.sub.last_seq kept rest m split
            last) in
        (
          omega (arith, moves m last),
          omega (arith, moves m last, bounds),
          λ q d l u.
              subst (λ log. handled size q log ≡ true) (sym logs)
                (handled-logged size q s.log row ok (
                  subst (λ es. any (is_at q) es ≡ true) (sym all)
                    (kept_all size supports store watermark ordered s.sub.last_seq kept rest m split
                      last q d l (omega (arith, moves m last, bounds))))),
          λ q h.
              subst (λ log. handled size q log ≡ true) (sym logs)
                (handled-append size q s.log (row ∷ []) h),
        )

    After-skip :
        (r : Round) (more : Bool)
        → (length kept == 1 && ltb max_body_bytes (size kept more)) ≡ true
        → After size supports store watermark ordered s
            (skip size supports store watermark r kept more s)
    unfolding skip
    After-skip r more alone =
        let skipped = record_skip "payload_too_large" r.now (advance_to (last_seq_of kept) s.sub) in
        let disabled = leb oversized_skip_disable_after skipped.consecutive_failures in
        let sub =
          if disabled then disable "payload_too_large" r.now supports skipped else skipped in
        let row : Delivery = record {
          events = kept;
          status = none;
          error = some "payload_too_large";
        } in
        let s' : Drain = record s { sub = sub; log = s.log ++ row ∷ [] } in
        let moves : (m : ℕ) → last_seq_of kept ≡ some m → sub.last_seq ≡ max s.sub.last_seq m =
          λ m last.
            if_induction (λ (x : Subscription). x.last_seq ≡ max s.sub.last_seq m) disabled
              (λ _.
                last_seq-disable "payload_too_large" r.now supports skipped
                ∙ (unfold record_skip in last_seq-advance_to (last_seq_of kept) m s.sub last))
              (λ _. unfold record_skip in last_seq-advance_to (last_seq_of kept) m s.sub last) in
        let step = moved s' row refl (over_cap size kept more alone) refl moves in
        if_induction (After size supports store watermark ordered s) disabled (λ _. step)
          λ _. After-either size supports store watermark ordered more s s' step

    After-answered :
        (error : Option String) (status : ℕ) (retry : Option ℤ) (r : Round) (more : Bool)
        → (error ≡ none → (leb 200 status && ltb status 300) ≡ true)
        → After size supports store watermark ordered s
            (answered size supports store watermark error status retry r kept more s)
    unfolding answered
    After-answered none status retry r more ok =
        let row : Delivery = record { events = kept; status = some status; error = none } in
        let s' : Drain = record s {
          sub = advance_to (last_seq_of kept) (record_success status r.post_now s.sub);
          log = s.log ++ row ∷ [];
          sent = s.sent + length kept;
        } in
        After-either size supports store watermark ordered more s s' (
          moved s' row refl (ground (arith, ok refl)) refl λ m last.
            last_seq-advance_to (last_seq_of kept) m (record_success status r.post_now s.sub) last
            ∙ (unfold record_success in refl))
    After-answered (some error) status retry r more ok =
        still size supports store watermark ordered s
          (fail_with_response status retry r.factor r.post_now supports s.sub)
          (record { events = kept; status = some status; error = some error } ∷ [])
          (last_seq-with_response status retry r.factor r.post_now supports s.sub)

    After-post :
        (o : Outcome) (r : Round) (more : Bool)
        → After size supports store watermark ordered s
            (post size supports store watermark o r kept more s)
    unfolding post
    After-post (Outcome.response status retry) r more =
        After-answered (classify_http_status status).0 status retry r more (classified_2xx status)
    After-post (Outcome.transport_failure error) r more =
        still size supports store watermark ordered s
          (fail_without_response error r.factor r.post_now supports s.sub)
          (record { events = kept; status = none; error = some error } ∷ [])
          (last_seq-without_response error r.factor r.post_now supports s.sub)

    pub After-deliver_batch :
        (r : Round) (more : Bool)
        → After size supports store watermark ordered s
            (deliver_batch size supports store watermark r kept more s)
    unfolding deliver_batch
    After-deliver_batch r more =
        if_induction (After size supports store watermark ordered s) _ (After-skip r more)
          λ _. After-post r.outcome r more
