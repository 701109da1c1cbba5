-- ===== src/Webhooks/Drain.antt =====
-- `_drain_one` of dispatch_webhooks.py: one subscription's events are fetched in batches and posted
-- until none is left, a POST fails, or the deadline passes. A list of rounds stands for the
-- iterations that the deadline allows; each round brings the readings of the clock, the answer of
-- the receiver, and whether the scope of the subscription is still recognised. The log holds the
-- `WebhookDelivery` rows with the events of their bodies.
pub mod Shrink
pub mod Cursor
pub mod Progress
pub mod Attempt
pub mod AtLeastOnce
mod Examples
use billcommons.Base.{
  ℕ, zero, suc, ◌+◌, ◌*◌, ◌/◌, max, String, Bool, true, false, Option, none, some, List, [], ◌∷◌,
  ◌++◌, ◌&&◌, ◌==◌, ltb, leb, not, filter, take, length, if◌then◌else◌,
}
use billcommons.Webhooks.Subscription.{
  Subscription, ℤ, classify_http_status, record_skip, record_success, disable, fail_with_response,
  fail_without_response, oversized_skip_disable_after,
}

-- A row of `bill_events`, in the scope of the subscription or not, with its bill still there or not.
pub record Event : Type 0 where
  pub seq : ℕ
  pub in_scope : Bool
  pub has_bill : Bool

pub record Delivery : Type 0 where
  pub events : List Event
  pub status : Option ℕ
  pub error : Option String

pub data Outcome : Type 0 where
  response : ℕ → Option ℤ → Outcome
  transport_failure : String → Outcome

pub record Round : Type 0 where
  pub now : ℕ
  pub post_now : ℕ
  pub scope_known : Bool
  pub outcome : Outcome
  pub factor : ℕ

pub record Drain : Type 0 where
  pub sub : Subscription
  pub log : List Delivery
  pub sent : ℕ

abbrev pub max_events_per_batch : ℕ
max_events_per_batch = 100

abbrev pub max_body_bytes : ℕ
max_body_bytes = 512 * 1024

-- BillEvent.seq > sub.last_seq, BillEvent.seq <= watermark_seq, and the scope
abbrev pub in_window : ℕ → ℕ → Event → Bool
in_window last_seq watermark e = ltb last_seq e.seq && (leb e.seq watermark && e.in_scope)

abbrev pub has_bill : Event → Bool
has_bill e = e.has_bill

-- rows[-1].seq
abbrev pub last_seq_of : List Event → Option ℕ
last_seq_of [] = none
last_seq_of (e ∷ []) = some e.seq
last_seq_of (e ∷ f ∷ es) = last_seq_of (f ∷ es)

pub record Batch : Type 0 where
  pub events : List Event
  pub has_more : Bool
  pub last_raw_seq : Option ℕ

-- `store` is the table in the order of `seq`.
unfoldable pub fetch_batch : List Event → ℕ → ℕ → Batch
fetch_batch store watermark last_seq =
    let found = filter (in_window last_seq watermark) store in
    let rows = take max_events_per_batch found in
    record {
      events = filter has_bill rows;
      has_more = ltb max_events_per_batch (length found);
      last_raw_seq = last_seq_of rows;
    }

unfoldable pub advance_last_seq : ℕ → Subscription → Subscription
advance_last_seq new_value sub = record sub { last_seq = max sub.last_seq new_value }

pub advance_to : Option ℕ → Subscription → Subscription
advance_to none sub = sub
advance_to (some q) sub = advance_last_seq q sub

-- What an iteration does next: return the flag `failed`, or go on.
pub data Next : Type 0 where
  stop : Bool → Drain → Next
  again : Drain → Next

-- `size events has_more` is the length of the body of a batch.
module _ (size : List Event → Bool → ℕ) (supports : Bool) (store : List Event) (watermark : ℕ) where
  abbrev too_large : List Event → Bool → Bool
  too_large events more = ltb max_body_bytes (size events more)

  -- The halving loop. The length of the batch is enough fuel: `Shrink.halve-Fits`.
  unfoldable pub halve : ℕ → List Event → Bool → List Event × Bool
  halve zero events more = (events, more)
  halve (suc fuel) events more =
      let rest = halve fuel (take (max (length events / 2) 1) events) true in
      if too_large events more && ltb 1 (length events) then rest else (events, more)

  abbrev pub logged : List Event → Option ℕ → Option String → Drain → Drain
  logged events status error s = record s {
    log = s.log ++ record { events = events; status = status; error = error } ∷ [];
  }

  pub stopped_or_again : Bool → Drain → Next
  stopped_or_again more s = if more then Next.again s else Next.stop false s

  -- A single event that is over the cap.
  pub skip : Round → List Event → Bool → Drain → Next
  unfolding stopped_or_again advance_to
  skip r events more s =
      let skipped = record_skip "payload_too_large" r.now (advance_to (last_seq_of events) s.sub) in
      let disabled = leb oversized_skip_disable_after skipped.consecutive_failures in
      let sub = if disabled then disable "payload_too_large" r.now supports skipped else skipped in
      let s' = logged events none (some "payload_too_large") (record s { sub = sub }) in
      if disabled then Next.stop true s' else stopped_or_again more s'

  pub answered : Option String → ℕ → Option ℤ → Round → List Event → Bool → Drain → Next
  unfolding stopped_or_again advance_to
  answered none status retry r events more s =
      let sub = advance_to (last_seq_of events) (record_success status r.post_now s.sub) in
      let s' = logged events (some status) none (record s { sub = sub }) in
      stopped_or_again more (record s' { sent = s.sent + length events })
  answered (some error) status retry r events more s =
      let sub = fail_with_response status retry r.factor r.post_now supports s.sub in
      Next.stop true (logged events (some status) (some error) (record s { sub = sub }))

  pub post : Outcome → Round → List Event → Bool → Drain → Next
  unfolding answered
  post (response status retry) r events more s =
      answered (classify_http_status status).0 status retry r events more s
  post (transport_failure error) r events more s =
      let sub = fail_without_response error r.factor r.post_now supports s.sub in
      Next.stop true (logged events none (some error) (record s { sub = sub }))

  pub deliver_batch : Round → List Event → Bool → Drain → Next
  unfolding skip post
  deliver_batch r events more s =
      if length events == 1 && too_large events more
      then skip r events more s
      else post r.outcome r events more s

  pub attempted : ℕ → Subscription → Subscription
  attempted now sub = record sub { last_attempt_at = some now }

  pub deliver : Round → List Event → Bool → Option ℕ → Drain → Next
  unfolding deliver_batch stopped_or_again attempted
  deliver r [] more none s =
      Next.stop false (record s { sub = attempted r.now (advance_last_seq watermark s.sub) })
  deliver r [] more (some q) s =
      stopped_or_again more (record s { sub = attempted r.now (advance_last_seq q s.sub) })
  deliver r (e ∷ es) more raw s =
      let (events, more') = halve (length (e ∷ es)) (e ∷ es) more in deliver_batch r events more' s

  unfoldable pub drain_round : Round → Drain → Next
  unfolding deliver attempted
  drain_round r s =
      if r.scope_known
      then (let b = fetch_batch store watermark s.sub.last_seq in
          deliver r b.events b.has_more b.last_raw_seq s)
      else Next.stop true
          (record s { sub = attempted r.now (disable "unknown_scope" r.now supports s.sub) })

  pub next : (Drain → Drain × Bool) → Next → Drain × Bool
  next go_on (Next.stop failed s) = (s, failed)
  next go_on (Next.again s) = go_on s

  -- (events_sent, failed) with the state
  unfoldable pub drain_one : List Round → Drain → Drain × Bool
  unfolding next
  drain_one [] s = (s, false)
  drain_one (r ∷ rs) s = next (drain_one rs) (drain_round r s)
