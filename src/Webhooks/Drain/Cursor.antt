-- ===== src/Webhooks/Drain/Cursor.antt =====
-- The cursor of a subscription: it never moves back, never passes the watermark, and passes no event
-- that was not handled.
use billcommons.Base.{
  ℕ, ◌≤◌, ◌<◌, ◌≡◌, refl, Bool, true, false, Option, none, some, String, List, [], ◌∷◌, ◌++◌, ◌&&◌,
  ◌||◌, ◌==◌, arith, any, filter, if_induction, str_eq, length, leb, ltb,
}
use billcommons.Webhooks.Drain.{Event, Delivery, in_window, last_seq_of, max_body_bytes}

abbrev pub is_at : ℕ → Event → Bool
is_at q e = e.seq == q

-- The event numbered q is in scope and has its bill.
abbrev pub due : ℕ → List Event → Bool
due q store = any (λ e. e.seq == q && (e.in_scope && e.has_bill)) store

abbrev pub live_at : ℕ → Event → Bool
live_at q e = e.seq == q && e.has_bill

-- The receiver took the row: it answered with a 2xx.
abbrev pub is_taken : Option String → Option ℕ → Bool
is_taken none none = false
is_taken none (some status) = leb 200 status && ltb status 300
is_taken (some e) status = false

-- The row was skipped as too large: it has a single event, and a body of that event is over the cap.
abbrev pub is_skipped : (List Event → Bool → ℕ) → Option String → List Event → Bool
is_skipped size none events = false
is_skipped size (some e) events =
    str_eq e "payload_too_large"
    && (length events == 1
        && (ltb max_body_bytes (size events true) || ltb max_body_bytes (size events false)))

abbrev pub accepted : (List Event → Bool → ℕ) → Delivery → Bool
accepted size row = is_taken row.error row.status || is_skipped size row.error row.events

-- The event numbered q stands in a row that the receiver took, or alone in one that was skipped.
abbrev pub handled : (List Event → Bool → ℕ) → ℕ → List Delivery → Bool
handled size q log = any (λ row. accepted size row && any (is_at q) row.events) log

-- `order_by(BillEvent.seq)` on a unique column.
abbrev pub Ascending : ℕ → List Event → Type 0
Ascending lo [] = Unit
Ascending lo (e ∷ es) = (lo < e.seq) × Ascending e.seq es

pub any-append {ℓ} :
    {A : Type ℓ} (p : A → Bool) (xs ys : List A) → any p (xs ++ ys) ≡ (any p xs || any p ys)
any-append p [] ys = refl
any-append p (x ∷ xs) ys = ground (arith, any-append p xs ys)

above : (lo q : ℕ) (es : List Event) → Ascending lo es → any (is_at q) es ≡ true → lo < q
above lo q [] h m = ground arith
above lo q (e ∷ es) h m = ground (arith, above e.seq q es h.1)

-- What stands before something in an ascending list is smaller.
pub before :
    (lo m q : ℕ) (xs ys : List Event)
    → Ascending lo (xs ++ ys)
    → any (is_at m) xs ≡ true
    → any (is_at q) ys ≡ true
    → m < q
before lo m q [] ys h hm hq = ground arith
before lo m q (x ∷ xs) ys h hm hq =
    ground
      (arith, above x.seq q (xs ++ ys) h.1, any-append (is_at q) xs ys, before x.seq m q xs ys h.1)

pub Ascending-weaken : (lo hi : ℕ) (es : List Event) → lo ≤ hi → Ascending hi es → Ascending lo es
Ascending-weaken lo hi [] le h = tt
Ascending-weaken lo hi (e ∷ es) le h = (omega (arith, h.0), h.1)

pub Ascending-filter :
    (p : Event → Bool) (lo : ℕ) (es : List Event) → Ascending lo es → Ascending lo (filter p es)
Ascending-filter p lo [] h = tt
Ascending-filter p lo (e ∷ es) h =
    if_induction (Ascending lo) (p e) (λ _. (h.0, Ascending-filter p e.seq es h.1))
      λ _.
        Ascending-weaken lo e.seq (filter p es) (omega (arith, h.0))
          (Ascending-filter p e.seq es h.1)

pub any-filter :
    (p r : Event → Bool) (es : List Event) → any r (filter p es) ≡ any (λ e. r e && p e) es
any-filter p r [] = refl
any-filter p r (e ∷ es) = ground (arith, any-filter p r es)

pub at_last : (m : ℕ) (es : List Event) → last_seq_of es ≡ some m → any (is_at m) es ≡ true
at_last m [] h = ground arith
at_last m (e ∷ []) h = ground arith
at_last m (e ∷ f ∷ es) h = ground (arith, at_last m (f ∷ es) h)

pub live→at : (q : ℕ) (es : List Event) → any (live_at q) es ≡ true → any (is_at q) es ≡ true
live→at q [] h = h
live→at q (e ∷ es) h = ground (arith, live→at q es)

pub at-filter :
    (p : Event → Bool) (q : ℕ) (es : List Event)
    → any (is_at q) (filter p es) ≡ true
    → any (is_at q) es ≡ true
at-filter p q [] h = h
at-filter p q (e ∷ es) h = ground (arith, at-filter p q es)

pub live-filter :
    (q : ℕ) (es : List Event)
    → any (live_at q) es ≡ true
    → any (is_at q) (filter (λ e. e.has_bill) es) ≡ true
live-filter q [] h = h
live-filter q (e ∷ es) h = ground (arith, live-filter q es)

pub due-window :
    (lo hi q : ℕ) (store : List Event)
    → due q store ≡ true
    → lo < q
    → q ≤ hi
    → any (live_at q) (filter (in_window lo hi) store) ≡ true
due-window lo hi q [] h l u = h
due-window lo hi q (e ∷ es) h l u = ground (arith, due-window lo hi q es)

pub window_bounds :
    (lo hi m : ℕ) (store : List Event)
    → any (is_at m) (filter (in_window lo hi) store) ≡ true
    → (lo < m) × (m ≤ hi)
window_bounds lo hi m [] h = ground arith
window_bounds lo hi m (e ∷ es) h = ground (arith, window_bounds lo hi m es)

pub Ascending-prefix : (lo : ℕ) (xs ys : List Event) → Ascending lo (xs ++ ys) → Ascending lo xs
Ascending-prefix lo [] ys h = tt
Ascending-prefix lo (x ∷ xs) ys h = (h.0, Ascending-prefix x.seq xs ys h.1)
