-- ===== src/Changes/Selection.antt =====
-- The rows that a cursor leaves: they are the rows of an earlier cursor, without those it has passed.
use billcommons.Base.{
  if_induction, ℕ, zero, suc, ◌≤◌, ◌≡◌, refl, sym, ◌∙◌, ap, Bool, true, not, List, [], ◌∷◌, all,
  filter, filter-all, take, drop, ◌==◌, ltb, arith,
}
use billcommons.Base.Sorting.{
  sort_by, IsOrdered, sort_by-IsOrdered, sort_by-pairs, filter-sort_by, all-sort_by, all-filter,
}
use billcommons.Changes.{BillEvent, Request, Tables, is_matching, seq_le, ordered_rows}

abbrev pub seq_ne : BillEvent → BillEvent → Bool
seq_ne a b = not (a.seq == b.seq)

abbrev seq_lt : BillEvent → BillEvent → Bool
seq_lt a b = ltb a.seq b.seq

-- The primary key of bill_events
abbrev pub IsUnique : List BillEvent → Type 0
IsUnique events = IsOrdered seq_ne events

seq_ne_symm : (a b : BillEvent) → seq_ne a b ≡ true → seq_ne b a ≡ true
seq_ne_symm a b h = ground (arith, h)

IsUnique-filter :
    (p : BillEvent → Bool) (events : List BillEvent) → IsUnique events → IsUnique (filter p events)
IsUnique-filter p [] u = tt
IsUnique-filter p (e ∷ es) u =
    if_induction IsUnique (p e) (λ _. (all-filter (seq_ne e) p es u.0, IsUnique-filter p es u.1))
      λ _. IsUnique-filter p es u.1

all_lt :
    (e : BillEvent) (es : List BillEvent)
    → all (seq_le e) es ≡ true
    → all (seq_ne e) es ≡ true
    → all (seq_lt e) es ≡ true
all_lt e [] h k = refl
all_lt e (f ∷ es) h k = ground (arith, h, k, all_lt e es)

IsOrdered-strict : (es : List BillEvent) → IsOrdered seq_le es → IsUnique es → IsOrdered seq_lt es
IsOrdered-strict [] o u = tt
IsOrdered-strict (e ∷ es) o u = (all_lt e es o.0 u.0, IsOrdered-strict es o.1 u.1)

-- The last number of the rows, or the one before them.
abbrev pub last_seq : ℕ → List BillEvent → ℕ
last_seq d [] = d
last_seq d (e ∷ es) = last_seq e.seq es

abbrev is_behind : ℕ → BillEvent → Bool
is_behind s e = ltb s e.seq

last_seq_ge :
    (d n : ℕ) (es : List BillEvent)
    → IsOrdered seq_lt es
    → all (is_behind d) es ≡ true
    → d ≤ last_seq d (take n es)
last_seq_ge d zero es o h = omega arith
last_seq_ge d (suc n) [] o h = omega arith
last_seq_ge d (suc n) (e ∷ es) o h = ground (arith, h, last_seq_ge e.seq n es o.1 o.0)

filter-behind :
    (d n : ℕ) (es : List BillEvent)
    → IsOrdered seq_lt es
    → all (is_behind d) es ≡ true
    → filter (is_behind (last_seq d (take n es))) es ≡ drop n es
filter-behind d zero es o h = filter-all (is_behind d) es h
filter-behind d (suc n) [] o h = refl
filter-behind d (suc n) (e ∷ es) o h =
    ground (arith, last_seq_ge e.seq n es o.1 o.0, filter-behind e.seq n es o.1 o.0)

module _ (now : ℕ) (ids : List ℕ) (req : Request) (db : Tables) where
  rows_behind :
      (after : ℕ) (es : List BillEvent)
      → all (is_behind after) (filter (is_matching after now ids req db) es) ≡ true
  rows_behind after [] = refl
  rows_behind after (e ∷ es) = ground (arith, rows_behind after es)

  filter-matching :
      (after s : ℕ) (es : List BillEvent)
      → after ≤ s
      → filter (is_behind s) (filter (is_matching after now ids req db) es)
        ≡ filter (is_matching s now ids req db) es
  filter-matching after s [] h = refl
  filter-matching after s (e ∷ es) h = ground (arith, h, filter-matching after s es h)

  ordered_rows-strict :
      (after : ℕ) → IsUnique db.bill_events → IsOrdered seq_lt (ordered_rows after now ids req db)
  ordered_rows-strict after u =
      let found = filter (is_matching after now ids req db) db.bill_events in
      IsOrdered-strict (sort_by seq_le found)
        (sort_by-IsOrdered seq_le (λ a b h. ground (arith, h)) (λ a b c h k. ground (arith, h, k))
          found)
        (sort_by-pairs seq_le seq_ne seq_ne_symm found
          (IsUnique-filter (is_matching after now ids req db) db.bill_events u))

  ordered_rows-behind :
      (after : ℕ) → all (is_behind after) (ordered_rows after now ids req db) ≡ true
  ordered_rows-behind after =
      all-sort_by seq_le (is_behind after) _ ∙ rows_behind after db.bill_events

  pub ordered_rows-next :
      (after n : ℕ)
      → IsUnique db.bill_events
      → ordered_rows (last_seq after (take n (ordered_rows after now ids req db))) now ids req db
        ≡ drop n (ordered_rows after now ids req db)
  ordered_rows-next after n u =
      let rows = ordered_rows after now ids req db in
      let s = last_seq after (take n rows) in
      let strict = ordered_rows-strict after u in
      let behind = ordered_rows-behind after in
      sym (
        filter-sort_by seq_le (λ a b h. ground (arith, h)) (λ a b c h k. ground (arith, h, k))
          (is_behind s) (filter (is_matching after now ids req db) db.bill_events)
        ∙ ap (sort_by seq_le)
            (filter-matching after s db.bill_events (last_seq_ge after n rows strict behind)))
      ∙ filter-behind after n rows strict behind
