-- ===== src/Changes/Paging.antt =====
-- One page of the feed: what it holds, how it tells of more, and how its cursor is read.
use billcommons.Base.{
  ℕ, zero, suc, ◌-◌, ◌^◌, ◌≤◌, ◌<◌, ◌≡◌, refl, ◌∙◌, ap, Bool, true, false, Option, none, some, List,
  [], ◌∷◌, ◌++◌, inr, all, take, drop, length, map, ltb, arith,
}
use billcommons.Base.Text.{Text}
use billcommons.Base.Sorting.{all-sort_by, all-filter}
use billcommons.Cursor.{Codec, encode_cursor, decode_cursor}
use billcommons.Cursor.RoundTrip.{
  IsCodec, decode_cursor-encode_cursor, decode_cursor-bigint, encode_cursor-ne,
}
use billcommons.Changes.{
  BillEvent, Bill, Request, Tables, ChangeEvent, after_of, parse_ids, limit_ids, seq_le,
  ordered_rows, item_of, last_cursor, page_of, list_changes, max_changes_per_page,
}
use billcommons.Changes.Selection.{last_seq}

pub take-take-suc : (n : ℕ) (es : List BillEvent) → take n (take (suc n) es) ≡ take n es
take-take-suc zero es = refl
take-take-suc (suc n) [] = refl
take-take-suc (suc n) (e ∷ es) = ap (λ fs. e ∷ fs) (take-take-suc n es)

-- One row more than are shown tells whether there are more.
pub more_rows : (n : ℕ) (es : List BillEvent) → ltb n (length (take (suc n) es)) ≡ ltb n (length es)
more_rows zero [] = refl
more_rows zero (e ∷ es) = ground arith
more_rows (suc n) [] = refl
more_rows (suc n) (e ∷ es) = ground (arith, more_rows n es)

pub take-short : (n : ℕ) (es : List BillEvent) → ltb n (length es) ≡ false → take n es ≡ es
take-short zero [] h = refl
take-short zero (e ∷ es) h = ground (arith, h)
take-short (suc n) [] h = refl
take-short (suc n) (e ∷ es) h = ap (λ fs. e ∷ fs) (take-short n es (ground (arith, h)))

pub length-drop : (n : ℕ) (es : List BillEvent) → length (drop n es) ≡ length es - n
length-drop zero es = omega arith
length-drop (suc n) [] = ground arith
length-drop (suc n) (e ∷ es) = ground (arith, length-drop n es)

abbrev pub in_range : BillEvent → Bool
in_range e = ltb e.seq (2 ^ 63)

pub last_seq-bound :
    (d n : ℕ) (es : List BillEvent)
    → all in_range es ≡ true
    → d < 2 ^ 63
    → last_seq d (take n es) < 2 ^ 63
last_seq-bound d zero es h k = k
last_seq-bound d (suc n) [] h k = k
last_seq-bound d (suc n) (e ∷ es) h k =
    last_seq-bound e.seq n es (ground (arith, h)) (ground (arith, h))

pub last_cursor-items :
    (codec : Codec) (bills : List Bill) (d : ℕ) (es : List BillEvent)
    → last_cursor (encode_cursor codec d) (map (item_of codec bills) es)
      ≡ encode_cursor codec (last_seq d es)
last_cursor-items codec bills d [] = refl
last_cursor-items codec bills d (e ∷ es) = last_cursor-items codec bills e.seq es

pub last_cursor-taken :
    (codec : Codec) (bills : List Bill) (other : Text) (d n : ℕ) (es : List BillEvent)
    → ltb n (length es) ≡ true
    → 1 ≤ n
    → last_cursor other (map (item_of codec bills) (take n es))
      ≡ encode_cursor codec (last_seq d (take n es))
last_cursor-taken codec bills other d zero es h k = ground (arith, k)
last_cursor-taken codec bills other d (suc n) [] h k = ground (arith, h)
last_cursor-taken codec bills other d (suc n) (e ∷ es) h k =
    last_cursor-items codec bills e.seq (take n es)

pub after_of-cons :
    (codec : Codec) (c : Text) → 0 < length c → after_of codec (some c) ≡ decode_cursor codec c
after_of-cons codec [] h = ground (arith, h)
after_of-cons codec (c ∷ s) h = refl

pub after_of-bigint :
    (codec : Codec) (cursor : Option Text) (after : ℕ)
    → after_of codec cursor ≡ some after
    → after < 2 ^ 63
after_of-bigint codec none after h = ground (arith, h)
after_of-bigint codec (some []) after h = ground (arith, h)
after_of-bigint codec (some (c ∷ s)) after h = decode_cursor-bigint codec (c ∷ s) after h

-- The cursor of an event is read as the number of the event.
pub after_of-encode_cursor :
    (codec : Codec) (s : ℕ)
    → IsCodec codec
    → s < 2 ^ 63
    → after_of codec (some (encode_cursor codec s)) ≡ some s
after_of-encode_cursor codec s law h =
    after_of-cons codec (encode_cursor codec s) (encode_cursor-ne codec s law)
    ∙ decode_cursor-encode_cursor codec s law h

pub list_changes-page :
    (codec : Codec) (now : ℕ) (req : Request) (db : Tables) (after : ℕ) (ids : List ℕ)
    → 1 ≤ req.per_page
    → req.per_page ≤ max_changes_per_page
    → after_of codec req.cursor ≡ some after
    → limit_ids (parse_ids req.ids) ≡ inr ids
    → list_changes codec now req db ≡ inr (page_of codec after now ids req db)
unfolding list_changes
list_changes-page codec now req db after ids low h a i = rw (a, i) (ground (arith, low, h))

pub map-parts :
    (f : BillEvent → ChangeEvent) (n : ℕ) (es : List BillEvent)
    → map f (take n es) ++ map f (drop n es) ≡ map f es
map-parts f zero es = refl
map-parts f (suc n) [] = refl
map-parts f (suc n) (e ∷ es) = ap (λ cs. f e ∷ cs) (map-parts f n es)

pub no_rows : (es : List BillEvent) → length es ≤ 0 → es ≡ []
no_rows [] h = refl
no_rows (e ∷ es) h = ground (arith, h)

-- The numbers of the rows are in range.
pub ordered_rows-in_range :
    (after now : ℕ) (ids : List ℕ) (req : Request) (db : Tables)
    → all in_range db.bill_events ≡ true
    → all in_range (ordered_rows after now ids req db) ≡ true
ordered_rows-in_range after now ids req db h =
    all-sort_by seq_le in_range _ ∙ all-filter in_range _ db.bill_events h
