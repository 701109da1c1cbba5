-- ===== src/Changes.antt =====
-- apps/api/billcommons_api/routers/changes.py: the change feed. Times are in seconds; ids are numbers.
-- The list of ids is split into its tokens, an id each or `none` for a token that is no UUID, and the
-- jurisdiction is in upper case. A page size is not negative.
pub mod Selection
pub mod Paging
pub mod Polling
pub mod Errors
mod Examples
use billcommons.Base.{
  ℕ, suc, ◌+◌, Bool, true, false, Option, none, some, List, [], ◌∷◌, ◌&&◌, ◌||◌, ◌⊎◌, inl, inr, any,
  filter, take, length, map, ◌==◌, ltb, leb, if◌then◌else◌,
}
use billcommons.Base.Text.{Text, text_eq}
use billcommons.Base.Sorting.{sort_by}
use billcommons.Cursor.{Codec, encode_cursor, decode_cursor}

pub record BillEvent : Type 0 where
  seq : ℕ
  bill_id : ℕ
  kind : Text
  changed_at : ℕ
  detail : Option Text

pub record Bill : Type 0 where
  id : ℕ
  jurisdiction : Text

pub record Tables : Type 0 where
  bill_events : List BillEvent
  bills : List Bill

pub record Request : Type 0 where
  cursor : Option Text
  ids : List (Option ℕ)
  jurisdiction : Option Text
  kind : Option Text
  per_page : ℕ

pub record ChangeEvent : Type 0 where
  cursor : Text
  kind : Text
  changed_at : ℕ
  detail : Option Text
  bill : Option Bill

pub record ChangeFeedEnvelope : Type 0 where
  items : List ChangeEvent
  next_cursor : Text
  has_more : Bool

-- The code of a bad_request, or the 422 of FastAPI for `per_page: int = Query(..., ge=1)`.
pub data ChangeError : Type 0 where
  per_page_below_one : ChangeError
  per_page_too_large : ChangeError
  invalid_cursor : ChangeError
  invalid_id : ChangeError
  too_many_ids : ChangeError

abbrev pub max_changes_per_page : ℕ
max_changes_per_page = 500

abbrev pub max_ids : ℕ
max_ids = 200

abbrev pub commit_safety_lag_seconds : ℕ
commit_safety_lag_seconds = 240

-- decode_cursor(cursor) if cursor else 0
abbrev pub after_of : Codec → Option Text → Option ℕ
after_of codec none = some 0
after_of codec (some []) = some 0
after_of codec (some (c ∷ s)) = decode_cursor codec (c ∷ s)

abbrev cons_id : ℕ → ChangeError ⊎ List ℕ → ChangeError ⊎ List ℕ
cons_id id (inl e) = inl e
cons_id id (inr ids) = inr (id ∷ ids)

abbrev pub parse_ids : List (Option ℕ) → ChangeError ⊎ List ℕ
parse_ids [] = inr []
parse_ids (none ∷ ids) = inl invalid_id
parse_ids (some id ∷ ids) = cons_id id (parse_ids ids)

abbrev pub limit_ids : ChangeError ⊎ List ℕ → ChangeError ⊎ List ℕ
limit_ids (inl e) = inl e
limit_ids (inr ids) = if ltb max_ids (length ids) then inl too_many_ids else inr ids

-- No ids stand for no such condition.
abbrev pub in_ids : List ℕ → ℕ → Bool
in_ids [] id = true
in_ids (i ∷ ids) id = any (λ j. j == id) (i ∷ ids)

abbrev pub of_kind : Option Text → Text → Bool
of_kind none k = true
of_kind (some []) k = true
of_kind (some (c ∷ s)) k = text_eq k (c ∷ s)

abbrev pub of_jurisdiction : List Bill → Option Text → ℕ → Bool
of_jurisdiction bills none id = true
of_jurisdiction bills (some []) id = true
of_jurisdiction bills (some (c ∷ s)) id =
    any (λ b. b.id == id && text_eq b.jurisdiction (c ∷ s)) bills

-- The conditions beside the cursor's
abbrev pub is_selected : ℕ → List ℕ → Request → Tables → BillEvent → Bool
is_selected now ids req db e =
    leb (e.changed_at + commit_safety_lag_seconds) now
    && in_ids ids e.bill_id
    && of_kind req.kind e.kind
    && of_jurisdiction db.bills req.jurisdiction e.bill_id

abbrev pub is_matching : ℕ → ℕ → List ℕ → Request → Tables → BillEvent → Bool
is_matching after now ids req db e = ltb after e.seq && is_selected now ids req db e

abbrev pub seq_le : BillEvent → BillEvent → Bool
seq_le a b = leb a.seq b.seq

abbrev pub ordered_rows : ℕ → ℕ → List ℕ → Request → Tables → List BillEvent
ordered_rows after now ids req db =
    sort_by seq_le (filter (is_matching after now ids req db) db.bill_events)

abbrev pub bill_of : List Bill → ℕ → Option Bill
bill_of [] id = none
bill_of (b ∷ bills) id = if b.id == id then some b else bill_of bills id

abbrev pub item_of : Codec → List Bill → BillEvent → ChangeEvent
item_of codec bills e = record {
  cursor = encode_cursor codec e.seq;
  kind = e.kind;
  changed_at = e.changed_at;
  detail = e.detail;
  bill = bill_of bills e.bill_id;
}

-- cursor or encode_cursor(after_seq)
abbrev pub own_cursor : Codec → Option Text → ℕ → Text
own_cursor codec none after = encode_cursor codec after
own_cursor codec (some []) after = encode_cursor codec after
own_cursor codec (some (c ∷ s)) after = c ∷ s

-- items[-1].cursor if items else the other
abbrev pub last_cursor : Text → List ChangeEvent → Text
last_cursor other [] = other
last_cursor other (i ∷ items) = last_cursor i.cursor items

-- The page made of the rows that the query gives: one more than are shown, if there are more.
abbrev pub envelope_of : Codec → ℕ → Request → List Bill → List BillEvent → ChangeFeedEnvelope
envelope_of codec after req bills rows =
    let items = map (item_of codec bills) (take req.per_page rows) in
    record {
      items = items;
      next_cursor = last_cursor (own_cursor codec req.cursor after) items;
      has_more = ltb req.per_page (length rows);
    }

abbrev pub page_of : Codec → ℕ → ℕ → List ℕ → Request → Tables → ChangeFeedEnvelope
page_of codec after now ids req db =
    envelope_of codec after req db.bills
      (take (suc req.per_page) (ordered_rows after now ids req db))

abbrev pub answer_ids :
    Codec → ℕ → ℕ → Request → Tables → ChangeError ⊎ List ℕ → ChangeError ⊎ ChangeFeedEnvelope
answer_ids codec after now req db (inl e) = inl e
answer_ids codec after now req db (inr ids) = inr (page_of codec after now ids req db)

abbrev pub answer_after : Codec → ℕ → Request → Tables → Option ℕ → ChangeError ⊎ ChangeFeedEnvelope
answer_after codec now req db none = inl invalid_cursor
answer_after codec now req db (some after) =
    answer_ids codec after now req db (limit_ids (parse_ids req.ids))

unfoldable pub list_changes : Codec → ℕ → Request → Tables → ChangeError ⊎ ChangeFeedEnvelope
list_changes codec now req db =
    if req.per_page == 0
    then inl per_page_below_one
    else if ltb max_changes_per_page req.per_page
    then inl per_page_too_large
    else answer_after codec now req db (after_of codec req.cursor)
