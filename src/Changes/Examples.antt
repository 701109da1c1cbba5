-- ===== src/Changes/Examples.antt =====
-- Runs of the change feed, and its theorems at them.
use billcommons.Base.{ℕ, ◌≡◌, refl, arith, true, Option, none, some, List, [], ◌∷◌, inl, map}
use billcommons.Base.Text.{codes}
use billcommons.Base.Sorting.{sort_by}
use billcommons.Cursor.{encode_cursor, decode_cursor}
use billcommons.Cursor.Plain.{plain_codec, plain_codec-IsCodec}
use billcommons.Changes.{
  BillEvent, Tables, Request, ChangeEvent, item_of, list_changes, ordered_rows, invalid_id,
}
use billcommons.Changes.Polling.{poll, never_skips}
use billcommons.Changes.Errors.{is_refused, list_changes-refused}

abbrev event : ℕ → ℕ → ℕ → BillEvent
event seq bill changed_at = record {
  seq = seq;
  bill_id = bill;
  kind = codes "status";
  changed_at = changed_at;
  detail = none;
}

-- The last event is younger than the lag.
abbrev db : Tables
db = record {
  bill_events = event 3 1 100 ∷ event 9 1 120 ∷ event 5 2 110 ∷ event 7 1 115 ∷ event 11 1 900 ∷ [];
  bills =
      record { id = 1; jurisdiction = codes "NC" }
      ∷ record { id = 2; jurisdiction = codes "VA" }
      ∷ [];
}

abbrev request : List (Option ℕ) → ℕ → Request
request ids per_page = record {
  cursor = none;
  ids = ids;
  jurisdiction = some (codes "NC");
  kind = none;
  per_page = per_page;
}

polled :
    map (λ (c : ChangeEvent). c.cursor) (poll plain_codec 1000 db 5 (request [] 2))
    ≡ map (encode_cursor plain_codec) (3 ∷ 7 ∷ 9 ∷ [])
unfolding poll list_changes sort_by decode_cursor encode_cursor
polled = refl

never_skips_example :
    poll plain_codec 1000 db 5 (request [] 2)
    ≡ map (item_of plain_codec db.bills) (ordered_rows 0 1000 [] (request [] 2) db)
never_skips_example =
    never_skips plain_codec 1000 db (request [] 2) 0 [] plain_codec-IsCodec
      (refl, (refl, (refl, (refl, (refl, tt))))) refl (omega arith) (omega arith) refl refl

bad_id : list_changes plain_codec 1000 (request (some 1 ∷ none ∷ []) 2) db ≡ inl invalid_id
unfolding list_changes
bad_id = refl

list_changes-refused_example :
    is_refused (list_changes plain_codec 1000 (request (some 1 ∷ none ∷ []) 2) db) ≡ true
list_changes-refused_example =
    list_changes-refused plain_codec 1000 (request (some 1 ∷ none ∷ []) 2) db
