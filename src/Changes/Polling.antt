-- ===== src/Changes/Polling.antt =====
-- A consumer of the feed, who asks again with the `next_cursor` of the answer until `has_more` is
-- false, and what has come by then. The log stands still meanwhile.
use billcommons.Base.{
  ℕ, zero, suc, ◌≤◌, ◌≡◌, ◌∙◌, ap, true, false, some, List, [], ◌++◌, ◌⊎◌, inl, inr, all, filter,
  length-filter, append_nil, take, length, map, ltb, if◌then◌else◌, arith, Bool-cases,
}
use billcommons.Base.Text.{Text}
use billcommons.Base.Sorting.{length-sort_by}
use billcommons.Cursor.{Codec, encode_cursor}
use billcommons.Cursor.RoundTrip.{IsCodec}
use billcommons.Changes.{
  BillEvent, Bill, Request, Tables, ChangeEvent, ChangeFeedEnvelope, ChangeError, after_of,
  parse_ids, limit_ids, envelope_of, is_matching, seq_le, ordered_rows, item_of, own_cursor,
  list_changes, max_changes_per_page,
}
use billcommons.Changes.Selection.{IsUnique, last_seq, ordered_rows-next}
use billcommons.Changes.Paging.{
  take-take-suc, more_rows, take-short, length-drop, in_range, last_seq-bound, last_cursor-taken,
  after_of-bigint, after_of-encode_cursor, list_changes-page, map-parts, no_rows,
  ordered_rows-in_range,
}

abbrev pub next_request : Request → Text → Request
next_request req cursor = record {
  cursor = some cursor;
  ids = req.ids;
  jurisdiction = req.jurisdiction;
  kind = req.kind;
  per_page = req.per_page;
}

abbrev pub go_on :
    (Request → List ChangeEvent) → Request → ChangeError ⊎ ChangeFeedEnvelope → List ChangeEvent
go_on rest req (inl e) = []
go_on rest req (inr page) =
    let more = rest (next_request req page.next_cursor) in
    page.items ++ (if page.has_more then more else [])

unfoldable pub poll : Codec → ℕ → Tables → ℕ → Request → List ChangeEvent
poll codec now db zero req = []
poll codec now db (suc fuel) req =
    go_on (poll codec now db fuel) req (list_changes codec now req db)

module _ (codec : Codec) (bills : List Bill) (rest : Request → List ChangeEvent) (after : ℕ)
    (req : Request) (rows : List BillEvent) where
  abbrev answered : ChangeError ⊎ ChangeFeedEnvelope
  answered = inr (envelope_of codec after req bills (take (suc req.per_page) rows))

  go_on-last :
      ltb req.per_page (length rows) ≡ false
      → go_on rest req answered ≡ map (item_of codec bills) rows
  go_on-last last =
      rw
        (
          take-take-suc req.per_page rows,
          more_rows req.per_page rows,
          last,
          take-short req.per_page rows last,
        )
        (append_nil (map (item_of codec bills) rows))

  go_on-more :
      ltb req.per_page (length rows) ≡ true
      → 1 ≤ req.per_page
      → go_on rest req answered
        ≡ map (item_of codec bills) (take req.per_page rows)
          ++ rest (next_request req (encode_cursor codec (last_seq after (take req.per_page rows))))
  go_on-more more low = rw (
    take-take-suc req.per_page rows,
    more_rows req.per_page rows,
    more,
    last_cursor-taken codec bills (own_cursor codec req.cursor after) after req.per_page rows more
        low,
  )

-- The rows behind the page come with the next one, whose cursor is that of the page's last event.
poll-rows :
    (codec : Codec) (now : ℕ) (db : Tables) (fuel : ℕ) (req : Request) (after : ℕ) (ids : List ℕ)
    → IsCodec codec
    → IsUnique db.bill_events
    → all in_range db.bill_events ≡ true
    → 1 ≤ req.per_page
    → req.per_page ≤ max_changes_per_page
    → after_of codec req.cursor ≡ some after
    → limit_ids (parse_ids req.ids) ≡ inr ids
    → length (ordered_rows after now ids req db) ≤ fuel
    → poll codec now db fuel req ≡ map (item_of codec db.bills) (ordered_rows after now ids req db)
unfolding poll
poll-rows codec now db zero req after ids law u r low high a i f =
    rw (no_rows (ordered_rows after now ids req db) f)
poll-rows codec now db (suc fuel) req after ids law u r low high a i f =
    let rows = ordered_rows after now ids req db in
    let n = req.per_page in
    let rest = poll codec now db fuel in
    let s = last_seq after (take n rows) in
    ap (go_on rest req) (list_changes-page codec now req db after ids low high a i)
    ∙ elim (Bool-cases (ltb n (length rows))) [
      | inl more ↦
          go_on-more codec db.bills rest after req rows more low
          ∙ ap (λ es. map (item_of codec db.bills) (take n rows) ++ es)
              (poll-rows codec now db fuel (next_request req (encode_cursor codec s)) s ids law u r
                  low high
                  (after_of-encode_cursor codec s law (
                    last_seq-bound after n rows (ordered_rows-in_range after now ids req db r)
                      (after_of-bigint codec req.cursor after a)))
                  i
                  (rw (ordered_rows-next now ids req db after n u, length-drop n rows)
                    (omega arith))
                ∙ ap (map (item_of codec db.bills)) (ordered_rows-next now ids req db after n u))
          ∙ map-parts (item_of codec db.bills) n rows
      | inr last ↦ go_on-last codec db.bills rest after req rows last
    ]

-- A consumer who begins with a request that is in order and asks as often as there are events in the
-- log gets, page after page, each event behind the cursor that the request selects and that is older
-- than the safety lag, once, in the order of the sequence numbers. The log has distinct numbers in the
-- range of a bigint and stands still meanwhile, and the codec is as RFC 4648 and JSON describe it.
pub never_skips :
    (codec : Codec) (now : ℕ) (db : Tables) (req : Request) (after : ℕ) (ids : List ℕ)
    → IsCodec codec
    → IsUnique db.bill_events
    → all in_range db.bill_events ≡ true
    → 1 ≤ req.per_page
    → req.per_page ≤ max_changes_per_page
    → after_of codec req.cursor ≡ some after
    → limit_ids (parse_ids req.ids) ≡ inr ids
    → poll codec now db (length db.bill_events) req
      ≡ map (item_of codec db.bills) (ordered_rows after now ids req db)
never_skips codec now db req after ids law u r low high a i =
    poll-rows codec now db (length db.bill_events) req after ids law u r low high a i (
      rw (length-sort_by seq_le (filter (is_matching after now ids req db) db.bill_events))
        (length-filter (is_matching after now ids req db) db.bill_events))
