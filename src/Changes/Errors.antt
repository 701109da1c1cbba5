-- ===== src/Changes/Errors.antt =====
-- The requests that the feed refuses.
use billcommons.Base.{
  suc, ℕ, ◌≡◌, refl, ◌∙◌, ap, Bool, true, false, not, Option, none, some, List, [], ◌∷◌, ◌||◌, ◌==◌,
  ◌⊎◌, inl, inr, any, length, ltb, is_some, arith,
}
use billcommons.Cursor.{Codec}
use billcommons.Changes.{
  Request, Tables, ChangeError, invalid_id, after_of, parse_ids, limit_ids, list_changes,
  max_changes_per_page, max_ids, answer_ids, answer_after,
}

abbrev pub is_refused {ℓ} : {A : Type ℓ} → ChangeError ⊎ A → Bool
is_refused (inl e) = true
is_refused (inr a) = false

abbrev pub is_invalid : Option ℕ → Bool
is_invalid id = not (is_some id)

abbrev ParsesTo : List (Option ℕ) → Type 0
ParsesTo ids =
    ((any is_invalid ids ≡ true) × (parse_ids ids ≡ inl invalid_id))
    ⊎ ((any is_invalid ids ≡ false)
        × (ns : List ℕ) × (parse_ids ids ≡ inr ns)
        × (length ns ≡ length ids))

parse_ids-cases : (ids : List (Option ℕ)) → ParsesTo ids
parse_ids-cases [] = inr (refl, [], refl, refl)
parse_ids-cases (none ∷ ids) = inl (refl, refl)
parse_ids-cases (some id ∷ ids) = elim (parse_ids-cases ids) [
  | inl (bad, e) ↦ inl (bad, rw e)
  | inr (good, ns, e, l) ↦ inr (good, id ∷ ns, rw e, ap suc l)
]

limit_ids-refused :
    (ids : List (Option ℕ))
    → is_refused (limit_ids (parse_ids ids)) ≡ (any is_invalid ids || ltb max_ids (length ids))
limit_ids-refused ids = elim (parse_ids-cases ids) [
  | inl (bad, e) ↦ rw (e, bad)
  | inr (good, ns, e, l) ↦ rw (e, good, l) (ground arith)
]

answer_ids-refused :
    (codec : Codec) (after now : ℕ) (req : Request) (db : Tables) (ids : ChangeError ⊎ List ℕ)
    → is_refused (answer_ids codec after now req db ids) ≡ is_refused ids
answer_ids-refused codec after now req db (inl e) = refl
answer_ids-refused codec after now req db (inr ids) = refl

answer_after-refused :
    (codec : Codec) (now : ℕ) (req : Request) (db : Tables) (after : Option ℕ)
    → is_refused (answer_after codec now req db after)
      ≡ (not (is_some after) || any is_invalid req.ids || ltb max_ids (length req.ids))
answer_after-refused codec now req db none = refl
answer_after-refused codec now req db (some after) =
    answer_ids-refused codec after now req db (limit_ids (parse_ids req.ids))
    ∙ limit_ids-refused req.ids

-- A request is refused if and only if its page size is below 1 or above 500, its cursor is not read, one of its
-- ids is no UUID, or it has more than 200 ids; every other is answered with a page.
pub list_changes-refused :
    (codec : Codec) (now : ℕ) (req : Request) (db : Tables)
    → is_refused (list_changes codec now req db) ≡ (
        req.per_page == 0
        || ltb max_changes_per_page req.per_page
        || not (is_some (after_of codec req.cursor))
        || any is_invalid req.ids
        || ltb max_ids (length req.ids))
unfolding list_changes
list_changes-refused codec now req db =
    ground (arith, answer_after-refused codec now req db (after_of codec req.cursor))
