-- ===== src/BillNumber/Compact.antt =====
-- What the parser sees of a bill number: its letters and digits, in upper case.
use billcommons.Base.{
  ℕ, ◌≡◌, refl, sym, ◌∙◌, ap, Bool, true, false, some, [], ◌∷◌, ◌||◌, not, all, filter, map, ◌==◌,
  arith,
}
use billcommons.Base.Text.{Text, is_space, strip, lstrip, rstrip}
use billcommons.BillNumber.{
  is_alnum, to_upper, collapse, is_kept, is_not_blank, compact, normalize_bill_number, parse,
  canonical,
}

-- The only space is the blank.
abbrev is_plain : ℕ → Bool
is_plain c = not (is_space c) || c == b' '

abbrev is_word : ℕ → Bool
is_word c = not (is_space c)

blank_space : (c : ℕ) → (c == b' ') ≡ true → is_space c ≡ true
unfolding is_space
blank_space c h = ground (arith, h)

filter-collapse : (b : Bool) (s : Text) → filter is_not_blank (collapse b s) ≡ filter is_word s
filter-collapse b [] = refl
filter-collapse b (c ∷ s) =
    ground (arith, blank_space c, filter-collapse true s, filter-collapse false s)

collapse-plain : (b : Bool) (s : Text) → all is_plain (collapse b s) ≡ true
collapse-plain b [] = refl
collapse-plain b (c ∷ s) = ground (arith, collapse-plain true s, collapse-plain false s)

filter-lstrip :
    (s : Text) → all is_plain s ≡ true → filter is_not_blank (lstrip s) ≡ filter is_not_blank s
filter-lstrip [] h = refl
filter-lstrip (c ∷ s) h = ground (arith, h, filter-lstrip s)

lstrip-plain : (s : Text) → all is_plain s ≡ true → all is_plain (lstrip s) ≡ true
lstrip-plain [] h = refl
lstrip-plain (c ∷ s) h = ground (arith, h, lstrip-plain s)

filter-rstrip :
    (s : Text) → all is_plain s ≡ true → filter is_not_blank (rstrip s) ≡ filter is_not_blank s
filter-rstrip [] h = refl
filter-rstrip (c ∷ s) h = ground (arith, h, filter-rstrip s)

filter-strip :
    (s : Text) → all is_plain s ≡ true → filter is_not_blank (strip s) ≡ filter is_not_blank s
filter-strip s h = filter-rstrip (lstrip s) (lstrip-plain s h) ∙ filter-lstrip s h

word-upper : (c : ℕ) → is_space (to_upper c) ≡ is_space c
unfolding is_space
word-upper c = ground arith

alnum_word : (c : ℕ) → is_alnum c ≡ true → is_space c ≡ false
unfolding is_space
alnum_word c h = ground (arith, h)

filter-kept :
    (s : Text) → filter is_word (map to_upper (filter is_kept s)) ≡ map to_upper (filter is_alnum s)
filter-kept [] = refl
filter-kept (c ∷ s) = ground (arith, word-upper c, alnum_word c, filter-kept s)

pub compact-alnum : (raw : Text) → compact raw ≡ map to_upper (filter is_alnum raw)
unfolding compact
compact-alnum raw =
    let kept = map to_upper (filter is_kept raw) in
    filter-strip (collapse false kept) (collapse-plain false kept)
    ∙ filter-collapse false kept
    ∙ filter-kept raw

-- Two texts with the same letters and digits in the same order, upper or lower case, have the same
-- canonical form, or none has one, whatever else stands in them.
pub normalize_bill_number-alnum :
    (a b : Text)
    → map to_upper (filter is_alnum a) ≡ map to_upper (filter is_alnum b)
    → normalize_bill_number (some a) ≡ normalize_bill_number (some b)
unfolding normalize_bill_number
normalize_bill_number-alnum a b h =
    ap (λ s. canonical (parse s)) (compact-alnum a ∙ h ∙ sym (compact-alnum b))
