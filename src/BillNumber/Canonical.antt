-- ===== src/BillNumber/Canonical.antt =====
-- The canonical form is a fixed point.
use billcommons.Base.{
  ℕ, if_induction, ◌<◌, ◌≡◌, refl, sym, ◌∙◌, ap, Bool, true, false, Option, none, some, [], ◌∷◌,
  ◌++◌, ◌&&◌, not, all, filter, map, take, ◌==◌, leb, arith, length,
}
use billcommons.Base.Text.{Text}
use billcommons.Base.Decimal.{
  is_digit, decimal, value_of, value_from, value_of-decimal, decimal-digits, length-decimal,
}
use billcommons.BillNumber.{
  is_upper, is_alnum, to_upper, compact, normalize_bill_number, parse, canonical, take_while,
  drop_while, or_zero, group_digits, render,
}
use billcommons.BillNumber.Compact.{compact-alnum}

-- What stands behind a prefix ends it.
abbrev ends : (ℕ → Bool) → Text → Bool
ends p [] = true
ends p (c ∷ s) = not (p c)

take_while-append :
    (p : ℕ → Bool) (s t : Text) → all p s ≡ true → ends p t ≡ true → take_while p (s ++ t) ≡ s
take_while-append p [] [] h k = refl
take_while-append p [] (c ∷ t) h k = ground (arith, k)
take_while-append p (c ∷ s) t h k = ground (arith, h, k, take_while-append p s t)

drop_while-append :
    (p : ℕ → Bool) (s t : Text) → all p s ≡ true → ends p t ≡ true → drop_while p (s ++ t) ≡ t
drop_while-append p [] [] h k = refl
drop_while-append p [] (c ∷ t) h k = ground (arith, k)
drop_while-append p (c ∷ s) t h k = ground (arith, h, k, drop_while-append p s t)

all-take_while : (p : ℕ → Bool) (s : Text) → all p (take_while p s) ≡ true
all-take_while p [] = refl
all-take_while p (c ∷ s) = ground (arith, all-take_while p s)

upper_not_digit : (c : ℕ) → is_upper c ≡ true → is_digit c ≡ false
upper_not_digit c h = ground (arith, h)

digit_not_upper : (c : ℕ) → is_digit c ≡ true → is_upper c ≡ false
digit_not_upper c h = ground (arith, h)

ends-upper : (s : Text) → all is_upper s ≡ true → ends is_digit s ≡ true
ends-upper [] h = refl
ends-upper (c ∷ s) h = ground (arith, h)

ends-digits : (s t : Text) → 0 < length s → all is_digit s ≡ true → ends is_upper (s ++ t) ≡ true
ends-digits [] t n h = ground (arith, n)
ends-digits (c ∷ s) t n h = ground (arith, h)

value_from-drop_zeros : (s : Text) → value_from 0 (drop_while (λ c. c == b'0') s) ≡ value_from 0 s
value_from-drop_zeros [] = refl
value_from-drop_zeros (c ∷ s) = ground (arith, value_from-drop_zeros s)

first_zero : (s : Text) → drop_while (λ c. c == b'0') s ≡ [] → value_of (take 1 s) ≡ 0
first_zero [] h = refl
first_zero (c ∷ s) h = ground (arith, h)

value_of-or_zero : (z t : Text) → (t ≡ [] → value_of z ≡ 0) → value_of (or_zero z t) ≡ value_of t
value_of-or_zero z [] h = h refl
value_of-or_zero z (c ∷ t) h = refl

value_of-group_digits : (s : Text) → value_of (group_digits s) ≡ value_of s
value_of-group_digits s =
    value_of-or_zero (take 1 s) (drop_while (λ c. c == b'0') s) (first_zero s)
    ∙ value_from-drop_zeros s

-- The letters and digits of a text of these are all of it.
alnum-upper : (s : Text) → all is_upper s ≡ true → map to_upper (filter is_alnum s) ≡ s
alnum-upper [] h = refl
alnum-upper (c ∷ s) h = ground (arith, h, alnum-upper s)

alnum-digits : (s : Text) → all is_digit s ≡ true → map to_upper (filter is_alnum s) ≡ s
alnum-digits [] h = refl
alnum-digits (c ∷ s) h = ground (arith, h, alnum-digits s)

alnum-append :
    (s t : Text)
    → map to_upper (filter is_alnum (s ++ t))
      ≡ map to_upper (filter is_alnum s) ++ map to_upper (filter is_alnum t)
alnum-append [] t = refl
alnum-append (c ∷ s) t = ground (arith, alnum-append s t)

shape-compact :
    (prefix number suffix : Text)
    → all is_upper prefix ≡ true
    → all is_digit number ≡ true
    → all is_upper suffix ≡ true
    → map to_upper (filter is_alnum (render prefix number suffix)) ≡ prefix ++ (number ++ suffix)
shape-compact [] number suffix p n u =
    rw (alnum-append number suffix, alnum-digits number n, alnum-upper suffix u)
shape-compact (c ∷ prefix) number suffix p n u = rw (
  alnum-append (c ∷ prefix) (b' ' ∷ number ++ suffix),
  alnum-append number suffix,
  alnum-digits number n,
  alnum-upper suffix u,
  alnum-upper (c ∷ prefix) p,
)

some_digits : (s : Text) → 0 < length s → leb 1 (length s) ≡ true
some_digits s l = ground (arith, l)

-- The parser's view of a text whose parts are known
parse-shape :
    (prefix number suffix : Text)
    → all is_upper prefix ≡ true
    → all is_digit number ≡ true
    → 0 < length number
    → all is_upper suffix ≡ true
    → parse (prefix ++ (number ++ suffix)) ≡ some (prefix, group_digits number, suffix)
unfolding parse
parse-shape prefix number suffix p n l u = rw (
  take_while-append is_upper prefix (number ++ suffix) p (ends-digits number suffix l n),
  drop_while-append is_upper prefix (number ++ suffix) p (ends-digits number suffix l n),
  take_while-append is_digit number suffix n (ends-upper suffix u),
  drop_while-append is_digit number suffix n (ends-upper suffix u),
  u,
  some_digits number l,
)

abbrev text_of : Option Text → Text
text_of none = []
text_of (some s) = s

text_of-some : {s t : Text} → some s ≡ some t → s ≡ t
text_of-some e = ap text_of e

-- A canonical form shows its parts.
IsCanonical : Text → Type 0
IsCanonical s =
    (prefix : Text) × (n : ℕ) × (suffix : Text) × (s ≡ render prefix (decimal n) suffix)
    × (all is_upper prefix ≡ true)
    × (all is_upper suffix ≡ true)

canonical-parse : (s canon : Text) → canonical (parse s) ≡ some canon → IsCanonical canon
unfolding parse IsCanonical
canonical-parse s canon =
    let prefix = take_while is_upper s in
    let rest = drop_while is_upper s in
    let digits = take_while is_digit rest in
    let suffix = drop_while is_digit rest in
    if_induction (λ o. canonical o ≡ some canon → IsCanonical canon)
      (leb 1 (length digits) && all is_upper suffix)
      (λ t e. (
        prefix,
        value_of (group_digits digits),
        suffix,
        sym (text_of-some e),
        all-take_while is_upper s,
        ground (arith, t),
      ))
      (λ f e. ground (arith, e))

-- The canonical form of a bill number is its own canonical form.
pub normalize_bill_number_idem :
    (raw canon : Text)
    → normalize_bill_number (some raw) ≡ some canon
    → normalize_bill_number (some canon) ≡ some canon
unfolding normalize_bill_number IsCanonical
normalize_bill_number_idem raw canon h =
    let (p, n, u, e, upper, alpha) = canonical-parse (compact raw) canon h in
    ap canonical (
      ap parse (
        compact-alnum canon
        ∙ ap (λ s. map to_upper (filter is_alnum s)) e
        ∙ shape-compact p (decimal n) u upper (decimal-digits n) alpha)
      ∙ parse-shape p (decimal n) u upper (decimal-digits n) (length-decimal n) alpha)
    ∙ ap (λ k. some (render p (decimal k) u))
        (value_of-group_digits (decimal n) ∙ value_of-decimal n)
    ∙ ap some (sym e)
