-- ===== src/Base/Decimal.antt =====
-- Whole numbers in decimal: `str(n)` and `int(s)` of digits, and what relates them.
use Prim.Native.Nat.{ℕ, zero, suc, ◌+◌, ◌-◌, ◌*◌, ◌/◌, ◌%◌, ◌≤◌, ◌<◌}
use mathlib.Core.Path.{◌≡◌, refl}
use mathlib.Core.Bool.{Bool, true, ◌&&◌}
use mathlib.Core.List.{[], ◌∷◌, ◌++◌}
use native.Mathlib.Omega.{arith}
use billcommons.Base.Tests.{leb, ltb, if◌then◌else◌}
use billcommons.Base.Lists.{all, length, length-append, all-append}
use billcommons.Base.Text.{Text}

abbrev pub is_digit : ℕ → Bool
is_digit c = leb 48 c && leb c 57

digits_of : ℕ → ℕ → Text
digits_of zero n = (48 + n % 10) ∷ []
digits_of (suc fuel) n =
    let rest = digits_of fuel (n / 10) in
    if ltb n 10 then (48 + n) ∷ [] else rest ++ (48 + n % 10) ∷ []

-- str(n)
unfoldable pub decimal : ℕ → Text
unfolding digits_of
decimal n = digits_of n n

abbrev pub value_from : ℕ → Text → ℕ
value_from acc [] = acc
value_from acc (c ∷ s) = value_from (acc * 10 + (c - 48)) s

-- int(s) for a text of digits
abbrev pub value_of : Text → ℕ
value_of s = value_from 0 s

value_from-append :
    (acc : ℕ) (s t : Text) → value_from acc (s ++ t) ≡ value_from (value_from acc s) t
value_from-append acc [] t = refl
value_from-append acc (c ∷ s) t = value_from-append (acc * 10 + (c - 48)) s t

value_of-digits_of : (fuel n : ℕ) → n ≤ fuel → value_of (digits_of fuel n) ≡ n
unfolding digits_of
value_of-digits_of zero n h = omega arith
value_of-digits_of (suc fuel) n h = ground (
  arith,
  value_of-digits_of fuel (n / 10),
  value_from-append 0 (digits_of fuel (n / 10)) ((48 + n % 10) ∷ []),
)

pub value_of-decimal : (n : ℕ) → value_of (decimal n) ≡ n
unfolding decimal
value_of-decimal n = value_of-digits_of n n (omega arith)

digits_of-digits : (fuel n : ℕ) → n ≤ fuel → all is_digit (digits_of fuel n) ≡ true
unfolding digits_of
digits_of-digits zero n h = ground arith
digits_of-digits (suc fuel) n h = ground (
  arith,
  digits_of-digits fuel (n / 10),
  all-append is_digit (digits_of fuel (n / 10)) ((48 + n % 10) ∷ []),
)

pub decimal-digits : (n : ℕ) → all is_digit (decimal n) ≡ true
unfolding decimal
decimal-digits n = digits_of-digits n n (omega arith)

length-digits_of : (fuel n : ℕ) → 0 < length (digits_of fuel n)
unfolding digits_of
length-digits_of zero n = omega arith
length-digits_of (suc fuel) n = ground (
  arith,
  length-digits_of fuel (n / 10),
  length-append (digits_of fuel (n / 10)) ((48 + n % 10) ∷ []),
)

pub length-decimal : (n : ℕ) → 0 < length (decimal n)
unfolding decimal
length-decimal n = length-digits_of n n
