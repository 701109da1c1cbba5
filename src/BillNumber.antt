-- ===== src/BillNumber.antt =====
-- packages/shared/billcommons_shared/normalize.py: the canonical form of a bill number. A text is the
-- list of its code points; `none` is the ValueError.
pub mod Compact
pub mod Canonical
mod Examples
use billcommons.Base.{
  ℕ, ◌+◌, ◌-◌, Bool, true, false, Option, none, some, List, [], ◌∷◌, ◌++◌, ◌&&◌, ◌||◌, not, all,
  filter, map, take, length, ◌==◌, leb, if◌then◌else◌,
}
use billcommons.Base.Text.{Text, is_space, strip}
use billcommons.Base.Decimal.{is_digit, decimal, value_of}

abbrev pub is_upper : ℕ → Bool
is_upper c = leb b'A' c && leb c b'Z'

abbrev pub is_lower : ℕ → Bool
is_lower c = leb b'a' c && leb c b'z'

abbrev pub is_alnum : ℕ → Bool
is_alnum c = is_upper c || is_lower c || is_digit c

-- Upper case, of what is left: ASCII letters, digits and spaces.
abbrev pub to_upper : ℕ → ℕ
to_upper c = if is_lower c then c - 32 else c

-- re.sub(r"\s+", " ", s), where the flag says that the run of spaces before is replaced already
abbrev pub collapse : Bool → Text → Text
collapse in_run [] = []
collapse in_run (c ∷ s) =
    let run = collapse true s in
    let other = collapse false s in
    if is_space c then (if in_run then run else b' ' ∷ run) else c ∷ other

abbrev pub is_kept : ℕ → Bool
is_kept c = is_alnum c || is_space c

abbrev pub is_not_blank : ℕ → Bool
is_not_blank c = not (c == b' ')

unfoldable pub compact : Text → Text
compact raw = filter is_not_blank (strip (collapse false (map to_upper (filter is_kept raw))))

abbrev pub take_while : (ℕ → Bool) → Text → Text
take_while p [] = []
take_while p (c ∷ s) = if p c then c ∷ take_while p s else []

abbrev pub drop_while : (ℕ → Bool) → Text → Text
drop_while p [] = []
drop_while p (c ∷ s) = if p c then drop_while p s else c ∷ s

abbrev pub or_zero : Text → Text → Text
or_zero zeros [] = zeros
or_zero zeros (c ∷ s) = c ∷ s

-- What `0*(\d+)` leaves to the group: the digits behind the zeros, or the last zero.
abbrev pub group_digits : Text → Text
group_digits s = or_zero (take 1 s) (drop_while (λ c. c == b'0') s)

abbrev pub render : Text → Text → Text → Text
render [] number suffix = number ++ suffix
render (c ∷ prefix) number suffix = (c ∷ prefix) ++ (b' ' ∷ number ++ suffix)

-- ^([A-Z]*)\s*0*(\d+)([A-Z]*)$ on a text without spaces
unfoldable pub parse : Text → Option (Text × Text × Text)
parse s =
    let prefix = take_while is_upper s in
    let rest = drop_while is_upper s in
    let digits = take_while is_digit rest in
    let suffix = drop_while is_digit rest in
    if leb 1 (length digits) && all is_upper suffix
    then some (prefix, group_digits digits, suffix)
    else none

abbrev pub canonical : Option (Text × Text × Text) → Option Text
canonical none = none
canonical (some (prefix, digits, suffix)) = some (render prefix (decimal (value_of digits)) suffix)

unfoldable pub normalize_bill_number : Option Text → Option Text
normalize_bill_number none = none
normalize_bill_number (some raw) = canonical (parse (compact raw))
