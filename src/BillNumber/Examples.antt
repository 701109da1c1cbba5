-- ===== src/BillNumber/Examples.antt =====
-- The bill numbers of the module's docstring, and the theorems at them.
use billcommons.Base.{◌≡◌, refl, some, none}
use billcommons.Base.Text.{codes}
use billcommons.BillNumber.{normalize_bill_number, parse, compact}
use billcommons.BillNumber.Compact.{normalize_bill_number-alnum}
use billcommons.BillNumber.Canonical.{normalize_bill_number_idem}
use billcommons.Base.Decimal.{decimal}
use billcommons.Base.Text.{is_space}

dotted : normalize_bill_number (some (codes "H.B. 123")) ≡ some (codes "HB 123")
unfolding normalize_bill_number parse compact decimal is_space
dotted = refl

dashed : normalize_bill_number (some (codes "hb-123")) ≡ some (codes "HB 123")
unfolding normalize_bill_number parse compact decimal is_space
dashed = refl

padded : normalize_bill_number (some (codes "SB0001")) ≡ some (codes "SB 1")
unfolding normalize_bill_number parse compact decimal is_space
padded = refl

suffixed : normalize_bill_number (some (codes "HB 0123 a")) ≡ some (codes "HB 123A")
unfolding normalize_bill_number parse compact decimal is_space
suffixed = refl

no_number : normalize_bill_number (some (codes "HB")) ≡ none
unfolding normalize_bill_number parse compact decimal is_space
no_number = refl

normalize_bill_number-alnum_example :
    normalize_bill_number (some (codes "H.B. 123")) ≡ normalize_bill_number (some (codes "hb-123"))
normalize_bill_number-alnum_example =
    normalize_bill_number-alnum (codes "H.B. 123") (codes "hb-123") refl

normalize_bill_number_idem_example :
    normalize_bill_number (some (codes "HB 123")) ≡ some (codes "HB 123")
normalize_bill_number_idem_example =
    normalize_bill_number_idem (codes "H.B. 123") (codes "HB 123") dotted
