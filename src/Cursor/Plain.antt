-- ===== src/Cursor/Plain.antt =====
-- A codec to run the cursor with: four characters, the last of which carries the number.
use billcommons.Base.{ap, ◌+◌, ◌-◌, refl, Option, some, none, [], ◌∷◌, arith}
use billcommons.Base.Text.{Text}
use billcommons.Cursor.{Codec, Json, object, integer, payload_of}
use billcommons.Cursor.RoundTrip.{IsCodec}

abbrev written : Json → Text
written (object ((k, v) ∷ (m, integer n) ∷ [])) = b'A' ∷ b'A' ∷ b'A' ∷ (100 + n) ∷ []
written j = []

abbrev read : Text → Option Json
read (a ∷ b ∷ c ∷ d ∷ []) = some (payload_of (d - 100))
read s = none

abbrev pub plain_codec : Codec
plain_codec = record { b64encode = written; b64decode = read }

pub plain_codec-IsCodec : IsCodec plain_codec
plain_codec-IsCodec seq = (
  b'A' ∷ b'A' ∷ b'A' ∷ (100 + seq) ∷ [],
  0,
  (refl, ground arith, omega arith, omega arith, refl, ap (λ n. some (payload_of n)) (omega arith)),
)
