-- ===== src/Cursor.antt =====
-- packages/shared/billcommons_shared/cursor.py: the cursor of the change feed. JSON and base64 are the
-- standard library's and stand behind a record of functions on texts; `none` is InvalidCursor. A JSON
-- value keeps what the code asks of it.
pub mod RoundTrip
pub mod Plain
mod Examples
use billcommons.Base.{
  ℕ, zero, suc, ◌+◌, ◌-◌, ◌%◌, ◌^◌, Bool, true, false, Option, none, some, List, [], ◌∷◌, ◌++◌,
  ◌&&◌, not, length, ◌==◌, ltb, if◌then◌else◌,
}
use billcommons.Base.Text.{Text, text_eq, codes}

-- A value of an object. A float tells if it equals 1; `nested` is an array or an object.
pub data Scalar : Type 0 where
  null : Scalar
  boolean : Bool → Scalar
  integer : ℕ → Scalar
  negative : ℕ → Scalar
  float : Bool → Scalar
  text : Text → Scalar
  nested : Scalar

pub data Json : Type 0 where
  scalar : Scalar → Json
  array : Json
  object : List (Text × Scalar) → Json

-- urlsafe_b64encode(dumps(payload)), and loads(urlsafe_b64decode(padded)), `none` where that raises.
pub record Codec : Type 0 where
  b64encode : Json → Text
  b64decode : Text → Option Json

abbrev pub cursor_version : ℕ
cursor_version = 1

abbrev pub payload_of : ℕ → Json
payload_of seq = object ((codes "v", integer cursor_version) ∷ (codes "seq", integer seq) ∷ [])

-- text.rstrip("=")
abbrev pub rstrip_pad : Text → Text
rstrip_pad [] = []
rstrip_pad (c ∷ s) = elim (rstrip_pad s) [
  | [] ↦ if c == b'=' then [] else c ∷ []
  | d ∷ t ↦ c ∷ d ∷ t
]

abbrev pub pad : ℕ → Text
pad zero = []
pad (suc n) = b'=' ∷ pad n

-- cursor + "=" * (-len(cursor) % 4)
abbrev pub padded : Text → Text
padded cursor = cursor ++ pad ((4 - length cursor % 4) % 4)

abbrev pub get : List (Text × Scalar) → Text → Option Scalar
get [] name = none
get ((k, v) ∷ fields) name = if text_eq k name then some v else get fields name

-- payload.get("v") == CURSOR_VERSION, where True and 1.0 equal 1
abbrev pub is_version : Option Scalar → Bool
is_version (some (integer n)) = n == cursor_version
is_version (some (boolean b)) = b
is_version (some (float one)) = one
is_version v = false

-- The sequence number, if the integer is in the range of a bigint.
abbrev pub seq_of : Option Scalar → Option ℕ
seq_of (some (integer n)) = if ltb (2 ^ 63 - 1) n then none else some n
seq_of v = none

abbrev pub check_payload : Option Json → Option ℕ
check_payload (some (object fields)) =
    if is_version (get fields (codes "v")) then seq_of (get fields (codes "seq")) else none
check_payload j = none

unfoldable pub encode_cursor : Codec → ℕ → Text
encode_cursor codec seq = rstrip_pad (codec.b64encode (payload_of seq))

unfoldable pub decode_cursor : Codec → Text → Option ℕ
decode_cursor codec cursor = check_payload (codec.b64decode (padded cursor))
