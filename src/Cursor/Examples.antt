-- ===== src/Cursor/Examples.antt =====
-- Cursors that are read and that are not, and the theorems at them.
use billcommons.Base.{true, ◌≡◌, refl, some, none, [], ◌∷◌, arith}
use billcommons.Base.Text.{Text, codes}
use billcommons.Cursor.{object, integer, boolean, encode_cursor, decode_cursor, check_payload}
use billcommons.Cursor.Plain.{plain_codec, plain_codec-IsCodec}
use billcommons.Cursor.RoundTrip.{decode_cursor-encode_cursor}

decode_cursor-encode_cursor_example :
    decode_cursor plain_codec (encode_cursor plain_codec 42) ≡ some 42
decode_cursor-encode_cursor_example =
    decode_cursor-encode_cursor plain_codec 42 plain_codec-IsCodec (omega arith)

abbrev cursor_42 : Text
cursor_42 = b'A' ∷ b'A' ∷ b'A' ∷ 142 ∷ []

read_42 : decode_cursor plain_codec cursor_42 ≡ some 42
unfolding decode_cursor
read_42 = refl

true_is_version :
    check_payload (some (object ((codes "v", boolean true) ∷ (codes "seq", integer 7) ∷ [])))
    ≡ some 7
true_is_version = refl

no_seq : check_payload (some (object ((codes "v", integer 1) ∷ []))) ≡ none
no_seq = refl
