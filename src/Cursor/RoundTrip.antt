-- ===== src/Cursor/RoundTrip.antt =====
-- What a cursor gives back.
use billcommons.Base.{
  ℕ, zero, suc, ◌+◌, ◌-◌, ◌%◌, ◌^◌, ◌≤◌, ◌<◌, ◌≡◌, refl, ◌∙◌, ap, Option, none, some, [], ◌∷◌, ◌++◌,
  length, if_induction, arith,
}
use billcommons.Base.Text.{Text, codes}
use billcommons.Cursor.{
  Scalar, null, boolean, integer, negative, float, text, nested, Json, scalar, array, object, get,
  is_version, seq_of, Codec, payload_of, rstrip_pad, pad, padded, check_payload, encode_cursor,
  decode_cursor,
}

-- RFC 4648 and json: an encoding is a body that neither is empty nor ends in the pad character,
-- behind which up to two of these make the length a multiple of four, and decoding undoes it.
abbrev pub EncodesTo : Codec → ℕ → Text → ℕ → Type 0
EncodesTo codec seq body n =
    (codec.b64encode (payload_of seq) ≡ body ++ pad n)
    × (rstrip_pad body ≡ body)
    × (0 < length body)
    × (n ≤ 2)
    × ((length body + n) % 4 ≡ 0)
    × (codec.b64decode (body ++ pad n) ≡ some (payload_of seq))

abbrev pub IsCodec : Codec → Type 0
IsCodec codec = (seq : ℕ) → (body : Text) × (n : ℕ) × EncodesTo codec seq body n

rstrip_pad-pad : (n : ℕ) → rstrip_pad (pad n) ≡ []
rstrip_pad-pad zero = refl
rstrip_pad-pad (suc n) = rw (rstrip_pad-pad n)

rstrip_pad-append : (s : Text) (n : ℕ) → rstrip_pad (s ++ pad n) ≡ rstrip_pad s
rstrip_pad-append [] n = rstrip_pad-pad n
rstrip_pad-append (c ∷ s) n = rw (rstrip_pad-append s n)

pad-lem : (l n : ℕ) → n ≤ 2 → (l + n) % 4 ≡ 0 → (4 - l % 4) % 4 ≡ n
pad-lem l n h k = omega arith

-- What stands for a sequence number, without the padding.
encode_cursor-body :
    (codec : Codec) (seq : ℕ) (body : Text) (n : ℕ)
    → EncodesTo codec seq body n
    → encode_cursor codec seq ≡ body
unfolding encode_cursor
encode_cursor-body codec seq body n e = ap rstrip_pad e.0 ∙ rstrip_pad-append body n ∙ e.1

pub encode_cursor-ne :
    (codec : Codec) (seq : ℕ) → IsCodec codec → 0 < length (encode_cursor codec seq)
encode_cursor-ne codec seq law =
    let (body, n, e) = law seq in rw (encode_cursor-body codec seq body n e) (e.2)

-- Of a codec as RFC 4648 and JSON describe it, the cursor made of a sequence number in the range of a
-- bigint is read as that number.
pub decode_cursor-encode_cursor :
    (codec : Codec) (seq : ℕ)
    → IsCodec codec
    → seq < 2 ^ 63
    → decode_cursor codec (encode_cursor codec seq) ≡ some seq
unfolding decode_cursor
decode_cursor-encode_cursor codec seq law h =
    let (body, n, e) = law seq in
    rw (encode_cursor-body codec seq body n e, pad-lem (length body) n e.3 e.4, e.5)
      (ground (arith, h))

seq_of-bigint : (v : Option Scalar) (seq : ℕ) → seq_of v ≡ some seq → seq < 2 ^ 63
seq_of-bigint none seq h = ground (arith, h)
seq_of-bigint (some null) seq h = ground (arith, h)
seq_of-bigint (some (boolean b)) seq h = ground (arith, h)
seq_of-bigint (some (integer n)) seq h = ground (arith, h)
seq_of-bigint (some (negative n)) seq h = ground (arith, h)
seq_of-bigint (some (float one)) seq h = ground (arith, h)
seq_of-bigint (some (text s)) seq h = ground (arith, h)
seq_of-bigint (some nested) seq h = ground (arith, h)

check_payload-bigint : (j : Option Json) (seq : ℕ) → check_payload j ≡ some seq → seq < 2 ^ 63
check_payload-bigint none seq = λ h. ground (arith, h)
check_payload-bigint (some (scalar v)) seq = λ h. ground (arith, h)
check_payload-bigint (some array) seq = λ h. ground (arith, h)
check_payload-bigint (some (object fields)) seq =
    if_induction (λ o. o ≡ some seq → seq < 2 ^ 63) (is_version (get fields (codes "v")))
      (λ _. seq_of-bigint (get fields (codes "seq")) seq) λ _ h. ground (arith, h)

-- A cursor that is read, whatever the codec says, is read as a number in the range of a bigint.
pub decode_cursor-bigint :
    (codec : Codec) (cursor : Text) (seq : ℕ) → decode_cursor codec cursor ≡ some seq → seq < 2 ^ 63
unfolding decode_cursor
decode_cursor-bigint codec cursor seq h =
    check_payload-bigint (codec.b64decode (padded cursor)) seq h
