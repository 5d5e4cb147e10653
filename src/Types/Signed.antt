-- ===== src/Types/Signed.antt =====
-- bacnet/types/signed.go, and the signed half of signed_util.go and encoding_util.go. A Go integer of
-- `w` bits is an integer in its range; conversions go through its bit pattern.
pub mod RoundTrip
use gobac.Prelude.{ℕ, ◌+◌, ◌*◌, ◌/◌, ◌%◌, ◌^◌, bit_and, bit_or, List, [], ◌∷◌, length}
use gobac.Prelude.{◌&&◌, leb, ◌==◌, if◌then◌else◌}
use gobac.Prelude.Int.{ℤ, pos, negsuc, leb_ℤ, to_word, of_word}
use gobac.Result.{Error, Result, ok, err, wrong_size}
use gobac.Types.Bytes.{Bytes, big_endian16, big_endian32}
use gobac.Types.Unsigned.{marshal_uint16, marshal_uint24, marshal_uint32}

unfoldable pub marshal_int8 : ℤ → Bytes
marshal_int8 i = to_word 8 i ∷ []

unfoldable pub unmarshal_int8 : Bytes → Result ℤ
unmarshal_int8 (b0 ∷ []) = ok (of_word 7 b0)
unmarshal_int8 _ = err wrong_size

-- `binary.BigEndian.PutUint16(b, uint16(i))`
unfoldable pub marshal_int16 : ℤ → Bytes
unfolding marshal_uint16
marshal_int16 i = marshal_uint16 (to_word 16 i)

unfoldable pub unmarshal_int16 : Bytes → Result ℤ
unmarshal_int16 (b0 ∷ b1 ∷ []) = ok (of_word 15 (big_endian16 b0 b1))
unmarshal_int16 _ = err wrong_size

-- An `Int24` is an `int32`; its pattern is `uint32(i)`.
unfoldable pub marshal_int24 : ℤ → Bytes
unfolding marshal_uint24
marshal_int24 i = marshal_uint24 (to_word 32 i)

-- The sign bit of the first octet fills the missing octet.
unfoldable pub unmarshal_int24 : Bytes → Result ℤ
unmarshal_int24 (b0 ∷ b1 ∷ b2 ∷ []) =
    let v : ℕ = bit_or (bit_or (b0 * 2 ^ 16) (b1 * 2 ^ 8)) b2 in
    ok (of_word 31 (if bit_and b0 0x80 == 0 then v else bit_or v 0xff00_0000))
unmarshal_int24 _ = err wrong_size

unfoldable pub marshal_int32 : ℤ → Bytes
unfolding marshal_uint32
marshal_int32 i = marshal_uint32 (to_word 32 i)

unfoldable pub unmarshal_int32 : Bytes → Result ℤ
unmarshal_int32 (b0 ∷ b1 ∷ b2 ∷ b3 ∷ []) = ok (of_word 31 (big_endian32 b0 b1 b2 b3))
unmarshal_int32 _ = err wrong_size

-- `GetIntLen`
unfoldable pub get_int_len : ℤ → ℕ
get_int_len val =
    if leb_ℤ val (pos 127) && leb_ℤ (negsuc 127) val
    then 1
    else if leb_ℤ val (pos 32767) && leb_ℤ (negsuc 32767) val
    then 2
    else if leb_ℤ val (pos 8388607) && leb_ℤ (negsuc 8388607) val
    then 3
    else 4

unfoldable pub encode_var_int : ℤ → Bytes
unfolding get_int_len marshal_int8 marshal_int16 marshal_int24 marshal_int32
encode_var_int val =
    let size = get_int_len val in
    if size == 1
    then marshal_int8 val
    else if size == 2
    then marshal_int16 val
    else if size == 3
    then marshal_int24 val
    else marshal_int32 val

-- The error is dropped, and the variable keeps its 0.
abbrev or_zero : Result ℤ → ℤ
or_zero (ok v) = v
or_zero (err e) = pos 0

unfoldable pub decode_var_int : Bytes → ℤ
decode_var_int (b0 ∷ []) = or_zero (unmarshal_int8 (b0 ∷ []))
decode_var_int (b0 ∷ b1 ∷ []) = or_zero (unmarshal_int16 (b0 ∷ b1 ∷ []))
decode_var_int (b0 ∷ b1 ∷ b2 ∷ []) = or_zero (unmarshal_int24 (b0 ∷ b1 ∷ b2 ∷ []))
decode_var_int bs = or_zero (unmarshal_int32 bs)
