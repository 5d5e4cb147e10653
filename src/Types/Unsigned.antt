-- ===== src/Types/Unsigned.antt =====
-- bacnet/types/unsigned.go, and the unsigned half of signed_util.go and encoding_util.go: numbers in
-- 1 to 4 octets, highest first. A number of `w` bits is a natural number below 2 ^ w.
pub mod RoundTrip
use gobac.Prelude.{ℕ, ◌+◌, ◌*◌, ◌/◌, ◌%◌, ◌^◌, bit_and, bit_or, List, [], ◌∷◌, length}
use gobac.Prelude.{leb, ◌==◌, if◌then◌else◌}
use gobac.Result.{Error, Result, ok, err, wrong_size}
use gobac.Types.Bytes.{Bytes, big_endian16, big_endian32}

unfoldable pub marshal_uint16 : ℕ → Bytes
marshal_uint16 u = (u / 2 ^ 8 % 256) ∷ (u % 256) ∷ []

unfoldable pub unmarshal_uint16 : Bytes → Result ℕ
unmarshal_uint16 (b0 ∷ b1 ∷ []) = ok (big_endian16 b0 b1)
unmarshal_uint16 _ = err wrong_size

unfoldable pub marshal_uint24 : ℕ → Bytes
marshal_uint24 u = (u / 2 ^ 16 % 256) ∷ (u / 2 ^ 8 % 256) ∷ (u % 256) ∷ []

-- Each octet is shifted and masked, then or-ed to the value.
unfoldable pub unmarshal_uint24 : Bytes → Result ℕ
unmarshal_uint24 (b0 ∷ b1 ∷ b2 ∷ []) =
    let v : ℕ = bit_or 0 (bit_and (b0 * 2 ^ 16) 0x00ff0000) in
    let v' : ℕ = bit_or v (bit_and (b1 * 2 ^ 8) 0x0000ff00) in
    ok (bit_or v' (bit_and b2 0x000000ff))
unmarshal_uint24 _ = err wrong_size

unfoldable pub marshal_uint32 : ℕ → Bytes
marshal_uint32 u = (u / 2 ^ 24 % 256) ∷ (u / 2 ^ 16 % 256) ∷ (u / 2 ^ 8 % 256) ∷ (u % 256) ∷ []

unfoldable pub unmarshal_uint32 : Bytes → Result ℕ
unmarshal_uint32 (b0 ∷ b1 ∷ b2 ∷ b3 ∷ []) = ok (big_endian32 b0 b1 b2 b3)
unmarshal_uint32 _ = err wrong_size

-- `GetUintLen`
unfoldable pub get_uint_len : ℕ → ℕ
get_uint_len val =
    if leb val 0xff then 1 else if leb val 0xffff then 2 else if leb val 0xff_ffff then 3 else 4

unfoldable pub encode_var_uint : ℕ → Bytes
unfolding get_uint_len marshal_uint16 marshal_uint24 marshal_uint32
encode_var_uint value =
    let size = get_uint_len value in
    if size == 1
    then (value % 256) ∷ []
    else if size == 2
    then marshal_uint16 value
    else if size == 3
    then marshal_uint24 value
    else marshal_uint32 value

-- The error is dropped, and the variable keeps its 0.
abbrev or_zero : Result ℕ → ℕ
or_zero (ok v) = v
or_zero (err e) = 0

unfoldable pub decode_var_uint : Bytes → ℕ
decode_var_uint [] = 0
decode_var_uint (b0 ∷ []) = b0
decode_var_uint (b0 ∷ b1 ∷ []) = or_zero (unmarshal_uint16 (b0 ∷ b1 ∷ []))
decode_var_uint (b0 ∷ b1 ∷ b2 ∷ []) = or_zero (unmarshal_uint24 (b0 ∷ b1 ∷ b2 ∷ []))
decode_var_uint (b0 ∷ b1 ∷ b2 ∷ b3 ∷ rest) = or_zero (unmarshal_uint32 (b0 ∷ b1 ∷ b2 ∷ b3 ∷ rest))
