-- ===== src/Types/Unsigned/RoundTrip.antt =====
-- The codecs of unsigned numbers of bacnet/types, one after the other.
use gobac.Prelude.{ℕ, ◌+◌, ◌*◌, ◌/◌, ◌%◌, ◌^◌, ◌≤◌, ◌<◌, ◌≡◌, arith, bit_and}
use gobac.Prelude.{[], ◌∷◌, length}
use gobac.Prelude.Bits.{zero-bit_or, bit_or-shifted, bit_and-ones, bit_and-shifted}
use gobac.Result.{ok}
use gobac.Types.Bytes.{Bytes, IsBytes, big_endian16-sum, big_endian32-sum}
use gobac.Types.Unsigned.{encode_var_uint, decode_var_uint}
use gobac.Types.Unsigned.{marshal_uint16, unmarshal_uint16, marshal_uint24, unmarshal_uint24}
use gobac.Types.Unsigned.{marshal_uint32, unmarshal_uint32}

mask_byte : (k b : ℕ) → b < 256 → bit_and (b * 2 ^ k) (0xff * 2 ^ k) ≡ b * 2 ^ k
mask_byte k b h = ground (arith, bit_and-shifted k b 0xff, bit_and-ones 8 b)

pub unmarshal24-sum :
    (b0 b1 b2 : ℕ)
    → b0 < 256
    → b1 < 256
    → b2 < 256
    → unmarshal_uint24 (b0 ∷ b1 ∷ b2 ∷ []) ≡ ok (b0 * 2 ^ 16 + b1 * 2 ^ 8 + b2)
unfolding unmarshal_uint24
unmarshal24-sum b0 b1 b2 h0 h1 h2 = ground (
  arith,
  mask_byte 16 b0,
  mask_byte 8 b1,
  mask_byte 0 b2,
  zero-bit_or (b0 * 2 ^ 16),
  bit_or-shifted 16 b0 (b1 * 2 ^ 8),
  bit_or-shifted 8 (b0 * 2 ^ 8 + b1) b2,
)

pub unmarshal16-sum :
    (b0 b1 : ℕ) → b1 < 256 → unmarshal_uint16 (b0 ∷ b1 ∷ []) ≡ ok (b0 * 2 ^ 8 + b1)
unfolding unmarshal_uint16
unmarshal16-sum b0 b1 h = rw (big_endian16-sum b0 b1 h)

pub unmarshal32-sum :
    (b0 b1 b2 b3 : ℕ)
    → b1 < 256
    → b2 < 256
    → b3 < 256
    → unmarshal_uint32 (b0 ∷ b1 ∷ b2 ∷ b3 ∷ []) ≡ ok (b0 * 2 ^ 24 + b1 * 2 ^ 16 + b2 * 2 ^ 8 + b3)
unfolding unmarshal_uint32
unmarshal32-sum b0 b1 b2 b3 h1 h2 h3 = rw (big_endian32-sum b0 b1 b2 b3 h1 h2 h3)

pub unmarshal-marshal_uint16 : (u : ℕ) → u < 2 ^ 16 → unmarshal_uint16 (marshal_uint16 u) ≡ ok u
unfolding marshal_uint16
unmarshal-marshal_uint16 u h = ground (arith, unmarshal16-sum (u / 2 ^ 8 % 256) (u % 256))

pub unmarshal-marshal_uint24 : (u : ℕ) → u < 2 ^ 24 → unmarshal_uint24 (marshal_uint24 u) ≡ ok u
unfolding marshal_uint24
unmarshal-marshal_uint24 u h =
    ground (arith, unmarshal24-sum (u / 2 ^ 16 % 256) (u / 2 ^ 8 % 256) (u % 256))

pub unmarshal-marshal_uint32 : (u : ℕ) → u < 2 ^ 32 → unmarshal_uint32 (marshal_uint32 u) ≡ ok u
unfolding marshal_uint32
unmarshal-marshal_uint32 u h =
    ground
      (arith, unmarshal32-sum (u / 2 ^ 24 % 256) (u / 2 ^ 16 % 256) (u / 2 ^ 8 % 256) (u % 256))

pub marshal-unmarshal_uint32 :
    (b0 b1 b2 b3 : ℕ)
    → IsBytes (b0 ∷ b1 ∷ b2 ∷ b3 ∷ [])
    → marshal_uint32 (b0 * 2 ^ 24 + b1 * 2 ^ 16 + b2 * 2 ^ 8 + b3) ≡ b0 ∷ b1 ∷ b2 ∷ b3 ∷ []
unfolding marshal_uint32
marshal-unmarshal_uint32 b0 b1 b2 b3 h = ground arith

-- `EncodeVarUint` writes 1 to 4 octets, all of them bytes.
pub encode_var_uint_shape :
    (v : ℕ)
    → IsBytes (encode_var_uint v)
      × (1 ≤ length (encode_var_uint v))
      × (length (encode_var_uint v) ≤ 4)
unfolding encode_var_uint
encode_var_uint_shape v = ground arith

-- `DecodeVarUint` gives back every `uint32` that `EncodeVarUint` wrote.
pub decode-encode_var_uint : (v : ℕ) → v < 2 ^ 32 → decode_var_uint (encode_var_uint v) ≡ v
unfolding decode_var_uint encode_var_uint
decode-encode_var_uint v h = ground (
  arith,
  unmarshal16-sum (v / 2 ^ 8 % 256) (v % 256),
  unmarshal24-sum (v / 2 ^ 16 % 256) (v / 2 ^ 8 % 256) (v % 256),
  unmarshal32-sum (v / 2 ^ 24 % 256) (v / 2 ^ 16 % 256) (v / 2 ^ 8 % 256) (v % 256),
)

decode_var_uint-lt :
    (bs : Bytes) → IsBytes bs → length bs ≤ 4 → decode_var_uint bs < 256 ^ length bs
unfolding decode_var_uint
decode_var_uint-lt [] h fits = omega arith
decode_var_uint-lt (b0 ∷ []) h fits = omega arith
decode_var_uint-lt (b0 ∷ b1 ∷ []) h fits = ground (arith, unmarshal16-sum b0 b1)
decode_var_uint-lt (b0 ∷ b1 ∷ b2 ∷ []) h fits = ground (arith, unmarshal24-sum b0 b1 b2)
decode_var_uint-lt (b0 ∷ b1 ∷ b2 ∷ b3 ∷ []) h fits = ground (arith, unmarshal32-sum b0 b1 b2 b3)
decode_var_uint-lt (b0 ∷ b1 ∷ b2 ∷ b3 ∷ b4 ∷ bs) h fits = absurd (omega arith)

-- For a `uint32`, any 1 to 4 bytes that decode to it are at least as many as those that
-- `EncodeVarUint` writes.
pub encode_var_uint_minimal :
    (v : ℕ) (bs : Bytes)
    → v < 2 ^ 32
    → IsBytes bs
    → 1 ≤ length bs
    → length bs ≤ 4
    → decode_var_uint bs ≡ v
    → length (encode_var_uint v) ≤ length bs
unfolding encode_var_uint
encode_var_uint_minimal v [] fits h some few e = absurd (omega arith)
encode_var_uint_minimal v (b0 ∷ []) fits h some few e =
    ground (arith, decode_var_uint-lt (b0 ∷ []) h few)
encode_var_uint_minimal v (b0 ∷ b1 ∷ []) fits h some few e =
    ground (arith, decode_var_uint-lt (b0 ∷ b1 ∷ []) h few)
encode_var_uint_minimal v (b0 ∷ b1 ∷ b2 ∷ []) fits h some few e =
    ground (arith, decode_var_uint-lt (b0 ∷ b1 ∷ b2 ∷ []) h few)
encode_var_uint_minimal v (b0 ∷ b1 ∷ b2 ∷ b3 ∷ bs) fits h some few e =
    omega (arith, encode_var_uint_shape v)
