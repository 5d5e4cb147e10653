-- ===== src/Types/Signed/RoundTrip.antt =====
-- The codecs of signed numbers of bacnet/types, one after the other.
use gobac.Prelude.{
  ℕ, ◌+◌, ◌-◌, ◌*◌, ◌/◌, ◌%◌, ◌^◌, ◌≤◌, ◌<◌, ◌≡◌, refl, ◌∙◌, arith, bit_and, bit_or,
}
use gobac.Prelude.{[], ◌∷◌, length}
use gobac.Prelude.Bits.{bit_or_comm, bit_or-shifted, table_agrees, by_table}
use gobac.Prelude.Int.{ℤ, pos, negsuc, ◌≤ℤ◌, to_word, of_word}
use gobac.Result.{ok}
use gobac.Types.Bytes.{big_endian16-sum, big_endian32-sum}
use gobac.Types.Signed.{unmarshal_int8, unmarshal_int16, unmarshal_int24, unmarshal_int32}
use gobac.Types.Signed.{encode_var_int, decode_var_int}

-- An `int32`.
abbrev pub IsI32 : ℤ → Type 0
IsI32 i = (negsuc (2 ^ 31 - 1) ≤ℤ i) × (i ≤ℤ pos (2 ^ 31 - 1))

sign_bit : (b : ℕ) → b < 256 → bit_and b 0x80 ≡ b / 128 * 128
unfolding table_agrees
sign_bit b h = by_table (λ x. bit_and x 0x80) (λ x. x / 128 * 128) 256 refl b h

unmarshal8-word : (b0 : ℕ) → unmarshal_int8 (b0 ∷ []) ≡ ok (of_word 7 b0)
unfolding unmarshal_int8
unmarshal8-word b0 = refl

unmarshal16-word :
    (b0 b1 : ℕ) → b1 < 256 → unmarshal_int16 (b0 ∷ b1 ∷ []) ≡ ok (of_word 15 (b0 * 2 ^ 8 + b1))
unfolding unmarshal_int16
unmarshal16-word b0 b1 h = rw (big_endian16-sum b0 b1 h)

unmarshal32-word :
    (b0 b1 b2 b3 : ℕ)
    → b1 < 256
    → b2 < 256
    → b3 < 256
    → unmarshal_int32 (b0 ∷ b1 ∷ b2 ∷ b3 ∷ [])
      ≡ ok (of_word 31 (b0 * 2 ^ 24 + b1 * 2 ^ 16 + b2 * 2 ^ 8 + b3))
unfolding unmarshal_int32
unmarshal32-word b0 b1 b2 b3 h1 h2 h3 = rw (big_endian32-sum b0 b1 b2 b3 h1 h2 h3)

-- `v | 0xff000000` for `v` of 24 bits; the operands stand the other way round.
fill_sign : (v : ℕ) → v < 2 ^ 24 → bit_or v 0xff00_0000 ≡ 0xff00_0000 + v
fill_sign v h = bit_or_comm v 0xff00_0000 ∙ bit_or-shifted 24 0xff v h

unmarshal24-word :
    (b0 b1 b2 : ℕ)
    → b0 < 256
    → b1 < 256
    → b2 < 256
    → unmarshal_int24 (b0 ∷ b1 ∷ b2 ∷ []) ≡ ok (of_word 23 (b0 * 2 ^ 16 + b1 * 2 ^ 8 + b2))
unfolding unmarshal_int24
unmarshal24-word b0 b1 b2 h0 h1 h2 = ground (
  arith,
  sign_bit b0,
  bit_or-shifted 16 b0 (b1 * 2 ^ 8),
  bit_or-shifted 8 (b0 * 2 ^ 8 + b1) b2,
  fill_sign (b0 * 2 ^ 16 + b1 * 2 ^ 8 + b2),
)

-- `DecodeVarInt` gives back every `int32` that `EncodeVarInt` wrote.
pub decode-encode_var_int : (i : ℤ) → IsI32 i → decode_var_int (encode_var_int i) ≡ i
unfolding decode_var_int encode_var_int
decode-encode_var_int i h =
    let w : ℕ = to_word 32 i in
    let w' : ℕ = to_word 16 i in
    ground (
      arith,
      unmarshal8-word (to_word 8 i),
      unmarshal16-word (w' / 2 ^ 8 % 256) (w' % 256),
      unmarshal24-word (w / 2 ^ 16 % 256) (w / 2 ^ 8 % 256) (w % 256),
      unmarshal32-word (w / 2 ^ 24 % 256) (w / 2 ^ 16 % 256) (w / 2 ^ 8 % 256) (w % 256),
    )

-- Every `int32` is encoded in 1 to 4 octets.
pub encode_var_int_shape :
    (i : ℤ) → (1 ≤ length (encode_var_int i)) × (length (encode_var_int i) ≤ 4)
unfolding encode_var_int
encode_var_int_shape i = ground arith
