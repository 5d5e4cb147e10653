-- ===== src/Types/Context/RoundTrip.antt =====
-- writeContext and decodeContext of simulator/services.go, one after the other.
use mathlib.Core.List.{append_assoc}
use gobac.Prelude.{ℕ, ◌^◌, ◌≤◌, ◌<◌, ◌≡◌, refl, arith, ◌++◌, length}
use gobac.Prelude.{length-append, take-append, drop-append, true, false, ltb, ◌||◌}
use gobac.Prelude.Int.{pos}
use gobac.Result.{ok}
use gobac.Types.Bytes.{Bytes}
use gobac.Types.Tag.{Tag, decode_tag, encode_context_tag}
use gobac.Types.Tag.RoundTrip.{decode_tag-encode_primitive, encode_primitive_pos}
use gobac.Types.Unsigned.{encode_var_uint}
use gobac.Types.Unsigned.RoundTrip.{decode-encode_var_uint, encode_var_uint_shape}
use gobac.Types.Context.{
  context_tag, write_context, split_value, decode_context, decode_context_unsigned,
}
use gobac.Types.Context.{is_primitive}

split_value-append :
    (head value rest : Bytes)
    → split_value (pos (length value)) (length head) (head ++ (value ++ rest)) ≡ ok (value, rest)
unfolding split_value
split_value-append head value rest = ground (
  arith,
  length-append head (value ++ rest),
  length-append value rest,
  drop-append head (value ++ rest),
  take-append value rest,
  drop-append value rest,
)

-- The header of a value that was written.
pub decode_tag-write_context :
    (number : ℕ) (value rest : Bytes)
    → number < 256
    → length value < 2 ^ 32
    → (t : Tag) × (r : ℕ) × (decode_tag (write_context number value ++ rest) ≡ (t, r))
      × (1 ≤ r)
      × (is_primitive t number ≡ true)
unfolding write_context
decode_tag-write_context number value rest byte fits =
    let t = context_tag number value in
    let head = encode_context_tag t in
    (
      record {
        tag_number = number;
        len_value = pos (length value);
        context = true;
        extended = ltb 14 number || ltb 4 (length value);
        opening = false;
        closing = false;
      },
      length head,
      rw (append_assoc head value rest)
          (decode_tag-encode_primitive true t (length value) (value ++ rest) byte refl fits),
      encode_primitive_pos true t (length value) byte refl fits,
      ground arith,
    )

pub write_context-pos :
    (number : ℕ) (value rest : Bytes)
    → number < 256
    → length value < 2 ^ 32
    → 1 ≤ length (write_context number value ++ rest)
unfolding write_context
write_context-pos number value rest byte fits =
    let t = context_tag number value in
    omega (
      arith,
      encode_primitive_pos true t (length value) byte refl fits,
      length-append (encode_context_tag t) value,
      length-append (encode_context_tag t ++ value) rest,
    )

-- For a tag number of a byte and a value of fewer than 2^32 octets, `decodeContext` reads back the
-- value that `writeContext` wrote under the same number, and leaves what follows it.
pub decode_context-write_context :
    (number : ℕ) (value rest : Bytes)
    → number < 256
    → length value < 2 ^ 32
    → decode_context (write_context number value ++ rest) number ≡ ok (value, rest)
unfolding decode_context write_context
decode_context-write_context number value rest byte fits =
    let t = context_tag number value in
    let head = encode_context_tag t in
    let some_octets = encode_primitive_pos true t (length value) byte refl fits in
    rw
      (
        append_assoc head value rest,
        decode_tag-encode_primitive true t (length value) (value ++ rest) byte refl fits,
        split_value-append head value rest,
      )
      (ground (arith, some_octets, length-append head (value ++ rest)))

-- `decodeContextUnsigned` reads back every `uint32` that was written under the same number.
pub decode_context_unsigned-write_context :
    (number v : ℕ) (rest : Bytes)
    → number < 256
    → v < 2 ^ 32
    → decode_context_unsigned (write_context number (encode_var_uint v) ++ rest) number
      ≡ ok (v, rest)
unfolding decode_context_unsigned
decode_context_unsigned-write_context number v rest byte fits =
    let (_, some_octets, few) = encode_var_uint_shape v in
    rw
      (
        decode_context-write_context number (encode_var_uint v) rest byte (omega (arith, few)),
        decode-encode_var_uint v fits,
      )
      (ground (arith, some_octets, few))
