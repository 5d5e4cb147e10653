-- ===== src/Types/Property/Fields.antt =====
-- The fields of a property, written and read back: bacnet/types/property.go.
use mathlib.Core.List.{append_assoc}
use gobac.Prelude.{ℕ, ◌^◌, ◌≤◌, ◌<◌, ◌≡◌, refl, ap, arith, true, false, ltb, ◌||◌}
use gobac.Prelude.{[], ◌∷◌, ◌++◌, length, length-append, drop-append, take-append, some}
use gobac.Prelude.Int.{pos}
use gobac.Result.{ok}
use gobac.Types.Bytes.{Bytes}
use gobac.Types.Tag.{Tag, encode_context_tag, decode_tag}
use gobac.Types.Tag.RoundTrip.{decode_tag-encode_primitive, encode_primitive_pos}
use gobac.Types.Unsigned
use gobac.Types.Unsigned.{encode_var_uint}
use gobac.Types.Unsigned.RoundTrip.{decode-encode_var_uint, encode_var_uint_shape}
use gobac.Types.ObjectId
use gobac.Types.ObjectId.{ObjectId}
use gobac.Types.ObjectId.RoundTrip.{IsObjectId, unmarshal-marshal_object}
use gobac.Types.Context.{context_tag, write_context}
use gobac.Types.Property.{decode_header, read_value, cut_value, read_object, read_id, read_index}
use gobac.Types.Property.{index_behind, object_bytes}

-- The header that `writeContext` puts before a value.
abbrev pub field_header : ℕ → Bytes → Tag × ℕ
field_header number value = (
  record {
    tag_number = number;
    len_value = pos (length value);
    context = true;
    extended = ltb 14 number || ltb 4 (length value);
    opening = false;
    closing = false;
  },
  length (encode_context_tag (context_tag number value)),
)

pub decode_header-behind :
    (b : Bytes) (t : Tag) (r : ℕ) → decode_tag b ≡ (t, r) → 1 ≤ r → decode_header b ≡ ok (t, r)
unfolding decode_header
decode_header-behind [] t r e h =
    unfold decode_tag in absurd (omega (arith, ap (λ (p : Tag × ℕ). p.1) e))
decode_header-behind (b0 ∷ b) t r e h = rw e (ground arith)

module _ (number : ℕ) (value rest : Bytes) (byte : number < 256)
    (fits : length value < 2 ^ 32) where
  pub decode_tag-field : decode_tag (write_context number value ++ rest) ≡ field_header number value
  unfolding write_context
  decode_tag-field =
      let t = context_tag number value in
      rw (append_assoc (encode_context_tag t) value rest)
        (decode_tag-encode_primitive true t (length value) (value ++ rest) byte refl fits)

  pub field_header_pos : 1 ≤ (field_header number value).1
  field_header_pos =
      encode_primitive_pos true (context_tag number value) (length value) byte refl fits

  pub decode_header-write_context :
      decode_header (write_context number value ++ rest) ≡ ok (field_header number value)
  decode_header-write_context = decode_header-behind _ _ _ decode_tag-field field_header_pos

  pub read_value-write_context :
      read_value (field_header number value) (write_context number value ++ rest) ≡ ok (value, rest)
  unfolding read_value cut_value write_context
  read_value-write_context =
      let head = encode_context_tag (context_tag number value) in
      rw (append_assoc head value rest) (
        ground (
          arith,
          length-append head (value ++ rest),
          length-append value rest,
          drop-append head (value ++ rest),
          take-append value rest,
          drop-append value rest,
        ))

-- The object identifier under the tag 0.
pub read_object-bytes :
    (o : ObjectId) (rest : Bytes)
    → IsObjectId o
    → read_object (object_bytes (some o) ++ rest) ≡ ok (o, rest)
unfolding read_object object_bytes
read_object-bytes o rest h =
    let value = ObjectId.marshal o in
    let four : length value ≡ 4 = unfold ObjectId.marshal Unsigned.marshal_uint32 in refl in
    rw
      (
        decode_header-write_context 0 value rest (omega arith) (omega (arith, four)),
        read_value-write_context 0 value rest (omega arith) (omega (arith, four)),
        unmarshal-marshal_object ObjectId.zero_object o h,
      )
      (ground (arith, four))

-- A header was read, so the input is not empty.
pub read_index-behind :
    (number : ℕ) (bs : Bytes) (header : Tag × ℕ)
    → decode_header bs ≡ ok header
    → read_index number bs ≡ index_behind header number bs
unfolding read_index
read_index-behind number [] header e = unfold decode_header in cc
read_index-behind number (b0 ∷ bs) header e = rw e

-- A number of 32 bits under any tag number of a byte: its size, for the tests of the decoder.
module _ (number v : ℕ) (rest : Bytes) (byte : number < 256) (fits : v < 2 ^ 32) where
  abbrev few : length (encode_var_uint v) < 2 ^ 32
  few = omega (arith, encode_var_uint_shape v)

  pub read_id-bytes :
      read_id number (write_context number (encode_var_uint v) ++ rest) ≡ ok (v, rest)
  unfolding read_id
  read_id-bytes =
      let value = encode_var_uint v in
      rw
        (
          decode_header-write_context number value rest byte few,
          read_value-write_context number value rest byte few,
          decode-encode_var_uint v fits,
        )
        (ground (arith, encode_var_uint_shape v))

  pub read_index-bytes :
      read_index number (write_context number (encode_var_uint v) ++ rest) ≡ ok (some v, rest)
  unfolding read_index index_behind
  read_index-bytes =
      let value = encode_var_uint v in
      rw
        (
          read_index-behind number _ _ (decode_header-write_context number value rest byte few),
          read_value-write_context number value rest byte few,
          decode-encode_var_uint v fits,
        )
        (ground (arith, encode_var_uint_shape v))

pub object_header :
    (o : ObjectId) (rest : Bytes)
    → decode_header (object_bytes (some o) ++ rest) ≡ ok (field_header 0 (ObjectId.marshal o))
unfolding object_bytes
object_header o rest =
    decode_header-write_context 0 (ObjectId.marshal o) rest (omega arith)
      (unfold ObjectId.marshal Unsigned.marshal_uint32 in omega arith)
