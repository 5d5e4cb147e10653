-- ===== src/Types/PropertyValue.antt =====
-- bacnet/types/property_value.go: the codec of one application value. `MarshalBinary` also leaves
-- the converted number in the receiver, and `UnmarshalBinary` a half filled receiver when it fails;
-- neither is modelled.
pub mod RoundTrip
pub mod Fuel
use gobac.Prelude.{
  ℕ, ◌+◌, ◌-◌, ◌%◌, ◌^◌, Bool, true, false, not, ◌&&◌, ◌||◌, ◌==◌, leb, if◌then◌else◌,
}
use gobac.Prelude.{List, [], ◌∷◌, ◌++◌, length, take, drop, Option, none, some}
use gobac.Prelude.Int.{ℤ, pos, negsuc}
use gobac.Result.{
  Result, ok, err, empty_input, truncated, wrong_size, malformed_tag, unexpected_tag,
}
use gobac.Result.{unsupported, invalid_value, go_panic, ◌>>=◌, ◌>>◌, check}
use gobac.Types.Bytes.{Bytes}
use gobac.Types.Tag.{Tag, empty_tag, encode_tag, decode_tag}
use gobac.Types.Unsigned.{encode_var_uint, decode_var_uint}
use gobac.Types.Signed.{encode_var_int, decode_var_int}
use gobac.Types.Scalars.{CharacterString, marshal_character_string, unmarshal_character_string}
use gobac.Types.Scalars.{marshal_bit_string, unmarshal_bit_string, marshal_date, unmarshal_date}
use gobac.Types.Scalars.{marshal_time, unmarshal_time, marshal_real, unmarshal_real}
use gobac.Types.Scalars.{marshal_double, unmarshal_double, character_string_length}
use gobac.Types.ObjectId
use gobac.Types.GoValue.{GoValue, nil, bool, uint32, int32, real, double, octets, bit_string}
use gobac.Types.GoValue.{character_string, date, time, object_id, Floats}
use gobac.Types.GoValue.{convert_uint32, convert_int32, convert_float32, convert_float64}

pub record PropertyValue : Type 0 where
  pub type : ℕ
  pub value : GoValue

-- The tags of data_type.go are 0 to 12 in this order: null, boolean, unsigned, signed, real, double,
-- octet string, character string, bit string, enumerated, date, time, object identifier.

-- A failed conversion; `reflect.TypeOf(nil)` is nil, and asking it panics.
abbrev number_or_error : GoValue → Option ℕ → Result ℕ
number_or_error v (some n) = ok n
number_or_error nil none = err go_panic
number_or_error v none = err invalid_value

abbrev integer_or_error : GoValue → Option ℤ → Result ℤ
integer_or_error v (some n) = ok n
integer_or_error nil none = err go_panic
integer_or_error v none = err invalid_value

-- A payload with its own size for the length field.
abbrev sized : Bytes → ℤ × Bytes
sized bs = (pos (length bs), bs)

abbrev bool_length : GoValue → ℤ
bool_length (bool true) = pos 1
bool_length _ = pos 0

unfoldable pub octets_payload : GoValue → Result (ℤ × Bytes)
octets_payload (octets bs) = ok (sized bs)
octets_payload _ = err invalid_value

unfoldable pub text_payload : GoValue → Result (ℤ × Bytes)
unfolding marshal_character_string character_string_length
text_payload (character_string cs) =
    ok (pos (character_string_length cs), marshal_character_string cs)
text_payload _ = err invalid_value

unfoldable pub bits_payload : GoValue → Result (ℤ × Bytes)
bits_payload (bit_string bs) = ok (sized (marshal_bit_string bs))
bits_payload _ = err invalid_value

unfoldable pub date_payload : GoValue → Result (ℤ × Bytes)
date_payload (date d) = ok (pos 4, marshal_date d)
date_payload _ = err invalid_value

unfoldable pub time_payload : GoValue → Result (ℤ × Bytes)
time_payload (time t) = ok (pos 4, marshal_time t)
time_payload _ = err invalid_value

unfoldable pub object_payload : GoValue → Result (ℤ × Bytes)
object_payload (object_id o) = ok (pos 4, ObjectId.marshal o)
object_payload _ = err invalid_value

-- The length field and the payload: the `switch p.Type` of `MarshalBinary`.
unfoldable pub payload_of : Floats → ℕ → GoValue → Result (ℤ × Bytes)
unfolding octets_payload text_payload bits_payload date_payload time_payload object_payload
payload_of f type v =
    if type == 0
    then ok (pos 0, [])
    else if type == 1
    then ok (bool_length v, [])
    else if type == 2 || type == 9
    then (do n ← number_or_error v (convert_uint32 f v); ok (sized (encode_var_uint n)))
    else if type == 3
    then (do i ← integer_or_error v (convert_int32 f v); ok (sized (encode_var_int i)))
    else if type == 4
    then (do r ← number_or_error v (convert_float32 f v); ok (pos 4, marshal_real r))
    else if type == 5
    then (do d ← number_or_error v (convert_float64 f v); ok (pos 8, marshal_double d))
    else if type == 6
    then octets_payload v
    else if type == 7
    then text_payload v
    else if type == 8
    then bits_payload v
    else if type == 10
    then date_payload v
    else if type == 11
    then time_payload v
    else if type == 12
    then object_payload v
    else err unsupported

unfoldable pub marshal : Floats → PropertyValue → Result Bytes
marshal f p = do
  (len, bytes) ← payload_of f p.type p.value
  ok (encode_tag (record empty_tag { tag_number = p.type; len_value = len }) ++ bytes)

-- `b[r : r+payloadLength]`, behind the test that the octets are there.
unfoldable pub cut : ℤ → ℕ → Bytes → Result Bytes
cut (negsuc n) r b = err truncated
cut (pos n) r b = do check (leb n (length b - r)) truncated; ok (take n (drop r b))

abbrev is_zero : ℤ → Bool
is_zero (pos n) = n == 0
is_zero (negsuc n) = false

-- The sizes that `DecodeVarUint` and `DecodeVarInt` are given.
abbrev one_to_four : Bytes → Bool
one_to_four bs = leb 1 (length bs) && leb (length bs) 4

-- The `switch p.Type` of `UnmarshalBinary`; `len` is the length field.
unfoldable pub value_of : ℕ → ℤ → Bytes → Result GoValue
value_of type len payload =
    if type == 0
    then ok nil
    else if type == 1
    then ok (bool (not (is_zero len)))
    else if type == 2 || type == 9
    then (do check (one_to_four payload) wrong_size; ok (uint32 (decode_var_uint payload)))
    else if type == 3
    then (do check (one_to_four payload) wrong_size; ok (int32 (decode_var_int payload)))
    else if type == 4
    then (do r ← unmarshal_real payload; ok (real r))
    else if type == 5
    then (do d ← unmarshal_double payload; ok (double d))
    else if type == 6
    then ok (octets payload)
    else if type == 7
    then (do cs ← unmarshal_character_string payload; ok (character_string cs))
    else if type == 8
    then (do bs ← unmarshal_bit_string payload; ok (bit_string bs))
    else if type == 10
    then (do d ← unmarshal_date payload; ok (date d))
    else if type == 11
    then (do t ← unmarshal_time payload; ok (time t))
    else if type == 12
    then (do o ← ObjectId.unmarshal ObjectId.zero_object payload; ok (object_id o))
    else err unsupported

abbrev pub payload_length : Tag → ℤ
payload_length t = if t.tag_number == 0 || t.tag_number == 1 then pos 0 else t.len_value

-- What follows the tag.
unfoldable pub unmarshal_behind : Tag × ℕ → Bytes → Result PropertyValue
unmarshal_behind (t, r) b = do
  check (not (r == 0)) malformed_tag
  check (not (t.context || t.opening || t.closing)) unexpected_tag
  payload ← cut (payload_length t) r b
  v ← value_of t.tag_number t.len_value payload
  ok (record { type = t.tag_number; value = v })

unfoldable pub unmarshal : Bytes → Result PropertyValue
unfolding unmarshal_behind
unmarshal [] = err empty_input
unmarshal (b0 ∷ rest) = unmarshal_behind (decode_tag (b0 ∷ rest)) (b0 ∷ rest)
