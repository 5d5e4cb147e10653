-- ===== src/Examples/Types.antt =====
-- Runs of the codecs of bacnet/types, and their theorems at concrete values.
use gobac.Prelude.{◌≡◌, ◌++◌, refl, arith, [], ◌∷◌, length, true, false}
use gobac.Prelude.{inl}
use gobac.Prelude.Int.{pos, negsuc}
use gobac.Result.{ok}
use gobac.Types.Bytes.{are_bytes, are_bytes-IsBytes}
use gobac.Types.Tag.{Tag, decode_tag, encode_context_tag}
use gobac.Types.Tag.RoundTrip.{encode_primitive, decode_tag-encode_primitive}
use gobac.Types.Tag.Bounds.{Reads, decode_tag-Reads}
use gobac.Types.Unsigned.{encode_var_uint, decode_var_uint}
use gobac.Types.Unsigned.RoundTrip.{decode-encode_var_uint}
use gobac.Types.Signed.{encode_var_int, decode_var_int}
use gobac.Types.Signed.RoundTrip.{decode-encode_var_int}
use gobac.Types.ObjectId
use gobac.Types.ObjectId.{ObjectId, instance_number, set_instance_number}
use gobac.Types.ObjectId.RoundTrip.{IsObjectId}
use gobac.Types.Header
use gobac.Types.Header.{Header}
use gobac.Types.Header.RoundTrip.{IsHeader, unmarshal-marshal_header}

abbrev long_tag : Tag
long_tag = record {
  tag_number = 20;
  len_value = pos 300;
  context = false;
  extended = false;
  opening = false;
  closing = false;
}

long_tag-octets : encode_primitive true long_tag ≡ 0xfd ∷ 20 ∷ 254 ∷ 1 ∷ 44 ∷ []
unfolding encode_context_tag
long_tag-octets = refl

decode_tag-encode_primitive_example : decode_tag (encode_primitive true long_tag ++ 7 ∷ []) ≡ (
  record {
    tag_number = 20;
    len_value = pos 300;
    context = true;
    extended = true;
    opening = false;
    closing = false;
  },
  length (encode_primitive true long_tag),
)
decode_tag-encode_primitive_example =
    decode_tag-encode_primitive true long_tag 300 (7 ∷ []) (omega arith) refl (omega arith)

decode_tag-Reads_example : Reads 3 (decode_tag (0xf9 ∷ 20 ∷ 5 ∷ []))
unfolding are_bytes
decode_tag-Reads_example =
    decode_tag-Reads (0xf9 ∷ 20 ∷ 5 ∷ []) (are_bytes-IsBytes (0xf9 ∷ 20 ∷ 5 ∷ []) refl)

decode-encode_var_uint_example : decode_var_uint (encode_var_uint 70000) ≡ 70000
decode-encode_var_uint_example = decode-encode_var_uint 70000 (omega arith)

decode-encode_var_int_example : decode_var_int (encode_var_int (negsuc 40000)) ≡ negsuc 40000
decode-encode_var_int_example = decode-encode_var_int (negsuc 40000) (omega arith)

abbrev analog_70000 : ObjectId
analog_70000 = record (ObjectId.zero_object) {
  type = 2;
  instance_low = 4464;
  extended_instance = 70000;
}

analog-IsObjectId : IsObjectId analog_70000
unfolding instance_number
analog-IsObjectId = record {
  type_small = omega arith;
  instance_small = omega arith;
  low = refl;
  canonical = refl;
}

abbrev frame : Header
frame = record { protocol_type = 0x81; function = 0x0a; bvlc_length = 24; nsdu_length = 20 }

frame-IsHeader : IsHeader frame
frame-IsHeader = record {
  protocol = refl;
  supported = inl refl;
  fits = omega arith;
  lengths = refl;
}

unmarshal-marshal_header_example : Header.unmarshal (Header.marshal frame ++ 1 ∷ []) ≡ ok frame
unmarshal-marshal_header_example = unmarshal-marshal_header frame (1 ∷ []) frame-IsHeader
