-- ===== src/Simulator/Services/ReadMultiple.antt =====
-- decodeReadPropertyMultiple and encodeReadPropertyMultipleResult of simulator/services.go. The loops
-- of the decoder are rounds of `repeat_all`.
pub mod Request
pub mod Ack
use gobac.Prelude.{ℕ, List, [], ◌∷◌, ◌++◌, length, drop, Bool, true, false, not, ◌==◌, ltb}
use gobac.Prelude.{if◌then◌else◌, Option, none, some}
use gobac.Result.{Result, ok, err, wrong_size, missing_value, ◌>>=◌, ◌>>◌, check}
use gobac.Types.Bytes.{Bytes}
use gobac.Types.Unsigned.{encode_var_uint}
use gobac.Types.ObjectId
use gobac.Types.GoValue.{Floats, uint32, ObjectRef}
use gobac.Types.PropertyValue.{PropertyValue}
use gobac.Types.Context.{write_context, write_constructed_tag, decode_context}
use gobac.Types.Context.{decode_context_unsigned, is_constructed_tag, decode_constructed_tag}
use gobac.Types.Context.{try_decode_context_unsigned}
use gobac.Types.Context.Termination.{behind_optional}
use gobac.Types.Content.{marshal_values}
use gobac.Types.Repeat.{Round, stop, item, repeat_all}
use gobac.Simulator.Property.{Value}
use gobac.Simulator.SubscribeRequest.{from_object_id}
use gobac.Simulator.Services.Convert.{PropertyReference, to_object_id, encode_values}

pub record ReadAccessSpecification : Type 0 where
  pub object : ObjectRef
  pub properties : List PropertyReference

-- `fromBACnetObjectID` of an object identifier under the context tag 0.
unfoldable pub decode_object : Bytes → Result (ObjectRef × Bytes)
decode_object bs = do
  (value, rest) ← decode_context bs 0
  check (length value == 4) wrong_size
  o ← ObjectId.unmarshal ObjectId.zero_object value
  ok (from_object_id o, rest)

abbrev pub number_of : Option (ℕ × Bytes) → Option ℕ
number_of none = none
number_of (some (n, rest)) = some n

-- A property and an optional array index.
unfoldable pub decode_reference : Bytes → Result (PropertyReference × Bytes)
decode_reference bs = do
  (id, rest) ← decode_context_unsigned bs 0
  let index = try_decode_context_unsigned rest 1
  ok (record { id = id; array_index = number_of index }, behind_optional index rest)

abbrev pub as_item {ℓ} : {A : Type ℓ} → Result (A × Bytes) → Result (Round A)
as_item r = do (a, rest) ← r; ok (item a rest)

-- The inner loop, up to the closing tag 1.
unfoldable pub reference_round : Bytes → Result (Round PropertyReference)
unfolding decode_reference
reference_round bs = do
  closing ← is_constructed_tag bs 1 false
  if ltb 0 closing then ok (stop (drop closing bs)) else as_item (decode_reference bs)

unfoldable pub decode_specification : Bytes → Result (ReadAccessSpecification × Bytes)
unfolding decode_object reference_round
decode_specification bs = do
  (object, b1) ← decode_object bs
  opening ← decode_constructed_tag b1 1 true
  (properties, rest) ← repeat_all reference_round (drop opening b1)
  check (not (length properties == 0)) missing_value
  ok (record { object = object; properties = properties }, rest)

-- The outer loop, to the end of the data.
unfoldable pub specification_round : Bytes → Result (Round ReadAccessSpecification)
specification_round [] = ok (stop [])
specification_round (b0 ∷ bs) = as_item (decode_specification (b0 ∷ bs))

unfoldable pub decode_read_property_multiple : Bytes → Result (List ReadAccessSpecification)
unfolding specification_round
decode_read_property_multiple bs = do
  (specifications, rest) ← repeat_all specification_round bs
  check (not (length specifications == 0)) missing_value
  ok specifications

-- A code of 0 stands for no error.
pub record PropertyResult : Type 0 where
  pub reference : PropertyReference
  pub values : List Value
  pub error_class : ℕ
  pub error_code : ℕ

pub record ReadAccessResult : Type 0 where
  pub object : ObjectRef
  pub results : List PropertyResult

abbrev pub index_field : ℕ → Option ℕ → Bytes
index_field number none = []
index_field number (some i) = write_context number (encode_var_uint i)

abbrev enumerated : ℕ → PropertyValue
enumerated n = record { type = 9; value = uint32 n }

-- The error, or the values, between their tags.
unfoldable pub encode_outcome : Floats → PropertyResult → Result Bytes
encode_outcome f r =
    if r.error_code == 0
    then (do
      bytes ← encode_values f r.values
      ok (write_constructed_tag 4 true ++ (bytes ++ write_constructed_tag 4 false)))
    else (do
      bytes ← marshal_values f (enumerated r.error_class ∷ enumerated r.error_code ∷ [])
      ok (write_constructed_tag 5 true ++ (bytes ++ write_constructed_tag 5 false)))

unfoldable pub encode_result : Floats → PropertyResult → Result Bytes
unfolding encode_outcome
encode_result f r = do
  outcome ← encode_outcome f r
  ok (
      write_context 2 (encode_var_uint r.reference.id)
      ++ (index_field 3 r.reference.array_index ++ outcome))

unfoldable pub encode_results : Floats → List PropertyResult → Result Bytes
encode_results f [] = ok []
encode_results f (r ∷ rs) = do b ← encode_result f r; more ← encode_results f rs; ok (b ++ more)

unfoldable pub encode_access : Floats → ReadAccessResult → Result Bytes
encode_access f a = do
  o ← to_object_id a.object
  results ← encode_results f a.results
  ok (
      write_context 0 (ObjectId.marshal o)
      ++ (write_constructed_tag 1 true ++ (results ++ write_constructed_tag 1 false)))

unfoldable pub encode_read_property_multiple_result : Floats → List ReadAccessResult → Result Bytes
encode_read_property_multiple_result f [] = ok []
encode_read_property_multiple_result f (a ∷ as') = do
  b ← encode_access f a
  more ← encode_read_property_multiple_result f as'
  ok (b ++ more)
