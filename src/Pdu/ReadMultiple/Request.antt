-- ===== src/Pdu/ReadMultiple/Request.antt =====
-- The request of bacnet/pdu/read_property_multiple.go. The loops of the decoder are rounds of
-- `repeat_all`; the number of octets consumed is given by the octets that are left.
use gobac.Prelude.{ℕ, List, [], ◌∷◌, ◌++◌, length, drop, Bool, true, false, not, ◌&&◌, ◌==◌}
use gobac.Prelude.{if◌then◌else◌, Option, none, some}
use gobac.Result.{Result, ok, err, empty_input, truncated, wrong_size}
use gobac.Result.{unexpected_tag, missing_value, ◌>>=◌, ◌>>◌, check}
use gobac.Types.Bytes.{Bytes}
use gobac.Types.Tag.{Tag, is_context, decode_tag}
use gobac.Types.Unsigned.{encode_var_uint, decode_var_uint}
use gobac.Types.ObjectId
use gobac.Types.ObjectId.{ObjectId}
use gobac.Types.Context.{write_context, write_constructed_tag, is_primitive}
use gobac.Types.Property.{decode_header, read_value, has_size, read_object, read_id}
use gobac.Types.Repeat.{Round, stop, item, repeat_all}

pub record PropertyReference : Type 0 where
  pub id : ℕ
  pub index : ℕ
  pub has_index : Bool

pub record ReadAccessSpec : Type 0 where
  pub object_id : Option ObjectId
  pub properties : List PropertyReference

-- An array index under the tag of that number, if there is one.
unfoldable pub marshal_index : ℕ → Bool → ℕ → Bytes
marshal_index number has_index index =
    if has_index then write_context number (encode_var_uint index) else []

abbrev pub marshal_reference : PropertyReference → Bytes
marshal_reference p = write_context 0 (encode_var_uint p.id) ++ marshal_index 1 p.has_index p.index

unfoldable pub marshal_references : List PropertyReference → Bytes
marshal_references [] = []
marshal_references (p ∷ ps) = marshal_reference p ++ marshal_references ps

-- An object identifier under the tag 0 and a list between the tags 1.
abbrev pub with_list : ObjectId → Bytes → Bytes
with_list o content =
    write_context 0 (ObjectId.marshal o)
    ++ (write_constructed_tag 1 true ++ (content ++ write_constructed_tag 1 false))

abbrev pub marshal_object_spec : Option ObjectId → List PropertyReference → Result Bytes
marshal_object_spec none ps = err missing_value
marshal_object_spec (some o) ps = do
  check (not (length ps == 0)) missing_value
  ok (with_list o (marshal_references ps))

-- `ReadAccessSpec.MarshalBinary`
unfoldable pub marshal_spec : ReadAccessSpec → Result Bytes
unfolding marshal_references
marshal_spec s = marshal_object_spec s.object_id s.properties

unfoldable pub marshal_specs : List ReadAccessSpec → Result Bytes
marshal_specs [] = ok []
marshal_specs (s ∷ ss) = do b ← marshal_spec s; more ← marshal_specs ss; ok (b ++ more)

-- `ReadPropertyMultiplePdu.MarshalBinary`
unfoldable pub marshal_read_multiple : List ReadAccessSpec → Result Bytes
unfolding marshal_specs
marshal_read_multiple specs = do check (not (length specs == 0)) missing_value; marshal_specs specs

-- The octets behind an opening tag of that number.
unfoldable pub decode_opening : ℕ → Bytes → Result (Unit {0} × Bytes)
decode_opening number bs = do
  (t, r) ← decode_header bs
  check (is_context t number && t.opening) unexpected_tag
  ok (tt, drop r bs)

-- A number of 1 to 4 octets under the tag of that number, if it is there.
abbrev pub index_at : Tag × ℕ → ℕ → Bytes → Result (Option ℕ × Bytes)
index_at (t, r) number bs =
    if not (r == 0) && is_primitive t number
    then (do
      check (has_size t.len_value 1 4) truncated
      (value, rest) ← read_value (t, r) bs
      ok (some (decode_var_uint value), rest))
    else ok (none, bs)

unfoldable pub peek_index : ℕ → Bytes → Result (Option ℕ × Bytes)
peek_index number [] = ok (none, [])
peek_index number (b0 ∷ bs) = index_at (decode_tag (b0 ∷ bs)) number (b0 ∷ bs)

-- Without an index the field keeps its 0.
abbrev pub reference : ℕ → Option ℕ → PropertyReference
reference id none = record { id = id; index = 0; has_index = false }
reference id (some i) = record { id = id; index = i; has_index = true }

unfoldable pub decode_reference : Bytes → Result (PropertyReference × Bytes)
unfolding peek_index
decode_reference bs = do
  (id, b1) ← read_id 0 bs
  (index, rest) ← peek_index 1 b1
  ok (reference id index, rest)

abbrev pub as_item {ℓ} : {A : Type ℓ} → Result (A × Bytes) → Result (Round A)
as_item r = do (a, rest) ← r; ok (item a rest)

abbrev pub closes : Tag → ℕ → Bool
closes t number = is_context t number && t.closing

-- The loop over the properties, up to the closing tag 1.
unfoldable pub reference_round : Bytes → Result (Round PropertyReference)
unfolding decode_reference
reference_round bs = do
  (t, r) ← decode_header bs
  if closes t 1 then ok (stop (drop r bs)) else as_item (decode_reference bs)

-- `decodeReadAccessSpec`
unfoldable pub decode_spec : Bytes → Result (ReadAccessSpec × Bytes)
unfolding decode_opening reference_round
decode_spec bs = do
  (o, b1) ← read_object bs
  (found, b2) ← decode_opening 1 b1
  (properties, rest) ← repeat_all reference_round b2
  check (not (length properties == 0)) missing_value
  ok (record { object_id = some o; properties = properties }, rest)

-- `ReadAccessSpec.UnmarshalBinary`
unfoldable pub unmarshal_spec : Bytes → Result ReadAccessSpec
unfolding decode_spec
unmarshal_spec bs = do (spec, rest) ← decode_spec bs; check (length rest == 0) wrong_size; ok spec

-- The loop over the specifications, to the end of the data.
unfoldable pub spec_round : Bytes → Result (Round ReadAccessSpec)
unfolding decode_spec
spec_round [] = ok (stop [])
spec_round (b0 ∷ bs) = as_item (decode_spec (b0 ∷ bs))

-- `ReadPropertyMultiplePdu.UnmarshalBinary`
unfoldable pub unmarshal_read_multiple : Bytes → Result (List ReadAccessSpec)
unfolding spec_round
unmarshal_read_multiple bs = do
  check (not (length bs == 0)) empty_input
  (specs, rest) ← repeat_all spec_round bs
  check (not (length specs == 0)) missing_value
  ok specs
