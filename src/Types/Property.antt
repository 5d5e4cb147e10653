-- ===== src/Types/Property.antt =====
-- bacnet/types/property.go: a property with its object, its array index and its values.
-- `UnmarshalBinary` leaves a half filled receiver when it fails, which is not modelled.
pub mod Fields
pub mod RoundTrip
pub mod Termination
use gobac.Prelude.{ℕ, suc, ◌+◌, ◌-◌, Bool, true, false, not, ◌&&◌, ◌||◌, ◌==◌, leb, if◌then◌else◌}
use gobac.Prelude.{List, [], ◌∷◌, ◌++◌, length, take, drop, map, Option, none, some}
use gobac.Prelude.Int.{ℤ, pos, negsuc}
use gobac.Result.{Result, ok, err, empty_input, truncated, wrong_size, malformed_tag}
use gobac.Result.{unexpected_tag, missing_value, ◌>>=◌, ◌>>◌, check}
use gobac.Types.Bytes.{Bytes}
use gobac.Types.Tag.{Tag, is_context, decode_tag}
use gobac.Types.Unsigned.{encode_var_uint, decode_var_uint}
use gobac.Types.ObjectId
use gobac.Types.ObjectId.{ObjectId}
use gobac.Types.GoValue.{Floats}
use gobac.Types.PropertyValue.{PropertyValue, marshal}
use gobac.Types.Context.{write_context, write_constructed_tag, is_primitive}
use gobac.Types.Content.{Content, raw, values, value_bounds, read_values}

-- `id` and `index` are `uint32`, a value is a pointer, and `encoded_value` is nil or octets.
pub record Property : Type 0 where
  pub ip_address : Bytes
  pub object_id : Option ObjectId
  pub id : ℕ
  pub index : ℕ
  pub has_index : Bool
  pub values : List (Option PropertyValue)
  pub encoded_value : Option Bytes
  pub priority : ℕ
  pub length : ℕ

-- `BacnetArrayAll` of bacnet/types/const.go, which is also `math.MaxUint32`.
abbrev pub array_all : ℕ
array_all = 0xffff_ffff

abbrev pub zero_property : Property
zero_property = record {
  ip_address = [];
  object_id = none;
  id = 0;
  index = 0;
  has_index = false;
  values = [];
  encoded_value = none;
  priority = 0;
  length = 0;
}

-- The loop over `p.Values`.
unfoldable pub marshal_pointers : Floats → List (Option PropertyValue) → Result Bytes
marshal_pointers f [] = ok []
marshal_pointers f (none ∷ vs) = err missing_value
marshal_pointers f (some v ∷ vs) = do b ← marshal f v; more ← marshal_pointers f vs; ok (b ++ more)

unfoldable pub object_bytes : Option ObjectId → Bytes
object_bytes none = []
object_bytes (some o) = write_context 0 (ObjectId.marshal o)

abbrev pub writes_index : Property → Bool
writes_index p = p.has_index || (not (p.index == 0) && not (p.index == array_all))

unfoldable pub index_bytes : Property → Bytes
index_bytes p = if writes_index p then write_context 2 (encode_var_uint p.index) else []

-- What stands between the tags of the value, if they are written.
unfoldable pub content_of :
    Floats → Option Bytes → List (Option PropertyValue) → Result (Option Bytes)
content_of f (some b) vs = ok (some b)
content_of f none [] = ok none
content_of f none (v ∷ vs) = do b ← marshal_pointers f (v ∷ vs); ok (some b)

unfoldable pub content_bytes : Floats → Property → Result (Option Bytes)
unfolding content_of
content_bytes f p = content_of f p.encoded_value p.values

unfoldable pub value_bytes : Option Bytes → Bytes
value_bytes none = []
value_bytes (some b) = write_constructed_tag 3 true ++ (b ++ write_constructed_tag 3 false)

-- `MarshalBinary`. An opening or closing tag has no length, so what the tag holds from the field
-- before is not written.
unfoldable pub marshal_property : Floats → Property → Result Bytes
marshal_property f p = do
  content ← content_bytes f p
  ok (
      object_bytes p.object_id
      ++ (write_context 1 (encode_var_uint p.id) ++ (index_bytes p ++ value_bytes content)))

-- `decode`, at the octets that are left.
unfoldable pub decode_header : Bytes → Result (Tag × ℕ)
decode_header [] = err truncated
decode_header (b0 ∷ bs) = do
  let header = decode_tag (b0 ∷ bs)
  check (not (header.1 == 0)) malformed_tag
  ok header

-- `readValue`: the octets of the value, and what is left.
unfoldable pub cut_value : ℤ → ℕ → Bytes → Result (Bytes × Bytes)
cut_value (negsuc n) r bs = err truncated
cut_value (pos n) r bs = do
  check (leb n (length bs - r)) truncated
  ok (take n (drop r bs), drop n (drop r bs))

unfoldable pub read_value : Tag × ℕ → Bytes → Result (Bytes × Bytes)
unfolding cut_value
read_value (t, r) bs = cut_value t.len_value r bs

abbrev pub has_size : ℤ → ℕ → ℕ → Bool
has_size (negsuc n) low high = false
has_size (pos n) low high = leb low n && leb n high

-- `full`: the tag of an object identifier.
abbrev pub is_full : Tag → Bool
is_full t = is_primitive t 0 && has_size t.len_value 4 4

unfoldable pub read_object : Bytes → Result (ObjectId × Bytes)
unfolding decode_header read_value
read_object bs = do
  header ← decode_header bs
  check (is_full header.0) unexpected_tag
  (value, rest) ← read_value header bs
  o ← ObjectId.unmarshal ObjectId.zero_object value
  ok (o, rest)

unfoldable pub read_id : ℕ → Bytes → Result (ℕ × Bytes)
unfolding decode_header read_value
read_id tag_start bs = do
  header ← decode_header bs
  check (is_primitive header.0 tag_start && has_size header.0.len_value 1 4) unexpected_tag
  (value, rest) ← read_value header bs
  ok (decode_var_uint value, rest)

-- The array index under the tag of that number, if it is there.
unfoldable pub index_behind : Tag × ℕ → ℕ → Bytes → Result (Option ℕ × Bytes)
unfolding read_value
index_behind header number bs =
    if is_primitive header.0 number
    then (do
      check (has_size header.0.len_value 1 4) wrong_size
      (value, rest) ← read_value header bs
      ok (some (decode_var_uint value), rest))
    else ok (none, bs)

unfoldable pub read_index : ℕ → Bytes → Result (Option ℕ × Bytes)
unfolding decode_header index_behind
read_index number [] = ok (none, [])
read_index number (b0 ∷ bs) = do
  header ← decode_header (b0 ∷ bs)
  index_behind header number (b0 ∷ bs)

abbrev pub with_index : Property → Option ℕ → Property
with_index p none = record p { index = array_all; has_index = false }
with_index p (some i) = record p { index = i; has_index = true }

-- `append([]byte(nil), content...)` of no octets is nil.
abbrev pub nil_if_empty : Bytes → Option Bytes
nil_if_empty [] = none
nil_if_empty (b0 ∷ bs) = some (b0 ∷ bs)

abbrev pub with_content : Property → Bytes → Content → Property
with_content p bs raw = record p { values = []; encoded_value = nil_if_empty bs }
with_content p bs (values vs) = record p { values = map some vs; encoded_value = none }

-- The constructed value; `start` is the offset of `inner`, the octets behind the opening tag. The
-- loops have fuel for every octet.
unfoldable pub read_content : Property → ℕ → ℕ → Bytes → Result Property
read_content p number start inner = do
  (content_end, value_end) ← value_bounds (suc (length inner)) (number ∷ []) start inner
  let left = content_end - start
  c ← read_values (suc left) left inner
  ok (record (with_content p (take left inner) c) { length = value_end })

-- `size` is the length of the whole input, `bs` what is left of it.
unfoldable pub read_rest : Property → ℕ → ℕ → Bytes → Result Property
unfolding decode_header read_content
read_rest p number size [] = ok (record p { length = size })
read_rest p number size (b0 ∷ bs) = do
  (t, r) ← decode_header (b0 ∷ bs)
  check (is_context t number && t.opening) unexpected_tag
  let inner = drop r (b0 ∷ bs)
  read_content p number (size - length inner) inner

-- The fields behind the object identifier.
unfoldable pub read_fields : Property → ℕ → ℕ → Bytes → Result Property
unfolding read_id read_index read_rest
read_fields p tag_start size bs = do
  (id, b1) ← read_id tag_start bs
  (index, b2) ← read_index (tag_start + 1) b1
  read_rest (with_index (record p { id = id }) index) (tag_start + 2) size b2

unfoldable pub unmarshal_from : Property → Tag × ℕ → Bytes → Result Property
unfolding read_object read_fields
unmarshal_from p (t, r) b =
    let clean = record zero_property { ip_address = p.ip_address } in
    if r == 0
    then err malformed_tag
    else if is_full t
    then (do
      (o, b1) ← read_object b
      read_fields (record clean { object_id = some o }) 1 (length b) b1)
    else read_fields (record clean { object_id = p.object_id }) 0 (length b) b

-- `UnmarshalBinary`
unfoldable pub unmarshal_property : Property → Bytes → Result Property
unfolding unmarshal_from
unmarshal_property p [] = err empty_input
unmarshal_property p (b0 ∷ bs) = unmarshal_from p (decode_tag (b0 ∷ bs)) (b0 ∷ bs)
