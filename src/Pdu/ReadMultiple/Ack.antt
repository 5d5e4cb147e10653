-- ===== src/Pdu/ReadMultiple/Ack.antt =====
-- The acknowledgement of bacnet/pdu/read_property_multiple.go. The loops of the decoder are rounds of
-- `repeat_all`; the number of octets consumed is given by the octets that are left.
use gobac.Prelude.{ℕ, suc, List, [], ◌∷◌, ◌++◌, length, take, drop, map, Bool, true, false, not}
use gobac.Prelude.{◌&&◌, ◌||◌, ◌==◌, if◌then◌else◌, Option, none, some}
use gobac.Result.{Result, ok, err, empty_input, truncated, wrong_size}
use gobac.Result.{unexpected_tag, missing_value, invalid_value, ◌>>=◌, ◌>>◌, check}
use gobac.Types.Bytes.{Bytes}
use gobac.Types.Tag.{Tag, is_context}
use gobac.Types.Unsigned.{encode_var_uint, decode_var_uint}
use gobac.Types.ObjectId.{ObjectId}
use gobac.Types.GoValue.{Floats, uint32}
use gobac.Types.PropertyValue.{PropertyValue}
use gobac.Types.Context.{write_context, write_constructed_tag, is_primitive}
use gobac.Types.Content.{Element, constructed, element, next_element, value_bounds, marshal_values}
use gobac.Types.Property.{decode_header, read_value, has_size, read_object, read_id}
use gobac.Types.Property.{marshal_pointers}
use gobac.Types.Repeat.{Round, stop, item, repeat_all}
use gobac.Pdu.ReadMultiple.Request.{marshal_index, with_list, decode_opening, as_item, closes}

pub record PropertyAccessError : Type 0 where
  pub class : ℕ
  pub code : ℕ

-- Nil values differ from no values.
pub record PropertyResult : Type 0 where
  pub id : ℕ
  pub index : ℕ
  pub has_index : Bool
  pub values : Option (List (Option PropertyValue))
  pub error : Option PropertyAccessError

pub record ReadAccessResult : Type 0 where
  pub object_id : Option ObjectId
  pub results : List PropertyResult

abbrev pub enumerated : ℕ → PropertyValue
enumerated n = record { type = 9; value = uint32 n }

abbrev pub between : ℕ → Bytes → Bytes
between number bytes =
    write_constructed_tag number true ++ (bytes ++ write_constructed_tag number false)

-- Either the values or the error.
unfoldable pub marshal_outcome :
    Floats → Option (List (Option PropertyValue)) → Option PropertyAccessError → Result Bytes
marshal_outcome f (some vs) (some e) = err invalid_value
marshal_outcome f none none = err missing_value
marshal_outcome f none (some e) = do
  bytes ← marshal_values f (enumerated e.class ∷ enumerated e.code ∷ [])
  ok (between 5 bytes)
marshal_outcome f (some vs) none = do bytes ← marshal_pointers f vs; ok (between 4 bytes)

unfoldable pub marshal_result : Floats → PropertyResult → Result Bytes
unfolding marshal_outcome
marshal_result f p = do
  outcome ← marshal_outcome f p.values p.error
  ok (write_context 2 (encode_var_uint p.id) ++ (marshal_index 3 p.has_index p.index ++ outcome))

unfoldable pub marshal_results : Floats → List PropertyResult → Result Bytes
marshal_results f [] = ok []
marshal_results f (p ∷ ps) = do b ← marshal_result f p; more ← marshal_results f ps; ok (b ++ more)

abbrev pub marshal_object_results : Floats → Option ObjectId → List PropertyResult → Result Bytes
marshal_object_results f none ps = err missing_value
marshal_object_results f (some o) ps = do
  check (not (length ps == 0)) missing_value
  content ← marshal_results f ps
  ok (with_list o content)

-- `ReadAccessResult.MarshalBinary`
unfoldable pub marshal_access : Floats → ReadAccessResult → Result Bytes
unfolding marshal_results
marshal_access f r = marshal_object_results f r.object_id r.results

unfoldable pub marshal_accesses : Floats → List ReadAccessResult → Result Bytes
marshal_accesses f [] = ok []
marshal_accesses f (r ∷ rs) = do
  b ← marshal_access f r
  more ← marshal_accesses f rs
  ok (b ++ more)

-- `ReadPropertyMultipleAck.MarshalBinary`
unfoldable pub marshal_ack : Floats → List ReadAccessResult → Result Bytes
unfolding marshal_accesses
marshal_ack f rs = do check (not (length rs == 0)) missing_value; marshal_accesses f rs

-- One value of `decodePropertyResultValues`; anything constructed is refused.
abbrev pub value_item : Element → Bytes → Result (Round PropertyValue)
value_item constructed bs = err unexpected_tag
value_item (element v n) bs = ok (item v (drop n bs))

unfoldable pub value_round : Bytes → Result (Round PropertyValue)
value_round [] = ok (stop [])
value_round (b0 ∷ bs) = next_element (b0 ∷ bs) >>= λ e. value_item e (b0 ∷ bs)

-- `decodePropertyResultValues`
unfoldable pub decode_values : Bytes → Result (List PropertyValue)
unfolding value_round
decode_values bs = do (vs, rest) ← repeat_all value_round bs; ok vs

-- `propertyResultValueBounds`, which is the code of `propertyValueBounds`: the values, and what is left
-- behind the closing tag.
unfoldable pub decode_content : ℕ → Bytes → Result (List PropertyValue × Bytes)
unfolding decode_values
decode_content number bs = do
  (content_end, value_end) ← value_bounds (suc (length bs)) (number ∷ []) 0 bs
  vs ← decode_values (take content_end bs)
  ok (vs, drop value_end bs)

-- One number of an error: an enumerated value of 1 to 4 octets.
abbrev pub is_enumerated : Tag → Bool
is_enumerated t =
    not (t.context || (t.opening || t.closing)) && (t.tag_number == 9) && has_size t.len_value 1 4

unfoldable pub decode_enumerated : Bytes → Result (ℕ × Bytes)
decode_enumerated bs = do
  (t, r) ← decode_header bs
  check (is_enumerated t) unexpected_tag
  (value, rest) ← read_value (t, r) bs
  ok (decode_var_uint value, rest)

-- The two numbers of an error up to the closing tag 5.
unfoldable pub decode_error : Bytes → Result (PropertyAccessError × Bytes)
unfolding decode_enumerated
decode_error bs = do
  (class, b1) ← decode_enumerated bs
  (code, b2) ← decode_enumerated b1
  (t, r) ← decode_header b2
  check (closes t 5) unexpected_tag
  ok (record { class = class; code = code }, drop r b2)

-- An array index under the tag 3, if it is there.
abbrev pub index_under : Tag × ℕ → Bytes → Result (Option ℕ × Bytes)
index_under (t, r) bs =
    if is_primitive t 3
    then (do
      check (has_size t.len_value 1 4) truncated
      (value, rest) ← read_value (t, r) bs
      ok (some (decode_var_uint value), rest))
    else ok (none, bs)

unfoldable pub decode_index : Bytes → Result (Option ℕ × Bytes)
decode_index bs = do header ← decode_header bs; index_under header bs

abbrev pub result : ℕ → Option ℕ → PropertyResult
result id none = record { id = id; index = 0; has_index = false; values = none; error = none }
result id (some i) = record { id = id; index = i; has_index = true; values = none; error = none }

-- The `switch` on the tag behind the index.
unfoldable pub outcome_under : PropertyResult → Tag → Bytes → Result (PropertyResult × Bytes)
unfolding decode_content decode_error
outcome_under p t bs =
    if is_context t 4 && t.opening
    then (do (vs, rest) ← decode_content 4 bs; ok (record p { values = some (map some vs) }, rest))
    else if is_context t 5 && t.opening
    then (do (e, rest) ← decode_error bs; ok (record p { error = some e }, rest))
    else err unexpected_tag

unfoldable pub decode_outcome : PropertyResult → Bytes → Result (PropertyResult × Bytes)
unfolding outcome_under
decode_outcome p bs = do (t, r) ← decode_header bs; outcome_under p t (drop r bs)

unfoldable pub decode_result : Bytes → Result (PropertyResult × Bytes)
unfolding decode_index decode_outcome
decode_result bs = do
  (id, b1) ← read_id 2 bs
  (index, b2) ← decode_index b1
  decode_outcome (result id index) b2

-- The loop over the results, up to the closing tag 1.
unfoldable pub result_round : Bytes → Result (Round PropertyResult)
unfolding decode_result
result_round bs = do
  (t, r) ← decode_header bs
  if closes t 1 then ok (stop (drop r bs)) else as_item (decode_result bs)

-- `decodeReadAccessResult`
unfoldable pub decode_access : Bytes → Result (ReadAccessResult × Bytes)
unfolding result_round
decode_access bs = do
  (o, b1) ← read_object bs
  (found, b2) ← decode_opening 1 b1
  (results, rest) ← repeat_all result_round b2
  check (not (length results == 0)) missing_value
  ok (record { object_id = some o; results = results }, rest)

-- `ReadAccessResult.UnmarshalBinary`
unfoldable pub unmarshal_access : Bytes → Result ReadAccessResult
unfolding decode_access
unmarshal_access bs = do (r, rest) ← decode_access bs; check (length rest == 0) wrong_size; ok r

-- The loop over the objects, to the end of the data.
unfoldable pub access_round : Bytes → Result (Round ReadAccessResult)
unfolding decode_access
access_round [] = ok (stop [])
access_round (b0 ∷ bs) = as_item (decode_access (b0 ∷ bs))

-- `ReadPropertyMultipleAck.UnmarshalBinary`
unfoldable pub unmarshal_ack : Bytes → Result (List ReadAccessResult)
unfolding access_round
unmarshal_ack bs = do
  check (not (length bs == 0)) empty_input
  (rs, rest) ← repeat_all access_round bs
  check (not (length rs == 0)) missing_value
  ok rs
