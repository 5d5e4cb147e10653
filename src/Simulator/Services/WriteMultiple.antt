-- ===== src/Simulator/Services/WriteMultiple.antt =====
-- decodeWritePropertyMultiple of simulator/services.go. The three nested loops are rounds of
-- `repeat_all`.
use gobac.Prelude.{ℕ, List, [], ◌∷◌, length, drop, true, false, not, ◌==◌, ltb, ◌||◌}
use gobac.Prelude.{if◌then◌else◌, Option, none, some}
use gobac.Result.{Result, ok, err, missing_value, unexpected_tag, priority_out_of_range}
use gobac.Result.{◌>>=◌, ◌>>◌, check}
use gobac.Types.Bytes.{Bytes}
use gobac.Types.Context.{is_constructed_tag, decode_constructed_tag, try_decode_context_unsigned}
use gobac.Types.Content.{Element, constructed, element, next_element}
use gobac.Types.Repeat.{Round, stop, item, repeat_all}
use gobac.Simulator.Property.{Value, priority_slots}
use gobac.Simulator.WriteMultiple.{PropertyWrite, WriteAccessSpecification}
use gobac.Simulator.Services.Convert.{from_property_value}
use gobac.Simulator.Services.ReadMultiple.{decode_object, decode_reference, as_item}

-- An application value; anything constructed is refused.
abbrev pub value_item : Element → Bytes → Result (Round Value)
value_item constructed bs = err unexpected_tag
value_item (element v n) bs = ok (item (from_property_value v) (drop n bs))

abbrev pub one_value : Bytes → Result (Round Value)
one_value bs = do e ← next_element bs; value_item e bs

-- The loop over the values, up to the closing tag 2.
unfoldable pub value_round : Bytes → Result (Round Value)
value_round bs = do
  closing ← is_constructed_tag bs 2 false
  if ltb 0 closing then ok (stop (drop closing bs)) else one_value bs

-- An optional priority under the context tag 3.
abbrev pub optional_priority : Option (ℕ × Bytes) → Bytes → Result (ℕ × Bytes)
optional_priority none bs = ok (0, bs)
optional_priority (some (n, rest)) bs = do
  check (not (ltb n 1 || ltb priority_slots n)) priority_out_of_range
  ok (n, rest)

unfoldable pub decode_write : Bytes → Result (PropertyWrite × Bytes)
unfolding value_round
decode_write bs = do
  (reference, b1) ← decode_reference bs
  opening ← decode_constructed_tag b1 2 true
  (values, b2) ← repeat_all value_round (drop opening b1)
  check (not (length values == 0)) missing_value
  (priority, rest) ← optional_priority (try_decode_context_unsigned b2 3) b2
  ok (
    record {
      id = reference.id;
      array_index = reference.array_index;
      values = values;
      priority = priority;
    },
    rest,
  )

-- The loop over the properties of an object, up to the closing tag 1.
unfoldable pub write_round : Bytes → Result (Round PropertyWrite)
unfolding decode_write
write_round bs = do
  closing ← is_constructed_tag bs 1 false
  if ltb 0 closing then ok (stop (drop closing bs)) else as_item (decode_write bs)

unfoldable pub decode_write_specification : Bytes → Result (WriteAccessSpecification × Bytes)
unfolding write_round
decode_write_specification bs = do
  (object, b1) ← decode_object bs
  opening ← decode_constructed_tag b1 1 true
  (properties, rest) ← repeat_all write_round (drop opening b1)
  check (not (length properties == 0)) missing_value
  ok (record { object = object; properties = properties }, rest)

-- The outer loop, to the end of the data.
unfoldable pub write_specification_round : Bytes → Result (Round WriteAccessSpecification)
unfolding decode_write_specification
write_specification_round [] = ok (stop [])
write_specification_round (b0 ∷ bs) = as_item (decode_write_specification (b0 ∷ bs))

unfoldable pub decode_write_property_multiple : Bytes → Result (List WriteAccessSpecification)
unfolding write_specification_round
decode_write_property_multiple bs = do
  (specifications, rest) ← repeat_all write_specification_round bs
  check (not (length specifications == 0)) missing_value
  ok specifications
