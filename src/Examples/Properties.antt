-- ===== src/Examples/Properties.antt =====
-- The property services on concrete properties and requests.
use gobac.Prelude.{◌+◌, ◌≤◌, ◌<◌, ◌≡◌, ◌≢◌, refl, arith, [], ◌∷◌, ◌++◌, length, map, true, false}
use gobac.Prelude.{some, ◌⊎◌, if◌then◌else◌, ◌&&◌, leb}
use gobac.Result.{ok, err, out_of_fuel, out_of_range, priority_out_of_range}
use gobac.Types.Bytes.{Bytes}
use gobac.Types.Tag.{encode_opening_tag, encode_closing_tag}
use gobac.Types.Unsigned.{encode_var_uint}
use gobac.Types.ObjectId.{ObjectId, instance_number}
use gobac.Types.ObjectId.RoundTrip.{IsObjectId}
use gobac.Types.GoValue.{real}
use gobac.Types.PropertyValue.{PropertyValue}
use gobac.Types.Context.{write_context, write_constructed_tag}
use gobac.Types.Content.{value_bounds}
use gobac.Types.Content.Grammar.{empty, group, value_bounds-Balanced}
use gobac.Types.Property.{Property, zero_property, marshal_property, unmarshal_property}
use gobac.Types.Property.RoundTrip.{IsProperty, property_read, unmarshal-marshal_property}
use gobac.Types.Property.Termination.{unmarshal_property-ends}
use gobac.Pdu.Property.{ReadPropertyPdu, marshal_write_property}
use gobac.Pdu.ReadMultiple.Request.{ReadAccessSpec, marshal_read_multiple, unmarshal_read_multiple}
use gobac.Pdu.ReadMultiple.Ack.{unmarshal_ack}
use gobac.Pdu.ReadMultiple.Termination.{unmarshal_multiple_ends}
use gobac.Simulator.Services.WriteProperty.{
  request_of, decode_write_property, decode_write_property-marshal, decode_write_property-priority,
}
use gobac.Simulator.Services.ReadMultiple.{decode_read_property_multiple}
use gobac.Simulator.Services.ReadMultiple.Request.{
  received_spec, decode_read_property_multiple-marshal,
}
use gobac.Simulator.Services.WriteMultiple.{decode_write_property_multiple}
use gobac.Simulator.Services.Termination.{decode_multiple_ends}
use gobac.Prelude.{inl}
use gobac.Pdu.WhoHas.{WhoHas, marshal_who_has, unmarshal_who_has, unmarshal-marshal_who_has}
use gobac.Examples.Network.{same_bits}

-- An analog value.
abbrev pub level : ObjectId
level = record { type = 2; instance_low = 3; extended_instance = 0 }

pub level-IsObjectId : IsObjectId level
level-IsObjectId = unfold instance_number in omega arith

-- Its present value, 1.0, as a floating-point number.
abbrev pub one : PropertyValue
one = record { type = 4; value = real 0x3f80_0000 }

abbrev pub present : Property
present = record zero_property { object_id = some level; id = 85; values = some one ∷ [] }

pub present-IsProperty : IsProperty present level (one ∷ [])
present-IsProperty =
    (refl, level-IsObjectId, omega arith, omega arith, refl, refl, ((refl, omega arith, refl), tt))

unmarshal-marshal_property_example :
    (b : Bytes) × (marshal_property same_bits present ≡ ok b)
    × (unmarshal_property zero_property (b ++ 0x49 ∷ 8 ∷ [])
        ≡ ok (property_read zero_property present (one ∷ []) (length b)))
unmarshal-marshal_property_example =
    unmarshal-marshal_property same_bits present zero_property level (one ∷ []) (0x49 ∷ 8 ∷ [])
      present-IsProperty tt

-- A value that is never closed.
unmarshal_property-ends_example :
    unmarshal_property zero_property (0x0c ∷ 0 ∷ 0 ∷ 0 ∷ 3 ∷ 0x19 ∷ 85 ∷ 0x3e ∷ 0x0e ∷ [])
    ≢ err out_of_fuel
unmarshal_property-ends_example =
    unmarshal_property-ends zero_property (0x0c ∷ 0 ∷ 0 ∷ 0 ∷ 3 ∷ 0x19 ∷ 85 ∷ 0x3e ∷ 0x0e ∷ [])

-- A group inside the value of the tag 3.
abbrev nested : Bytes
nested = write_constructed_tag 3 true ++ ([] ++ (write_constructed_tag 3 false ++ []))

value_bounds-Balanced_example :
    value_bounds 9 (3 ∷ []) 7 (nested ++ (write_constructed_tag 3 false ++ 0x49 ∷ []))
    ≡ ok (7 + length nested, 7 + length nested + length (write_constructed_tag 3 false))
value_bounds-Balanced_example =
    value_bounds-Balanced nested (0x49 ∷ []) 3 9 7 (group 3 [] [] (omega arith) empty empty)
      (omega arith)
      (unfold write_constructed_tag encode_opening_tag encode_closing_tag in omega arith)

abbrev pub present_request : ReadPropertyPdu
present_request = record { property = present; require_value = false }

decode_write_property-marshal_example :
    ((8 ≤ 16)
      × (b : Bytes) × (marshal_write_property same_bits
            (record { property = some present; priority = 8 })
          ≡ ok b)
      × (decode_write_property b ≡ ok (request_of present level (one ∷ []) 8)))
    ⊎ ((16 < 8)
        × (marshal_write_property same_bits (record { property = some present; priority = 8 })
            ≡ err out_of_range))
decode_write_property-marshal_example =
    decode_write_property-marshal same_bits present level one [] 8 present-IsProperty

decode_write_property-priority_example :
    (b : Bytes) × (marshal_property same_bits present ≡ ok b)
    × (decode_write_property (b ++ write_context 4 (encode_var_uint 17)) ≡ (
        if leb 1 17 && leb 17 16
        then ok (request_of present level (one ∷ []) 17)
        else err priority_out_of_range))
decode_write_property-priority_example =
    decode_write_property-priority same_bits present level one [] 17 present-IsProperty
      (omega arith)

-- An object identifier whose list of properties is not closed.
abbrev unclosed : Bytes
unclosed = 0x0c ∷ 0 ∷ 128 ∷ 0 ∷ 3 ∷ 0x1e ∷ 0x09 ∷ 85 ∷ []

decode_multiple_ends_example :
    (decode_read_property_multiple unclosed ≢ err out_of_fuel)
    × (decode_write_property_multiple unclosed ≢ err out_of_fuel)
decode_multiple_ends_example = decode_multiple_ends unclosed

unmarshal_multiple_ends_example :
    (unmarshal_read_multiple unclosed ≢ err out_of_fuel)
    × (unmarshal_ack unclosed ≢ err out_of_fuel)
unmarshal_multiple_ends_example = unmarshal_multiple_ends unclosed

-- The present value, and the third element of the priority array.
abbrev two_properties : ReadAccessSpec
two_properties = record {
  object_id = some level;
  properties =
      record { id = 85; index = 0; has_index = false }
      ∷ record { id = 87; index = 3; has_index = true }
      ∷ [];
}

decode_read_property_multiple-marshal_example :
    (b : Bytes) × (marshal_read_multiple (two_properties ∷ []) ≡ ok b)
    × (decode_read_property_multiple b ≡ ok (map received_spec (two_properties ∷ [])))
decode_read_property_multiple-marshal_example =
    decode_read_property_multiple-marshal (two_properties ∷ []) (omega arith) (
      (
        (level, refl, level-IsObjectId),
        omega arith,
        ((omega arith, omega arith), ((omega arith, omega arith), tt)),
      ),
      tt,
    )

-- A search for an analog value among the devices from 1000 to 2000.
abbrev search : WhoHas
search = record {
  low_limit = 1000;
  high_limit = 2000;
  has_range = true;
  object_id = some level;
  object_name = [];
}

unmarshal-marshal_who_has_example :
    (b : Bytes) × (marshal_who_has search ≡ ok b) × (unmarshal_who_has b ≡ ok search)
unmarshal-marshal_who_has_example =
    unmarshal-marshal_who_has search (omega arith, omega arith, inl refl) (refl, level-IsObjectId)
