-- ===== src/Examples/Network.antt =====
-- Runs of the network header and of property values, and their theorems at concrete values.
use gobac.Prelude.{◌≡◌, ◌++◌, refl, arith, [], ◌∷◌, true, false}
use gobac.Prelude.{some}
use gobac.Prelude.Int.{pos, negsuc}
use gobac.Result.{ok}
use gobac.Types.Bytes.{Bytes}
use gobac.Types.GoValue.{Floats, int32}
use gobac.Types.PropertyValue
use gobac.Types.PropertyValue.{PropertyValue}
use gobac.Types.PropertyValue.RoundTrip.{read_back, unmarshal-marshal_value}
use gobac.Types.Unsigned.{marshal_uint16}
use gobac.Types.ObjectId.{ObjectId, instance_number}
use gobac.Types.ObjectId.RoundTrip.{IsObjectId}
use gobac.Pdu.SubscribeCov.{SubscribeCov, marshal_subscribe_cov}
use gobac.Pdu.SubscribeCov.Simulated.{decode_subscribe_cov-marshal}
use gobac.Simulator.SubscribeRequest.{from_object_id, decode_subscribe_cov}
use gobac.Pdu.Npci
use gobac.Pdu.Npci.{Npci, control_of}

-- One way to fill the conversions, which keeps the bits of a float.
abbrev pub same_bits : Floats
same_bits = record {
  widen = λ b. b;
  narrow = λ b. b;
  of_integer = λ i. 0;
  to_uint32 = λ b. 0;
  to_int32 = λ b. pos 0;
  narrow-widen = λ b small number. refl;
}

abbrev minus_40000 : PropertyValue
minus_40000 = record { type = 3; value = int32 (negsuc 39999) }

unmarshal-marshal_value_example :
    (b : Bytes) × (PropertyValue.marshal same_bits minus_40000 ≡ ok b)
    × (PropertyValue.unmarshal (b ++ 1 ∷ [])
        ≡ ok (record minus_40000 { value = read_back minus_40000.value }))
unmarshal-marshal_value_example =
    unmarshal-marshal_value same_bits minus_40000 (1 ∷ []) (refl, omega arith)

-- To a device of 4 octets on network 12, at most 5 hops away.
abbrev routed : Npci
routed = record (Npci.initial) {
  expecting_reply = true;
  priority = 2;
  hop_count = 5;
  destination_net = 12;
  destination_length = 4;
  destination_mac = some (1 ∷ 2 ∷ 3 ∷ 4 ∷ []);
}

routed-octets : Npci.marshal routed ≡ ok (1 ∷ 0x26 ∷ 0 ∷ 12 ∷ 4 ∷ 1 ∷ 2 ∷ 3 ∷ 4 ∷ 5 ∷ [])
unfolding Npci.marshal Npci.encode control_of marshal_uint16
routed-octets = refl

abbrev analog : ObjectId
analog = record { type = 2; instance_low = 5; extended_instance = 0 }

analog-IsObjectId : IsObjectId analog
unfolding instance_number
analog-IsObjectId = record {
  type_small = omega arith;
  instance_small = omega arith;
  low = refl;
  canonical = refl;
}

-- Confirmed notifications of one object for ten minutes.
abbrev ten_minutes : SubscribeCov
ten_minutes = record {
  process_identifier = 0;
  process_identifier32 = 70000;
  object_id = some analog;
  cancel = false;
  timeout = 0;
  issue_confirmed = true;
  lifetime = 600;
  has_lifetime = true;
}

decode_subscribe_cov-marshal_example :
    (bs : Bytes) × (marshal_subscribe_cov ten_minutes ≡ ok bs)
    × (decode_subscribe_cov bs
        ≡ ok (record {
          process_identifier = 70000;
          object = from_object_id analog;
          confirmed = true;
          lifetime = 600;
          cancel = false;
        }))
decode_subscribe_cov-marshal_example =
    decode_subscribe_cov-marshal ten_minutes analog refl analog-IsObjectId (omega arith)
      (omega arith)
