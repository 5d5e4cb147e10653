-- ===== src/Simulator/Application/WhoIs.antt =====
-- handleWhoIs of simulator/application.go, with encodeIAm of simulator/services.go.
use gobac.Prelude.{ℕ, ◌^◌, ◌%◌, ◌≤◌, ◌<◌, ◌≡◌, refl, arith, List, [], ◌∷◌, ◌++◌, true, All}
use gobac.Prelude.{◌&&◌, ltb, leb, if◌then◌else◌, Bool-cases, inl, inr}
use gobac.Result.{Result, ok, ◌>>=◌}
use gobac.Types.Bytes.{Bytes}
use gobac.Types.Unsigned.{encode_var_uint}
use gobac.Types.ObjectId.{ObjectId, instance_number, set_instance_number}
use gobac.Types.ObjectId.RoundTrip.{IsObjectId}
use gobac.Types.GoValue.{Floats, uint32, object_id, object_ref}
use gobac.Types.PropertyValue.{PropertyValue}
use gobac.Types.Context.{write_context}
use gobac.Types.Content.Values.{FitsTag}
use gobac.Pdu.ReadMultiple.Ack.{decode_values}
use gobac.Pdu.ReadMultiple.Values.{decode-marshal_values}
use gobac.Simulator.Property.{Value}
use gobac.Simulator.Object.{device_type}
use gobac.Simulator.Device.{Device}
use gobac.Simulator.Response.{Endpoint, Response, unconfirmed, to}
use gobac.Simulator.Services.Convert.{
  to_object_id, converted, to_property_value, to_property_values, encode_values,
  encode_values-convert,
}
use gobac.Simulator.WhoIs.{answers_who_is, answers_who_is-range}

abbrev i_am_values : Device → List Value
i_am_values d =
    record { tag = 12; value = object_ref (record { type = device_type; instance_value = d.id }) }
    ∷ record { tag = 2; value = uint32 1476 }
    ∷ record { tag = 9; value = uint32 3 }
    ∷ record { tag = 2; value = uint32 d.vendor_id }
    ∷ []

unfoldable pub encode_i_am : Floats → Device → Result Bytes
encode_i_am f d = encode_values f (i_am_values d)

-- `transport.NewEndpoint` of `net.IPv4bcast`, in the form of 16 octets.
abbrev broadcast_endpoint : ℕ → Endpoint
broadcast_endpoint port = record {
  ip = 0 ∷ 0 ∷ 0 ∷ 0 ∷ 0 ∷ 0 ∷ 0 ∷ 0 ∷ 0 ∷ 0 ∷ 255 ∷ 255 ∷ 255 ∷ 255 ∷ 255 ∷ 255 ∷ [];
  port = port;
  network = 0;
  mac = [];
}

-- `AsBroadcast`
abbrev as_broadcast : Response → Response
as_broadcast r = record r { broadcast = true }

abbrev pub i_am_response : ℕ → Bytes → Response
i_am_response port payload = as_broadcast (to (unconfirmed 0 payload) (broadcast_endpoint port))

-- `handleWhoIs`; `port` is the port that the request was sent to.
unfoldable pub handle_who_is : Floats → Device → ℕ → Bytes → Result (List Response)
unfolding encode_i_am
handle_who_is f d port payload =
    if answers_who_is d.id payload
    then (encode_i_am f d >>= λ b. ok (i_am_response port b ∷ []))
    else ok []

abbrev pub device_object_id : ℕ → ObjectId
device_object_id id = record {
  type = device_type;
  instance_low = id % 2 ^ 16;
  extended_instance = if ltb 0xffff id then id else 0;
}

-- What an I-Am says: the device, the largest APDU, that it does not segment, and the vendor.
abbrev pub identity : Device → List PropertyValue
identity d =
    record { type = 12; value = object_id (device_object_id d.id) }
    ∷ record { type = 2; value = uint32 1476 }
    ∷ record { type = 9; value = uint32 3 }
    ∷ record { type = 2; value = uint32 d.vendor_id }
    ∷ []

device_object_id-IsObjectId : (id : ℕ) → id < 2 ^ 22 → IsObjectId (device_object_id id)
unfolding instance_number
device_object_id-IsObjectId id small = ground arith

to_object_id-device :
    (id : ℕ)
    → id < 2 ^ 22
    → to_object_id (record { type = device_type; instance_value = id }) ≡ ok (device_object_id id)
unfolding to_object_id set_instance_number
to_object_id-device id small = ground arith

to_property_values-i_am :
    (d : Device) → d.id < 2 ^ 22 → to_property_values (i_am_values d) ≡ ok (identity d)
unfolding to_property_values to_property_value converted
to_property_values-i_am d small = rw (to_object_id-device d.id small) refl

-- A Who-Is request with two limits of 22 bits, in order, is answered by the devices whose numbers
-- lie from the low to the high limit with one broadcast of an I-Am, whose payload is read back as the
-- device's object identifier, the size of an APDU, the segmentation and the vendor; other devices do not answer.
pub handle_who_is-range :
    (f : Floats) (d : Device) (port low high : ℕ)
    → d.id < 2 ^ 22
    → d.vendor_id < 2 ^ 16
    → low ≤ high
    → high < 2 ^ 22
    → (b : Bytes) × (decode_values b ≡ ok (identity d))
      × (handle_who_is f d port
            (write_context 0 (encode_var_uint low) ++ write_context 1 (encode_var_uint high))
          ≡ ok (if leb low d.id && leb d.id high then i_am_response port b ∷ [] else []))
unfolding handle_who_is encode_i_am
handle_who_is-range f d port low high small vendor order high_small =
    let fits : All FitsTag (identity d) = (
      (refl, device_object_id-IsObjectId d.id small),
      ((inl refl, omega arith), ((inr refl, omega arith), ((inl refl, omega arith), tt))),
    ) in
    let (b, written, read) = decode-marshal_values f (identity d) fits in
    let sent = encode_values-convert f (i_am_values d) _ (to_property_values-i_am d small) in
    (
      b,
      read,
      rw (answers_who_is-range d.id low high order high_small, sent, written)
          elim (Bool-cases (leb low d.id && leb d.id high)) [
            | inl e ↦ rw e refl
            | inr e ↦ rw e refl
          ],
    )
