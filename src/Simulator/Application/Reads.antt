-- ===== src/Simulator/Application/Reads.antt =====
-- handleReadProperty of simulator/application.go between the encoder and the decoder of the client.
use mathlib.Core.List.{append-nil}
use gobac.Prelude.{◌≡◌, refl, arith, List, [], ◌∷◌, length, All, true, false}
use gobac.Prelude.{Bool-cases, ◌⊎◌, inl, inr}
use gobac.Result.{ok}
use gobac.Types.Bytes.{Bytes}
use gobac.Types.ObjectId.{ObjectId, set_instance_number}
use gobac.Types.ObjectId.RoundTrip.{IsObjectId}
use gobac.Types.GoValue.{Floats}
use gobac.Types.PropertyValue.{PropertyValue}
use gobac.Types.Content.Values.{FitsTag}
use gobac.Types.Property.{writes_index, zero_property}
use gobac.Types.Property.RoundTrip.{
  IsProperty, index_read, property_read, unmarshal-marshal_property,
}
use gobac.Pdu.Property.{ReadPropertyPdu, marshal_read_property, unmarshal_read_property}
use gobac.Simulator.Errors
use gobac.Simulator.Property.{Value}
use gobac.Simulator.Device.{Device, read_property}
use gobac.Simulator.Response.{complex_ack}
use gobac.Simulator.SubscribeRequest.{from_object_id}
use gobac.Simulator.Services.Convert.{PropertyReference, to_object_id, to_property_values}
use gobac.Simulator.Services.ReadProperty.{
  result_property, encode_read_property_result, decode_read_property-marshal,
}
use gobac.Simulator.Application.{handle_read_property, model_error}

pub to_object_id-from : (o : ObjectId) → IsObjectId o → to_object_id (from_object_id o) ≡ ok o
unfolding to_object_id set_instance_number
to_object_id-from o h = ground arith

abbrev pub reference_in : ReadPropertyPdu → PropertyReference
reference_in r = record { id = r.property.id; array_index = index_read r.property }

-- The values of an acknowledgement, encoded by the simulator and decoded by the client.
encoded_result :
    (f : Floats) (q : ReadPropertyPdu) (o : ObjectId) (reference : PropertyReference)
    (values : List Value) (v : PropertyValue) (ps : List PropertyValue)
    → IsProperty (result_property o reference (v ∷ ps)) o (v ∷ ps)
    → to_property_values values ≡ ok (v ∷ ps)
    → (b : Bytes) × (encode_read_property_result f (from_object_id o) reference values ≡ ok b)
      × (unmarshal_read_property q b
          ≡ ok (record q {
            property =
                property_read zero_property
                  (result_property o reference (v ∷ ps))
                  (v ∷ ps)
                  (length b);
          }))
unfolding encode_read_property_result unmarshal_read_property
encoded_result f q o reference values v ps h converted =
    let p = result_property o reference (v ∷ ps) in
    let (b, written, read) = unmarshal-marshal_property f p zero_property o (v ∷ ps) [] h tt in
    (
      b,
      rw (to_object_id-from o h.1, converted, written) refl,
      rw (rw (append-nil b) at read) (ground arith),
    )

-- A ReadProperty request of the client for a property in use, which the device reads without an error as
-- one or more values that can be converted and fit their tags, is answered by an acknowledgement that
-- the client decodes: it holds the object, the property and the index of the request and the values
-- that the device read, of the two Go types of a float `Real` and `Double`.
pub handle_read_property-marshal :
    (f : Floats) (d : Device) (r q : ReadPropertyPdu) (o : ObjectId) (vs : List PropertyValue)
    (values : List Value) (v : PropertyValue) (ps : List PropertyValue)
    → IsProperty r.property o vs
    → read_property d (from_object_id o) r.property.id (index_read r.property) ≡ Errors.ok values
    → to_property_values values ≡ ok (v ∷ ps)
    → All FitsTag (v ∷ ps)
    → (request : Bytes) × (b : Bytes) × (marshal_read_property f r ≡ ok request)
      × (handle_read_property f d request ≡ complex_ack b)
      × (unmarshal_read_property q b
          ≡ ok (record q {
            property =
                property_read zero_property
                  (result_property o (reference_in r) (v ∷ ps))
                  (v ∷ ps)
                  (length b);
          }))
unfolding handle_read_property
handle_read_property-marshal f d r q o vs values v ps h read converted fit =
    let (request, sent, decoded) = decode_read_property-marshal f r o vs h in
    let (b, written, received) =
      encoded_result f q o (reference_in r) values v ps
        (is_property (Bool-cases (writes_index r.property))) converted in
    (request, b, sent, rw (decoded, read, written) refl, received)
  where
    is_property :
        (writes_index r.property ≡ true) ⊎ (writes_index r.property ≡ false)
        → IsProperty (result_property o (reference_in r) (v ∷ ps)) o (v ∷ ps)
    is_property (inl e) = (refl, h.1, h.2, rw e h.3, refl, refl, fit)
    is_property (inr e) = (refl, h.1, h.2, rw e (omega arith), refl, refl, fit)

-- Where the device refuses to read, the answer is the error that its class and code name.
pub handle_read_property-err :
    (f : Floats) (d : Device) (r : ReadPropertyPdu) (o : ObjectId) (vs : List PropertyValue)
    (e : Errors.ModelError)
    → IsProperty r.property o vs
    → read_property d (from_object_id o) r.property.id (index_read r.property) ≡ Errors.err e
    → (request : Bytes) × (marshal_read_property f r ≡ ok request)
      × (handle_read_property f d request ≡ model_error e)
unfolding handle_read_property
handle_read_property-err f d r o vs e h read =
    let (request, sent, decoded) = decode_read_property-marshal f r o vs h in
    (request, sent, rw (decoded, read) refl)
