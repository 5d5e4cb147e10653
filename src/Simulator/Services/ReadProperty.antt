-- ===== src/Simulator/Services/ReadProperty.antt =====
-- decodeReadProperty and encodeReadPropertyResult of simulator/services.go.
use mathlib.Core.List.{append-nil}
use gobac.Prelude.{ℕ, ◌≡◌, refl, arith, [], ◌∷◌, length, ◌==◌, if◌then◌else◌, map, List}
use gobac.Prelude.{Bool-cases, inl, inr, Bool, true, false, Option, none, some}
use gobac.Result.{Result, ok, err, invalid_value, ◌>>=◌, ◌>>◌, check}
use gobac.Types.Bytes.{Bytes}
use gobac.Types.ObjectId.{ObjectId}
use gobac.Types.GoValue.{Floats, ObjectRef}
use gobac.Types.PropertyValue.{PropertyValue}
use gobac.Types.Property.{
  writes_index, Property, zero_property, marshal_property, unmarshal_property,
}
use gobac.Types.Property.RoundTrip.{IsProperty, Ends, index_read, unmarshal-marshal_property}
use gobac.Pdu.Property.{ReadPropertyPdu, marshal_read_property}
use gobac.Simulator.Property.{Value}
use gobac.Simulator.SubscribeRequest.{from_object_id}
use gobac.Simulator.Services.Convert.{PropertyReference, to_object_id, to_property_values}

-- The object and the reference of a property that was decoded.
abbrev pub reference_of : Property → PropertyReference
reference_of p = record { id = p.id; array_index = if p.has_index then some p.index else none }

abbrev pub object_or_invalid : Option ObjectId → Result ObjectId
object_or_invalid none = err invalid_value
object_or_invalid (some o) = ok o

unfoldable pub decode_read_property : Bytes → Result (ObjectRef × PropertyReference)
decode_read_property bs = do
  p ← unmarshal_property zero_property bs
  o ← object_or_invalid p.object_id
  check (p.length == length bs) invalid_value
  ok (from_object_id o, reference_of p)

abbrev has_some : Option ℕ → Bool
has_some none = false
has_some (some n) = true

abbrev or_zero : Option ℕ → ℕ
or_zero none = 0
or_zero (some n) = n

-- The property of an acknowledgement.
abbrev pub result_property : ObjectId → PropertyReference → List PropertyValue → Property
result_property o reference values = record zero_property {
  object_id = some o;
  id = reference.id;
  index = or_zero reference.array_index;
  has_index = has_some reference.array_index;
  values = map some values;
}

unfoldable pub encode_read_property_result :
    Floats → ObjectRef → PropertyReference → List Value → Result Bytes
encode_read_property_result f object reference values = do
  o ← to_object_id object
  ps ← to_property_values values
  marshal_property f (result_property o reference ps)

-- A ReadProperty request that the client writes for a property in use is read by the simulator as the
-- same object, property and index; values in it are passed over.
pub decode_read_property-marshal :
    (f : Floats) (r : ReadPropertyPdu) (o : ObjectId) (vs : List PropertyValue)
    → IsProperty r.property o vs
    → (b : Bytes) × (marshal_read_property f r ≡ ok b)
      × (decode_read_property b
          ≡ ok (
            from_object_id o,
            record { id = r.property.id; array_index = index_read r.property },
          ))
unfolding decode_read_property marshal_read_property
decode_read_property-marshal f r o vs h =
    let p = r.property in
    let (b, written, read) = unmarshal-marshal_property f p zero_property o vs [] h (ends vs) in
    (
      b,
      written,
      rw (rw (append-nil b) at read, h.0)
          elim (Bool-cases (writes_index p)) [
            | inl e ↦ rw e (ground arith)
            | inr e ↦ rw e (ground arith)
          ],
    )
  where
    ends : (vs : List PropertyValue) → Ends vs []
    ends [] = refl
    ends (v ∷ vs) = tt
