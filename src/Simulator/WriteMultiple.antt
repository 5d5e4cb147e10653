-- ===== src/Simulator/WriteMultiple.antt =====
-- `handleWritePropertyMultiple` of simulator/application.go behind the decoder: first every write is
-- validated, then every write is made. A decoded object identifier has a type of 10 bits and an instance
-- of 22 bits, so that the error response of a failed write is always encoded.
pub mod Atomicity
use gobac.Prelude.{
  ℕ, List, [], ◌∷◌, ◌++◌, Bool, true, false, ◌||◌, if◌then◌else◌, Option, none, some,
}
use gobac.Types.GoValue.{ObjectRef, same_ref}
use gobac.Simulator.Errors.{Outcome, ok, err, ModelError, model_error_class_code, class_property}
use gobac.Simulator.Property.{Value}
use gobac.Simulator.Device.{Device, validate_write_property, write_property}

-- `PropertyWrite`, with its reference written out.
pub record PropertyWrite : Type 0 where
  pub id : ℕ
  pub array_index : Option ℕ
  pub values : List Value
  pub priority : ℕ

-- `WriteAccessSpecification`
pub record WriteAccessSpecification : Type 0 where
  pub object : ObjectRef
  pub properties : List PropertyWrite

-- The error class and code, and the first write that failed.
pub record WriteError : Type 0 where
  pub class : ℕ
  pub code : ℕ
  pub object : ObjectRef
  pub property : ℕ
  pub index : Option ℕ

-- `writePropertyMultipleError` of a model error.
unfoldable pub write_error : ObjectRef → PropertyWrite → ModelError → WriteError
write_error object w e =
    let (class, code) = model_error_class_code e in
    record { class = class; code = code; object = object; property = w.id; index = none }

-- `ErrorCodeInvalidArrayIndex`
abbrev pub array_index_error : ObjectRef → PropertyWrite → ℕ → WriteError
array_index_error object w index = record {
  class = class_property;
  code = 42;
  object = object;
  property = w.id;
  index = some index;
}

abbrev failed_with : ObjectRef → PropertyWrite → Outcome (Unit {0}) → Option WriteError
failed_with object w (ok tt) = none
failed_with object w (err e) = some (write_error object w e)

-- What the first loop finds wrong with one write.
unfoldable pub validate_one : Device → ObjectRef → PropertyWrite → Option WriteError
validate_one d object w = elim w.array_index [
  | some index ↦ some (array_index_error object w index)
  | none ↦ failed_with object w (validate_write_property d object w.id w.values w.priority)
]

abbrev pub first_error : Option WriteError → Option WriteError → Option WriteError
first_error none later = later
first_error (some e) later = some e

unfoldable pub validate_properties : Device → ObjectRef → List PropertyWrite → Option WriteError
validate_properties d object [] = none
validate_properties d object (w ∷ rest) =
    first_error (validate_one d object w) (validate_properties d object rest)

-- The first loop.
unfoldable pub validate_all : Device → List WriteAccessSpecification → Option WriteError
validate_all d [] = none
validate_all d (s ∷ rest) =
    first_error (validate_properties d s.object s.properties) (validate_all d rest)

-- The writes of the second loop to one object, up to one that fails.
unfoldable pub write_properties :
    Device → ObjectRef → List PropertyWrite → Device × Option WriteError
write_properties d object [] = (d, none)
write_properties d object (w ∷ rest) =
    let written = write_property d object w.id w.values w.priority in
    let others = write_properties written.0 object rest in
    elim (failed_with object w written.1) [ none ↦ others | some e ↦ (written.0, some e) ]

-- The second loop.
unfoldable pub write_all : Device → List WriteAccessSpecification → Device × Option WriteError
write_all d [] = (d, none)
write_all d (s ∷ rest) =
    let written = write_properties d s.object s.properties in
    let others = write_all written.0 rest in
    elim written.1 [ none ↦ others | some e ↦ (written.0, some e) ]

unfoldable pub seen : ObjectRef → List ObjectRef → Bool
seen object [] = false
seen object (o ∷ rest) = same_ref o object || seen object rest

-- `changed`: each object once, in the order of the request.
unfoldable pub changed : List ObjectRef → List WriteAccessSpecification → List ObjectRef
unfolding seen
changed before [] = []
changed before (s ∷ rest) =
    let same = changed before rest in
    let more = s.object ∷ changed (s.object ∷ before) rest in
    if seen s.object before then same else more

-- The response: an error, or an acknowledgement and the objects whose subscribers are notified.
pub data Response : Type 0 where
  failure : WriteError → Response
  simple_ack : List ObjectRef → Response

abbrev pub response_of : List WriteAccessSpecification → Option WriteError → Response
response_of request (some e) = failure e
response_of request none = simple_ack (changed [] request)

-- What follows validation.
abbrev pub write_validated :
    Device → List WriteAccessSpecification → Option WriteError → Device × Response
write_validated d request (some e) = (d, failure e)
write_validated d request none =
    let written = write_all d request in (written.0, response_of request written.1)

unfoldable pub handle_write_property_multiple :
    Device → List WriteAccessSpecification → Device × Response
unfolding changed
handle_write_property_multiple d request = write_validated d request (validate_all d request)
