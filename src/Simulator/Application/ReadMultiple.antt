-- ===== src/Simulator/Application/ReadMultiple.antt =====
-- handleReadPropertyMultiple and expandPropertyReferences of simulator/application.go.
pub mod Sorting
pub mod Readable
pub mod Complete
pub mod Expansion
pub mod Answers
use gobac.Prelude.{ℕ, List, [], ◌∷◌, ◌++◌, map, Bool, true, false, ◌==◌, leb, if◌then◌else◌}
use gobac.Prelude.{Option, none, some}
use gobac.Prelude.Maps.{number_key, lookup}
use gobac.Result.{Result, ok, err}
use gobac.Types.Bytes.{Bytes}
use gobac.Types.GoValue.{Floats, ObjectRef}
use gobac.Simulator.Errors
use gobac.Simulator.Errors.{Outcome}
use gobac.Simulator.Property.{Value, Property}
use gobac.Simulator.Object.{
  Object, present_value, device_type, status_flags, event_state, reliability, out_of_service,
  priority_array, relinquish_default,
}
use gobac.Simulator.Device.{Device, find_object, read_property}
use gobac.Simulator.Response.{Response, reject, complex_ack}
use gobac.Simulator.Services.Convert.{PropertyReference}
use gobac.Simulator.Services.ReadMultiple.{
  ReadAccessSpecification, PropertyResult, ReadAccessResult, decode_read_property_multiple,
  encode_read_property_multiple_result,
}
use gobac.Simulator.Application.{model_error, invalid_tag}

-- property_id.go
abbrev property_all : ℕ
property_all = 8

-- `sort.Ints`
unfoldable pub place : ℕ → List ℕ → List ℕ
place n [] = n ∷ []
place n (m ∷ ms) = let rest = place n ms in if leb n m then n ∷ m ∷ ms else m ∷ rest

unfoldable pub sort_ints : List ℕ → List ℕ
unfolding place
sort_ints [] = []
sort_ints (n ∷ ns) = place n (sort_ints ns)

unfoldable pub keys : List (ℕ × Property) → List ℕ
keys [] = []
keys ((id, p) ∷ ps) = id ∷ keys ps

abbrev pub health_ids : Object → List ℕ
health_ids o =
    if o.id.type == device_type
    then []
    else status_flags ∷ event_state ∷ reliability ∷ out_of_service ∷ []

abbrev pub command_ids_of : Option Value → List ℕ
command_ids_of none = []
command_ids_of (some default) = priority_array ∷ relinquish_default ∷ []

abbrev pub command_ids : Option Property → List ℕ
command_ids none = []
command_ids (some pv) = command_ids_of pv.relinquish_default

unfoldable pub all_ids : Object → List ℕ
unfolding keys
all_ids o = keys o.properties ++ (health_ids o ++ command_ids (lookup present_value o.properties))

abbrev pub plain_reference : ℕ → PropertyReference
plain_reference id = record { id = id; array_index = none }

abbrev pub expanded : List PropertyReference → Outcome Object → List PropertyReference
expanded references (Errors.err e) = references
expanded references (Errors.ok o) = map plain_reference (sort_ints (all_ids o))

-- One reference, to the property ALL, is expanded.
abbrev pub asks_all : List PropertyReference → Bool
asks_all (r ∷ []) = r.id == property_all
asks_all _ = false

unfoldable pub expand_property_references :
    Device → ReadAccessSpecification → List PropertyReference
unfolding all_ids sort_ints
expand_property_references d s =
    if asks_all s.properties then expanded s.properties (find_object d s.object) else s.properties

abbrev pub result_of : PropertyReference → Outcome (List Value) → PropertyResult
result_of reference (Errors.ok values) = record {
  reference = reference;
  values = values;
  error_class = 0;
  error_code = 0;
}
result_of reference (Errors.err e) = record {
  reference = reference;
  values = [];
  error_class = (model_error e).error_class;
  error_code = (model_error e).error_code;
}

-- The inner loop.
unfoldable pub read_all : Device → ObjectRef → List PropertyReference → List PropertyResult
read_all d object [] = []
read_all d object (r ∷ rs) =
    result_of r (read_property d object r.id r.array_index) ∷ read_all d object rs

-- The outer loop.
unfoldable pub access_all : Device → List ReadAccessSpecification → List ReadAccessResult
unfolding expand_property_references read_all
access_all d [] = []
access_all d (s ∷ ss) =
    record { object = s.object; results = read_all d s.object (expand_property_references d s) }
    ∷ access_all d ss

abbrev acknowledged_all : Result Bytes → Result Response
acknowledged_all (err e) = err e
acknowledged_all (ok payload) = ok (complex_ack payload)

abbrev access_decoded : Floats → Device → Result (List ReadAccessSpecification) → Result Response
access_decoded f d (err e) = ok (reject invalid_tag)
access_decoded f d (ok ss) =
    acknowledged_all (encode_read_property_multiple_result f (access_all d ss))

-- `handleReadPropertyMultiple`, which changes nothing.
unfoldable pub handle_read_property_multiple : Floats → Device → Bytes → Result Response
unfolding access_all
handle_read_property_multiple f d payload =
    access_decoded f d (decode_read_property_multiple payload)
