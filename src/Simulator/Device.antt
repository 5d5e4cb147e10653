-- ===== src/Simulator/Device.antt =====
-- The devices of simulator/model.go. Each object belongs to one device, so the pointers of the map are
-- values here; the lock makes each operation one step on the device.
pub mod Forgetful
pub mod Frame
pub mod Validation
use gobac.Prelude.{ℕ, ◌≡◌, List, [], ◌∷◌, Bool, true, false, not, ◌&&◌, ◌==◌, ltb}
use gobac.Prelude.{if◌then◌else◌, Option, none, some}
use gobac.Prelude.Maps.{Key, number_key, lookup, insert}
use gobac.Types.Bytes.{Bytes}
use gobac.Types.Scalars.{Date, Time}
use gobac.Types.GoValue.{GoValue, bool, date, time, ObjectRef, object_ref_key}
use gobac.Simulator.Errors.{Outcome, ok, err, ◌>>=◌, unknown_object, unknown_property, write_denied}
use gobac.Simulator.Errors.{unknown_device}
use gobac.Simulator.Property.{Value, Property, is_commandable, read, validate_write, write}
use gobac.Simulator.Property.{validate_write_bypassing_writable, write_bypassing_writable}
use gobac.Simulator.Object.{Object, synthesized_property, out_of_service_property, scalar_property}
use gobac.Simulator.Object.{present_value, out_of_service, local_date, local_time, device_type}

pub record Device : Type 0 where
  pub id : ℕ
  pub name : Bytes
  pub address : Bytes
  pub port : ℕ
  pub vendor_id : ℕ
  pub model_name : Bytes
  pub objects : List (ObjectRef × Object)

abbrev pub found_or {ℓ} : {A : Type ℓ} → Option A → Outcome A
found_or none = err unknown_object
found_or (some a) = ok a

-- `Device.Object`
unfoldable pub find_object : Device → ObjectRef → Outcome Object
find_object d id = found_or (lookup id d.objects)

-- The `read` of a property that is stored, of one that is computed, or of none.
abbrev pub read_of : Option Property → Option Property → Option ℕ → Outcome (List Value)
read_of (some p) computed index = read p index
read_of none (some p) index = read p index
read_of none none index = err unknown_property

abbrev pub read_object : Object → ℕ → Option ℕ → Outcome (List Value)
read_object object id index =
    read_of (lookup id object.properties) (synthesized_property object id) index

unfoldable pub read_property : Device → ObjectRef → ℕ → Option ℕ → Outcome (List Value)
unfolding find_object
read_property d id property index = do object ← find_object d id; read_object object property index

-- A priority that was resolved is dropped.
abbrev pub forget : Outcome ℕ → Outcome (Unit {0})
forget (ok priority) = ok tt
forget (err e) = err e

-- `validateSynthesizedWrite`
unfoldable pub validate_synthesized_write :
    Option Property → ℕ → List Value → ℕ → Outcome (Unit {0})
validate_synthesized_write none id values priority = err unknown_property
validate_synthesized_write (some p) id values priority =
    if not (id == out_of_service)
    then err write_denied
    else forget (validate_write p values priority)

-- A write to Present_Value passes over `Writable` while the object is out of service.
abbrev pub bypasses : Object → ℕ → Property → Bool
bypasses object id p = id == present_value && object.out_of_service_flag && not (is_commandable p)

abbrev pub validate_object : Object → Option Property → ℕ → List Value → ℕ → Outcome (Unit {0})
validate_object object none id values priority =
    validate_synthesized_write (synthesized_property object id) id values priority
validate_object object (some p) id values priority =
    if bypasses object id p
    then forget (validate_write_bypassing_writable p values priority)
    else forget (validate_write p values priority)

-- `Device.ValidateWrite`
unfoldable pub validate_write_property :
    Device → ObjectRef → ℕ → List Value → ℕ → Outcome (Unit {0})
unfolding find_object validate_synthesized_write
validate_write_property d id property values priority = do
  object ← find_object d id
  validate_object object (lookup property object.properties) property values priority

-- `value, _ := values[0].Value.(bool)`
abbrev pub bool_or_false : List Value → Bool
bool_or_false [] = false
bool_or_false (v ∷ rest) = elim v.value [ bool b ↦ b | _ ↦ false ]

-- The end of `writeSynthesizedProperty`.
abbrev pub put_out_of_service : Object → List Value → Outcome ℕ → Object × Outcome (Unit {0})
put_out_of_service object values (ok priority) =
    (record object { out_of_service_flag = bool_or_false values }, ok tt)
put_out_of_service object values (err e) = (object, err e)

-- `writeSynthesizedProperty`
unfoldable pub write_synthesized_property :
    Object → Option Property → ℕ → List Value → ℕ → Object × Outcome (Unit {0})
write_synthesized_property object none id values priority = (object, err unknown_property)
write_synthesized_property object (some p) id values priority =
    if not (id == out_of_service)
    then (object, err write_denied)
    else put_out_of_service object values (validate_write p values priority)

-- The property is written in place.
abbrev pub put_property : Object → ℕ → Property × Outcome (Unit {0}) → Object × Outcome (Unit {0})
put_property object id (p, r) = (record object { properties = insert id p object.properties }, r)

abbrev pub write_object :
    Object → Option Property → ℕ → List Value → ℕ → Object × Outcome (Unit {0})
write_object object none id values priority =
    write_synthesized_property object (synthesized_property object id) id values priority
write_object object (some p) id values priority =
    if bypasses object id p
    then put_property object id (write_bypassing_writable p values priority)
    else put_property object id (write p values priority)

-- The object is written in place.
abbrev pub put_object :
    Device → ObjectRef → Object × Outcome (Unit {0}) → Device × Outcome (Unit {0})
put_object d id (object, r) = (record d { objects = insert id object d.objects }, r)

abbrev pub write_found :
    Device → ObjectRef → Outcome Object → ℕ → List Value → ℕ → Device × Outcome (Unit {0})
write_found d id (err e) property values priority = (d, err e)
write_found d id (ok object) property values priority =
    put_object d id
      (write_object object (lookup property object.properties) property values priority)

-- `Device.WriteProperty`
unfoldable pub write_property :
    Device → ObjectRef → ℕ → List Value → ℕ → Device × Outcome (Unit {0})
unfolding write_synthesized_property find_object
write_property d id property values priority =
    write_found d id (find_object d id) property values priority

abbrev pub stamp : Device → ObjectRef → Option Object → Date → Time → Device
stamp d id none day clock = d
stamp d id (some object) day clock =
    let dated =
      insert local_date (scalar_property local_date 10 (date day) false) object.properties in
    let timed = insert local_time (scalar_property local_time 11 (time clock) false) dated in
    record d { objects = insert id (record object { properties = timed }) d.objects }

-- `SetLocalTime`
unfoldable pub set_local_time : Device → Date → Time → Device
set_local_time d day clock =
    let id : ObjectRef = record { type = device_type; instance_value = d.id } in
    stamp d id (lookup id d.objects) day clock
