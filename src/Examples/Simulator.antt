-- ===== src/Examples/Simulator.antt =====
-- Runs of the simulator's properties, objects and devices, and their theorems at concrete values.
use gobac.Prelude.{ℕ, ◌≡◌, ◌≢◌, ◌-◌, refl, ap, arith, [], ◌∷◌, take, Bool, true, false}
use gobac.Prelude.{none, some, if◌then◌else◌, replicate}
use gobac.Prelude.Maps.{lookup}
use gobac.Types.GoValue.{nil, uint32, bool, bit_string, ObjectRef, object_ref_key}
use gobac.Simulator.Errors.{ok, write_denied}
use gobac.Simulator.Property.{Value, Property, effective_values, write}
use gobac.Simulator.Property.{validate_write, validate_write_allowing_read_only, validate_values}
use gobac.Simulator.Property.{validate_range, resolve_priority, apply, apply_validated}
use gobac.Simulator.Property.Priorities.{
  IsCommand, target, any_set, effective_values-write, relinquish-write,
}
use gobac.Simulator.Property.Priorities.{SameCommand, write-SameCommand}
use gobac.Simulator.Object.{Object, out_of_service, status_flags}
use gobac.Simulator.Device.{
  Device, find_object, read_property, write_property, validate_write_property,
}
use gobac.Simulator.Device.Validation.{write_property-validate, write_property-err}
use gobac.Simulator.Device.Frame.{HasHealth, read_property-write_ne}
use gobac.Simulator.Device.Frame.{out_of_service_mirrored}

abbrev unsigned : ℕ → Value
unsigned n = record { tag = 2; value = uint32 n }

abbrev null : Value
null = record { tag = 0; value = nil }

abbrev plain : Bool → ℕ → Property
plain writable n = record {
  id = 85;
  values = unsigned n ∷ [];
  writable = writable;
  array = false;
  cov_increment = 0;
  relinquish_default = none;
  minimum_unsigned = 1;
  maximum_unsigned = 3;
  scalar = true;
  expected_tag = 2;
  priorities = replicate 16 none;
}

abbrev command : Property
command = record (plain true 1) { relinquish_default = some (unsigned 1) }

command-IsCommand : IsCommand command
command-IsCommand = record { commandable = refl; slots = refl }

abbrev at_8 : Property
at_8 = (write command (unsigned 3 ∷ []) 8).0

effective_values-write_example : effective_values at_8 ≡ (
    if any_set (take (target 8 - 1) command.priorities)
    then effective_values command
    else unsigned 3 ∷ [])
unfolding write validate_write validate_write_allowing_read_only validate_values validate_range
    resolve_priority apply apply_validated
effective_values-write_example =
    effective_values-write command at_8 (unsigned 3) [] 8 command-IsCommand refl refl

relinquish-write_example : (write at_8 (null ∷ []) 8).0 ≡ command
unfolding write validate_write validate_write_allowing_read_only validate_values validate_range
    resolve_priority apply apply_validated
relinquish-write_example =
    relinquish-write command at_8 (write at_8 (null ∷ []) 8).0 (unsigned 3) null [] [] 8
      command-IsCommand refl refl refl refl

write-SameCommand_example : SameCommand command at_8
write-SameCommand_example = write-SameCommand command (unsigned 3 ∷ []) 8 command-IsCommand

abbrev array : Property
array = record (plain true 1) { array = true; values = unsigned 7 ∷ unsigned 8 ∷ [] }

abbrev point : ObjectRef
point = record { type = 2; instance_value = 1 }

abbrev other_point : ObjectRef
other_point = record { type = 2; instance_value = 2 }

point-ne : point ≢ other_point
point-ne e = omega (arith, ap (λ (r : ObjectRef). r.instance_value) e)

abbrev object_of : ObjectRef → Object
object_of id = record {
  id = id;
  name = [];
  properties = (85, plain true 1) ∷ (28, plain false 2) ∷ [];
  out_of_service_flag = false;
}

abbrev device : Device
device = record {
  id = 1001;
  name = [];
  address = [];
  port = 47808;
  vendor_id = 0;
  model_name = [];
  objects = (point, object_of point) ∷ (other_point, object_of other_point) ∷ [];
}

write_property-validate_example :
    (write_property device point 85 (unsigned 2 ∷ []) 0).1
    ≡ validate_write_property device point 85 (unsigned 2 ∷ []) 0
write_property-validate_example = write_property-validate device point 85 (unsigned 2 ∷ []) 0

write_property-err_example : (write_property device point 28 (unsigned 3 ∷ []) 0).0 ≡ device
unfolding write_property find_object lookup write validate_write validate_write_allowing_read_only
    apply_validated
write_property-err_example =
    write_property-err device point 28 (unsigned 3 ∷ []) 0 write_denied refl

read_property-write_ne_example :
    read_property (write_property device point 85 (unsigned 2 ∷ []) 0).0 other_point 85 none
    ≡ read_property device other_point 85 none
read_property-write_ne_example =
    read_property-write_ne device point other_point 85 85 0 (unsigned 2 ∷ []) none point-ne

point-HasHealth : HasHealth (object_of point)
unfolding lookup
point-HasHealth = record { no_device = λ e. omega arith; no_flag = refl; no_status = refl }

out_of_service_mirrored_example :
    let d' =
      write_property device point out_of_service (record { tag = 1; value = bool true } ∷ []) 0 in
    (d'.1 ≡ ok tt)
    × (read_property d'.0 point out_of_service none
        ≡ ok (record { tag = 1; value = bool true } ∷ []))
    × (read_property d'.0 point status_flags none
        ≡ ok (record { tag = 8; value = bit_string ((if true then 8 else 0) ∷ []) } ∷ []))
unfolding find_object lookup
out_of_service_mirrored_example =
    out_of_service_mirrored device point (object_of point) true refl point-HasHealth
