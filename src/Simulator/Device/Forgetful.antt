-- ===== src/Simulator/Device/Forgetful.antt =====
-- Devices of simulator/model.go less the values and the priorities of their properties: the part that
-- ValidateWrite looks at.
use mathlib.Core.Option
use gobac.Prelude.{ℕ, ◌≡◌, ◌≢◌, refl, ap, arith, List, [], ◌∷◌, Bool, true, Bool-cases, inl, inr}
use gobac.Prelude.{Option, none, some, Option-cases}
use gobac.Prelude.Maps.{
  number_key, lookup, insert, map_values, lookup-map_values, map_values-rewrite,
}
use gobac.Types.GoValue.{ObjectRef, object_ref_key}
use gobac.Simulator.Errors.{Outcome, ok, err, ◌>>=◌}
use gobac.Simulator.Property.{Value, Property, validate_write, apply, apply_validated, write}
use gobac.Simulator.Property.{validate_write_bypassing_writable, write_bypassing_writable}
use gobac.Simulator.Property.{
  validate_write_allowing_read_only, validate_values, validate_range, resolve_priority,
}
use gobac.Simulator.Object.{
  Object, synthesized_property, switch_result, first_switch, command_switch,
}
use gobac.Simulator.Object.{
  health_property, status_flags_property, present_value, out_of_service, out_of_service_property,
}
use gobac.Simulator.Device.{Device, find_object, found_or, bypasses, validate_object, write_object}
use gobac.Simulator.Device.{validate_synthesized_write, write_synthesized_property}
use gobac.Simulator.Device.{validate_write_property, write_property, write_found}

abbrev forget_property : Property → Property
forget_property p = record p { values = []; priorities = [] }

abbrev pub forget_object : Object → Object
forget_object o = record o { properties = map_values forget_property o.properties }

unfoldable pub forget_values : Device → Device
forget_values d = record d { objects = map_values forget_object d.objects }

forget-apply_validated :
    (p : Property) (values : List Value) (r : Outcome ℕ)
    → forget_property (apply_validated p values r).0 ≡ forget_property p
unfolding apply_validated apply
forget-apply_validated p [] (ok priority) = ground arith
forget-apply_validated p (v ∷ rest) (ok priority) = ground arith
forget-apply_validated p values (err e) = refl

validate_write-forget :
    (p : Property) (values : List Value) (priority : ℕ) (writable : Bool)
    → validate_write_allowing_read_only (forget_property p) values priority writable
      ≡ validate_write_allowing_read_only p values priority writable
unfolding validate_write_allowing_read_only validate_values validate_range resolve_priority
validate_write-forget p [] priority writable = refl
validate_write-forget p (v ∷ rest) priority writable = refl

health-forget : (o : Object) (id : ℕ) → health_property (forget_object o) id ≡ health_property o id
unfolding health_property status_flags_property out_of_service_property
health-forget o id = refl

validate_synthesized-forget :
    (o : Object) (stored : Option Property) (id : ℕ) (values : List Value) (priority : ℕ)
    → validate_synthesized_write
        (switch_result (first_switch (Option.map forget_property stored) id) (forget_object o) id)
        id
        values
        priority
      ≡ validate_synthesized_write (switch_result (first_switch stored id) o id) id values priority
unfolding validate_synthesized_write command_switch
validate_synthesized-forget o none id values priority = unfold health_property in ground arith
validate_synthesized-forget o (some pv) id values priority =
    ground (arith, health-forget o id, Option-cases pv.relinquish_default)

validate_object-forget :
    (o : Object) (id : ℕ) (values : List Value) (priority : ℕ)
    → validate_object (forget_object o) (lookup id (forget_object o).properties) id values priority
      ≡ validate_object o (lookup id o.properties) id values priority
unfolding validate_values resolve_priority
validate_object-forget o id values priority =
    rw (lookup-map_values forget_property id o.properties) (either (lookup id o.properties))
  where
    either :
        (stored : Option Property)
        → validate_object (forget_object o) (Option.map forget_property stored) id values priority
          ≡ validate_object o stored id values priority
    either none =
        unfold synthesized_property in
        rw (lookup-map_values forget_property present_value o.properties)
          (validate_synthesized-forget o (lookup present_value o.properties) id values priority)
    either (some p) =
        unfold validate_write validate_write_bypassing_writable in
        rw
          (
            validate_write-forget p values priority true,
            validate_write-forget p values priority p.writable,
          )
          refl

-- Validation does not depend on what was forgotten.
pub validate-forget_values :
    (d : Device) (id : ObjectRef) (property : ℕ) (values : List Value) (priority : ℕ)
    → validate_write_property (forget_values d) id property values priority
      ≡ validate_write_property d id property values priority
unfolding validate_write_property find_object forget_values
validate-forget_values d id property values priority =
    rw (lookup-map_values forget_object id d.objects) (either (lookup id d.objects))
  where
    either :
        (o : Option Object)
        → (do
          object ← found_or (Option.map forget_object o)
          validate_object object (lookup property object.properties) property values priority)
          ≡ (do
            object ← found_or o
            validate_object object (lookup property object.properties) property values priority)
    either none = refl
    either (some o) = validate_object-forget o property values priority

forget-write_synthesized :
    (o : Object) (computed : Option Property) (id : ℕ) (values : List Value) (priority : ℕ)
    → id ≢ out_of_service
    → (write_synthesized_property o computed id values priority).0 ≡ o
unfolding write_synthesized_property
forget-write_synthesized o none id values priority h = refl
forget-write_synthesized o (some p) id values priority h = ground arith

forget-write_object :
    (o : Object) (id : ℕ) (values : List Value) (priority : ℕ)
    → id ≢ out_of_service
    → forget_object (write_object o (lookup id o.properties) id values priority).0 ≡ forget_object o
forget-write_object o id values priority h = either (lookup id o.properties) refl
  where
    put :
        (p : Property) (r : Outcome ℕ)
        → lookup id o.properties ≡ some p
        → map_values forget_property (insert id (apply_validated p values r).0 o.properties)
          ≡ map_values forget_property o.properties
    put p r at =
        map_values-rewrite forget_property id p (apply_validated p values r).0 o.properties at
          (forget-apply_validated p values r)

    either :
        (stored : Option Property)
        → lookup id o.properties ≡ stored
        → forget_object (write_object o stored id values priority).0 ≡ forget_object o
    either none at =
        ap forget_object
          (forget-write_synthesized o (synthesized_property o id) id values priority h)
    either (some p) at = elim (Bool-cases (bypasses o id p)) [
      | inl around ↦ rw around (
          unfold write_bypassing_writable in
          rw (put p (validate_write_bypassing_writable p values priority) at) refl)
      | inr plain ↦ rw plain (unfold write in rw (put p (validate_write p values priority) at) refl)
    ]

-- A write to a property other than Out_Of_Service is not seen by what is left.
pub forget_values-write :
    (d : Device) (id : ObjectRef) (property : ℕ) (values : List Value) (priority : ℕ)
    → property ≢ out_of_service
    → forget_values (write_property d id property values priority).0 ≡ forget_values d
unfolding write_property find_object forget_values
forget_values-write d id property values priority h = either (lookup id d.objects) refl
  where
    either :
        (o : Option Object)
        → lookup id d.objects ≡ o
        → forget_values (write_found d id (found_or o) property values priority).0 ≡ forget_values d
    either none at = refl
    either (some o) at =
        let same =
          map_values-rewrite forget_object id o
            (write_object o (lookup property o.properties) property values priority).0 d.objects at
            (forget-write_object o property values priority h) in
        rw same refl
