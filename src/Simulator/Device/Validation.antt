-- ===== src/Simulator/Device/Validation.antt =====
-- ValidateWrite and WriteProperty of simulator/model.go side by side.
use gobac.Prelude.{ℕ, ◌≡◌, refl, arith, List, Bool-cases}
use gobac.Prelude.{Option, none, some, inl, inr}
use gobac.Prelude.Maps.{number_key, lookup, insert-lookup}
use gobac.Types.GoValue.{ObjectRef, object_ref_key}
use gobac.Simulator.Errors.{Outcome, ok, err, ModelError, ◌>>=◌}
use gobac.Simulator.Property.{Value, Property, apply_validated, validate_write, write}
use gobac.Simulator.Property.{validate_write_bypassing_writable, write_bypassing_writable}
use gobac.Simulator.Object.{Object, synthesized_property}
use gobac.Simulator.Device.{Device, found_or, forget, bypasses, validate_object, write_object}
use gobac.Simulator.Device.{
  validate_synthesized_write, write_synthesized_property, put_out_of_service,
}
use gobac.Simulator.Device.{validate_write_property, write_property, write_found, put_property}

apply_validated-forget :
    (p : Property) (values : List Value) (r : Outcome ℕ) → (apply_validated p values r).1 ≡ forget r
unfolding apply_validated
apply_validated-forget p values (ok priority) = refl
apply_validated-forget p values (err e) = refl

put_out_of_service-forget :
    (object : Object) (values : List Value) (r : Outcome ℕ)
    → (put_out_of_service object values r).1 ≡ forget r
put_out_of_service-forget object values (ok priority) = refl
put_out_of_service-forget object values (err e) = refl

write_synthesized-validate :
    (object : Object) (computed : Option Property) (id : ℕ) (values : List Value) (priority : ℕ)
    → (write_synthesized_property object computed id values priority).1
      ≡ validate_synthesized_write computed id values priority
unfolding write_synthesized_property validate_synthesized_write
write_synthesized-validate object none id values priority = refl
write_synthesized-validate object (some p) id values priority =
    ground (arith, put_out_of_service-forget object values (validate_write p values priority))

write_object-validate :
    (object : Object) (stored : Option Property) (id : ℕ) (values : List Value) (priority : ℕ)
    → (write_object object stored id values priority).1
      ≡ validate_object object stored id values priority
write_object-validate object none id values priority =
    write_synthesized-validate object (synthesized_property object id) id values priority
write_object-validate object (some p) id values priority =
    elim (Bool-cases (bypasses object id p)) [
      | inl around ↦ rw around (
          unfold write_bypassing_writable in
          apply_validated-forget p values (validate_write_bypassing_writable p values priority))
      | inr plain ↦
          rw plain
            (unfold write in apply_validated-forget p values (validate_write p values priority))
    ]

-- `ValidateWrite` succeeds or fails, and with the same error, exactly as `WriteProperty` would on the
-- same device.
pub write_property-validate :
    (d : Device) (id : ObjectRef) (property : ℕ) (values : List Value) (priority : ℕ)
    → (write_property d id property values priority).1
      ≡ validate_write_property d id property values priority
unfolding write_property validate_write_property
write_property-validate d id property values priority = either (lookup id d.objects)
  where
    either :
        (o : Option Object)
        → (write_found d id (found_or o) property values priority).1 ≡ (
            found_or o >>= λ object.
            validate_object object (lookup property object.properties) property values priority)
    either none = refl
    either (some object) =
        write_object-validate object (lookup property object.properties) property values priority

apply_validated-err :
    (p : Property) (values : List Value) (r : Outcome ℕ) (e : ModelError)
    → (apply_validated p values r).1 ≡ err e
    → (apply_validated p values r).0 ≡ p
unfolding apply_validated
apply_validated-err p values (ok priority) e h = cc
apply_validated-err p values (err x) e h = refl

put_out_of_service-err :
    (object : Object) (values : List Value) (r : Outcome ℕ) (e : ModelError)
    → (put_out_of_service object values r).1 ≡ err e
    → (put_out_of_service object values r).0 ≡ object
put_out_of_service-err object values (ok priority) e h = cc
put_out_of_service-err object values (err x) e h = refl

write_synthesized-err :
    (object : Object) (computed : Option Property) (id : ℕ) (values : List Value) (priority : ℕ)
    (e : ModelError)
    → (write_synthesized_property object computed id values priority).1 ≡ err e
    → (write_synthesized_property object computed id values priority).0 ≡ object
unfolding write_synthesized_property
write_synthesized-err object none id values priority e h = refl
write_synthesized-err object (some p) id values priority e h =
    ground (arith, put_out_of_service-err object values (validate_write p values priority) e)

-- A property that stayed the same is put back in its place.
put_property-same :
    (object : Object) (id : ℕ) (p : Property) (r : Property × Outcome (Unit {0}))
    → lookup id object.properties ≡ some p
    → r.0 ≡ p
    → (put_property object id r).0 ≡ object
put_property-same object id p r at same = rw (same, insert-lookup id p object.properties at)

write_object-err :
    (object : Object) (id : ℕ) (values : List Value) (priority : ℕ) (e : ModelError)
    (stored : Option Property)
    → lookup id object.properties ≡ stored
    → (write_object object stored id values priority).1 ≡ err e
    → (write_object object stored id values priority).0 ≡ object
write_object-err object id values priority e none at h =
    write_synthesized-err object (synthesized_property object id) id values priority e h
write_object-err object id values priority e (some p) at h =
    elim (Bool-cases (bypasses object id p)) [
      | inl around ↦
          let r = validate_write_bypassing_writable p values priority in
          let failed = rw around at h in
          rw around (
            unfold write_bypassing_writable in
            put_property-same object id p (apply_validated p values r) at
              (apply_validated-err p values r e failed))
      | inr plain ↦
          let r = validate_write p values priority in
          let failed = rw plain at h in
          rw plain (
            unfold write in
            put_property-same object id p (apply_validated p values r) at
              (apply_validated-err p values r e failed))
    ]

-- A write that fails leaves the whole device as it was.
pub write_property-err :
    (d : Device) (id : ObjectRef) (property : ℕ) (values : List Value) (priority : ℕ)
    (e : ModelError)
    → (write_property d id property values priority).1 ≡ err e
    → (write_property d id property values priority).0 ≡ d
unfolding write_property
write_property-err d id property values priority e h = either (lookup id d.objects) refl h
  where
    either :
        (o : Option Object)
        → lookup id d.objects ≡ o
        → (write_found d id (found_or o) property values priority).1 ≡ err e
        → (write_found d id (found_or o) property values priority).0 ≡ d
    either none at h = refl
    either (some object) at h = rw (
      write_object-err object property values priority e (lookup property object.properties) refl h,
      insert-lookup id object d.objects at,
    )
