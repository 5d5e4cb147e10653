-- ===== src/Simulator/Device/Frame.antt =====
-- ReadProperty of simulator/model.go after WriteProperty.
use gobac.Prelude.{ℕ, ◌≡◌, ◌≢◌, refl, ap, ◌∙◌, arith, List, [], ◌∷◌, Bool, false, Bool-cases}
use gobac.Prelude.{Option, none, some, ◌⊎◌, inl, inr, if◌then◌else◌}
use gobac.Prelude.Maps.{number_key, lookup, lookup-insert, same_refl}
use gobac.Types.GoValue.{ObjectRef, object_ref_key, same_ref, same_ref_iff, bool, bit_string}
use gobac.Simulator.Errors.{Outcome, ok, err}
use gobac.Simulator.Property.{
  Value, Property, validate_write, validate_write_allowing_read_only, validate_values,
  validate_range, resolve_priority, effective_values, read,
}
use gobac.Simulator.Object.{
  status_flags_property, switch_result, first_switch, command_switch, out_of_service_property,
  Object, synthesized_property, health_property, status_flags, device_type, present_value,
  out_of_service,
}
use gobac.Simulator.Device.{Device, find_object, found_or, write_object, bypasses}
use gobac.Simulator.Device.{write_synthesized_property, put_out_of_service}
use gobac.Simulator.Device.{read_property, write_property, write_found}

same_ref-ne : (a b : ObjectRef) → a ≢ b → same_ref a b ≡ false
same_ref-ne a b h = elim (Bool-cases (same_ref a b)) [
  | inl same ↦ absurd (h ((same_ref_iff a b).0 same))
  | inr other ↦ other
]

write_property-find_object :
    (d : Device) (id other : ObjectRef) (property : ℕ) (values : List Value) (priority : ℕ)
    → id ≢ other
    → find_object (write_property d id property values priority).0 other ≡ find_object d other
unfolding write_property find_object
write_property-find_object d id other property values priority h = either (lookup id d.objects)
  where
    either :
        (o : Option Object)
        → found_or (lookup other (write_found d id (found_or o) property values priority).0.objects)
          ≡ found_or (lookup other d.objects)
    either none = refl
    either (some object) = rw (lookup-insert, same_ref-ne id other h)

-- A write to one object changes no answer of another object, whatever is read there.
pub read_property-write_ne :
    (d : Device) (id other : ObjectRef) (property read_id priority : ℕ) (values : List Value)
    (index : Option ℕ)
    → id ≢ other
    → read_property (write_property d id property values priority).0 other read_id index
      ≡ read_property d other read_id index
unfolding read_property
read_property-write_ne d id other property read_id priority values index h =
    rw (write_property-find_object d id other property values priority h)

put_out_of_service-properties :
    (object : Object) (values : List Value) (r : Outcome ℕ)
    → (put_out_of_service object values r).0.properties ≡ object.properties
put_out_of_service-properties object values (ok priority) = refl
put_out_of_service-properties object values (err e) = refl

write_synthesized-properties :
    (object : Object) (computed : Option Property) (id : ℕ) (values : List Value) (priority : ℕ)
    → (write_synthesized_property object computed id values priority).0.properties
      ≡ object.properties
unfolding write_synthesized_property
write_synthesized-properties object none id values priority = refl
write_synthesized-properties object (some p) id values priority =
    ground (arith, put_out_of_service-properties object values (validate_write p values priority))

write_object-lookup_ne :
    (object : Object) (stored : Option Property) (id other : ℕ) (values : List Value) (priority : ℕ)
    → id ≢ other
    → lookup other (write_object object stored id values priority).0.properties
      ≡ lookup other object.properties
write_object-lookup_ne object none id other values priority h =
    ap (lookup other)
      (write_synthesized-properties object (synthesized_property object id) id values priority)
write_object-lookup_ne object (some p) id other values priority h =
    elim (Bool-cases (bypasses object id p)) [
      | inl around ↦ rw (around, lookup-insert) (ground arith)
      | inr plain ↦ rw (plain, lookup-insert) (ground arith)
    ]

-- What a device holds after a write to one of its objects.
write_property-object :
    (d : Device) (id : ObjectRef) (object : Object) (property priority : ℕ) (values : List Value)
    → find_object d id ≡ ok object
    → find_object (write_property d id property values priority).0 id
      ≡ ok (write_object object (lookup property object.properties) property values priority).0
unfolding write_property
write_property-object d id object property priority values at =
    rw at (unfold find_object in rw (lookup-insert, same_refl id))

-- A write to one property of an object that the device has changes no answer of another property
-- that the object stores.
pub read_property-write_stored :
    (d : Device) (id : ObjectRef) (object : Object) (property other priority : ℕ)
    (values : List Value) (q : Property) (index : Option ℕ)
    → find_object d id ≡ ok object
    → lookup other object.properties ≡ some q
    → property ≢ other
    → read_property (write_property d id property values priority).0 id other index
      ≡ read_property d id other index
unfolding read_property
read_property-write_stored d id object property other priority values q index at stored h =
    let kept =
      write_object-lookup_ne object (lookup property object.properties) property other values
        priority h in
    rw (write_property-object d id object property priority values at, at, kept, stored)

-- An object that computes its health properties: it is no device, and stores none of them.
pub record HasHealth (object : Object) : Type 0 where
  pub no_device : object.id.type ≢ device_type
  pub no_flag : lookup out_of_service object.properties ≡ none
  pub no_status : lookup status_flags object.properties ≡ none

health-lookup :
    (object : Object) (id : ℕ)
    → (id ≡ out_of_service) ⊎ (id ≡ status_flags)
    → synthesized_property object id ≡ health_property object id
unfolding synthesized_property command_switch
health-lookup object id h = either (lookup present_value object.properties)
  where
    either :
        (o : Option Property)
        → switch_result (first_switch o id) object id ≡ health_property object id
    either none = refl
    either (some pv) = ground (arith)

health-out_of_service :
    (object : Object)
    → HasHealth object
    → synthesized_property object out_of_service ≡ some (out_of_service_property object)
health-out_of_service object h =
    rw (health-lookup object out_of_service (inl refl))
      (unfold health_property in ground (arith, h.no_device))

health-status_flags :
    (object : Object)
    → HasHealth object
    → synthesized_property object status_flags ≡ some (status_flags_property object)
health-status_flags object h =
    rw (health-lookup object status_flags (inr refl))
      (unfold health_property in ground (arith, h.no_device))

out_of_service-written :
    (object : Object) (b : Bool)
    → HasHealth object
    → write_object object none out_of_service (record { tag = 1; value = bool b } ∷ []) 0
      ≡ (record object { out_of_service_flag = b }, ok tt)
unfolding write_synthesized_property validate_write validate_write_allowing_read_only
    validate_values validate_range resolve_priority out_of_service_property
out_of_service-written object b h = rw (health-out_of_service object h) refl

-- A write of a Boolean to Out_Of_Service without a priority succeeds on an object that computes its
-- health properties; Out_Of_Service then reads that Boolean, and Status_Flags the octet whose bit 3
-- it is.
pub out_of_service_mirrored :
    (d : Device) (id : ObjectRef) (object : Object) (b : Bool)
    → find_object d id ≡ ok object
    → HasHealth object
    → let d' = write_property d id out_of_service (record { tag = 1; value = bool b } ∷ []) 0 in
      (d'.1 ≡ ok tt)
      × (read_property d'.0 id out_of_service none ≡ ok (record { tag = 1; value = bool b } ∷ []))
      × (read_property d'.0 id status_flags none
          ≡ ok (record { tag = 8; value = bit_string ((if b then 8 else 0) ∷ []) } ∷ []))
unfolding read_property
out_of_service_mirrored d id object b at h =
    let values : List Value = record { tag = 1; value = bool b } ∷ [] in
    let after = record object { out_of_service_flag = b } in
    let health : HasHealth after = record {
      no_device = h.no_device;
      no_flag = h.no_flag;
      no_status = h.no_status;
    } in
    let held =
      write_property-object d id object out_of_service 0 values at
      ∙ ap (λ r. ok r.0)
          (ap (λ o. write_object object o out_of_service values 0) h.no_flag
            ∙ out_of_service-written object b h) in
    (
      unfold write_property in rw (at, h.no_flag, out_of_service-written object b h) refl,
      rw (held, h.no_flag, health-out_of_service after health)
          (unfold read effective_values out_of_service_property in refl),
      rw (held, h.no_status, health-status_flags after health)
          (unfold read effective_values status_flags_property in refl),
    )
