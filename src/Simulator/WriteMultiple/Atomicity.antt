-- ===== src/Simulator/WriteMultiple/Atomicity.antt =====
-- The two loops of handleWritePropertyMultiple in simulator/application.go side by side.
use gobac.Prelude.{◌≡◌, ◌≢◌, refl, sym, ap, ◌∙◌, arith, List, [], ◌∷◌, All, Option, none, some}
use gobac.Prelude.{Option-cases, ◌⊎◌, inl, inr, Bool, false, not, ◌&&◌, ◌||◌}
use gobac.Types.GoValue.{ObjectRef, same_ref, same_ref_iff}
use gobac.Simulator.Errors.{ok}
use gobac.Simulator.Object.{out_of_service}
use gobac.Simulator.Device.{Device, validate_write_property, write_property}
use gobac.Simulator.Device.Validation.{write_property-validate}
use gobac.Simulator.Device.Forgetful.{forget_values, forget_values-write, validate-forget_values}
use gobac.Simulator.WriteMultiple.{PropertyWrite, WriteAccessSpecification, WriteError, first_error}
use gobac.Simulator.WriteMultiple.{validate_one, validate_properties, validate_all}
use gobac.Simulator.WriteMultiple.{write_properties, write_all, failure, simple_ack, changed}
use gobac.Simulator.WriteMultiple.{handle_write_property_multiple, seen}

abbrev pub Keeps : PropertyWrite → Type 0
Keeps w = w.id ≢ out_of_service

-- No write of the request names Out_Of_Service.
abbrev pub KeepsService : List WriteAccessSpecification → Type 0
KeepsService request = All (λ s. All Keeps s.properties) request

first_error-none : (a b : Option WriteError) → first_error a b ≡ none → (a ≡ none) × (b ≡ none)
first_error-none none b h = (refl, h)
first_error-none (some e) b h = cc h

-- Devices that validation does not tell apart.
abbrev Alike : Device → Device → Type 0
Alike d d' = forget_values d ≡ forget_values d'

validate-Alike :
    (d d' : Device) (object : ObjectRef) (w : PropertyWrite)
    → Alike d d'
    → validate_write_property d object w.id w.values w.priority
      ≡ validate_write_property d' object w.id w.values w.priority
validate-Alike d d' object w same =
    sym (validate-forget_values d object w.id w.values w.priority)
    ∙ ap (λ x. validate_write_property x object w.id w.values w.priority) same
    ∙ validate-forget_values d' object w.id w.values w.priority

validate_one-ok :
    (d : Device) (object : ObjectRef) (w : PropertyWrite)
    → validate_one d object w ≡ none
    → validate_write_property d object w.id w.values w.priority ≡ ok tt
unfolding validate_one
validate_one-ok d object w h = ground arith

write_one :
    (d d' : Device) (object : ObjectRef) (w : PropertyWrite)
    → Alike d' d
    → Keeps w
    → validate_one d object w ≡ none
    → ((write_property d' object w.id w.values w.priority).1 ≡ ok tt)
      × (Alike (write_property d' object w.id w.values w.priority).0 d)
write_one d d' object w same keeps valid = (
  write_property-validate d' object w.id w.values w.priority
      ∙ validate-Alike d' d object w same
      ∙ validate_one-ok d object w valid,
  forget_values-write d' object w.id w.values w.priority keeps ∙ same,
)

write_properties-ok :
    (d d' : Device) (object : ObjectRef) (writes : List PropertyWrite)
    → Alike d' d
    → All Keeps writes
    → validate_properties d object writes ≡ none
    → ((write_properties d' object writes).1 ≡ none)
      × (Alike (write_properties d' object writes).0 d)
unfolding write_properties validate_properties
write_properties-ok d d' object [] same keeps valid = (refl, same)
write_properties-ok d d' object (w ∷ rest) same (keep, keeps) valid =
    let (here, later) =
      first_error-none (validate_one d object w) (validate_properties d object rest) valid in
    let (fine, alike) = write_one d d' object w same keep here in
    rw (write_properties, fine)
      (write_properties-ok d (write_property d' object w.id w.values w.priority).0 object rest alike
        keeps later)

write_all-ok :
    (d d' : Device) (request : List WriteAccessSpecification)
    → Alike d' d
    → KeepsService request
    → validate_all d request ≡ none
    → (write_all d' request).1 ≡ none
unfolding write_all validate_all
write_all-ok d d' [] same keeps valid = refl
write_all-ok d d' (s ∷ rest) same (keep, keeps) valid =
    let (here, later) =
      first_error-none (validate_properties d s.object s.properties) (validate_all d rest) valid in
    let (fine, alike) = write_properties-ok d d' s.object s.properties same keep here in
    rw (write_all, fine)
      (write_all-ok d (write_properties d' s.object s.properties).0 rest alike keeps later)

-- A request that does not name Out_Of_Service is atomic: either the response is an error and the device
-- is as it was, or every write was made and the response is an acknowledgement.
pub handle_write_property_multiple-atomic :
    (d : Device) (request : List WriteAccessSpecification)
    → KeepsService request
    → ((e : WriteError) × (handle_write_property_multiple d request ≡ (d, failure e)))
      ⊎ ((handle_write_property_multiple d request
            ≡ ((write_all d request).0, simple_ack (changed [] request)))
          × ((write_all d request).1 ≡ none))
unfolding handle_write_property_multiple
handle_write_property_multiple-atomic d request keeps =
    elim (Option-cases (validate_all d request)) [
      | inl valid ↦
          let fine = write_all-ok d d request refl keeps valid in inr (rw (valid, fine) refl, fine)
      | inr (e, failed) ↦ inl (e, rw failed refl)
    ]

unfoldable pub named : ObjectRef → List WriteAccessSpecification → Bool
named object [] = false
named object (s ∷ rest) = same_ref s.object object || named object rest

-- The objects to notify of are those that the request names, less the ones that were listed before.
pub seen-changed :
    (object : ObjectRef) (before : List ObjectRef) (request : List WriteAccessSpecification)
    → seen object (changed before request) ≡ (not (seen object before) && named object request)
unfolding seen changed named
seen-changed object before [] = ground arith
seen-changed object before (s ∷ rest) = ground (
  arith,
  same_ref_iff s.object object,
  seen-changed object before rest,
  seen-changed object (s.object ∷ before) rest,
)
