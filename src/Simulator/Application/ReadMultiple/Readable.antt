-- ===== src/Simulator/Application/ReadMultiple/Readable.antt =====
-- The properties that an object stores or computes, and the identifiers of expandPropertyReferences of
-- simulator/application.go.
use gobac.Prelude.{ℕ, List, [], ◌∷◌, ◌≡◌, refl, ◌∙◌, true, false, All}
use gobac.Prelude.{All-append, Bool-cases, ◌⊎◌, inl, inr, ◌==◌, Option, Option-cases, none, some}
use gobac.Prelude.Maps.{number_key, lookup, same_refl}
use gobac.Simulator.Errors
use gobac.Simulator.Property.{Value, Property, read, effective_values}
use gobac.Simulator.Object.{
  Object, present_value, device_type, synthesized_property, command_switch, health_property,
  first_switch, status_flags, event_state, reliability, out_of_service, status_flags_property,
  event_state_property, reliability_property, out_of_service_property, priority_array,
  relinquish_default, switch_result, priority_array_property, relinquish_default_property,
}
use gobac.Simulator.Device.{read_object}
use gobac.Simulator.Application.ReadMultiple.{
  keys, health_ids, command_ids_of, command_ids, all_ids,
}

-- A property that the object stores or computes.
abbrev pub Present : Object → ℕ → Type 0
Present o id = (values : List Value) × (read_object o id none ≡ Errors.ok values)

stored : (o : Object) (id : ℕ) (p : Property) → lookup id o.properties ≡ some p → Present o id
unfolding read
stored o id p h = (effective_values p, rw h refl)

computed : (o : Object) (id : ℕ) (p : Property) → synthesized_property o id ≡ some p → Present o id
unfolding read
computed o id p h = elim (Option-cases (lookup id o.properties)) [
  | inl e ↦ (effective_values p, rw (e, h) refl)
  | inr (q, e) ↦ stored o id q e
]

-- Properties that are computed behind the first switch.
synthesized-health :
    (o : Object) (id : ℕ)
    → (id == priority_array) ≡ false
    → (id == relinquish_default) ≡ false
    → synthesized_property o id ≡ health_property o id
unfolding synthesized_property
synthesized-health o id array default = under (lookup present_value o.properties)
  where
    under : (pv : Option Property) → switch_result (first_switch pv id) o id ≡ health_property o id
    under none = refl
    under (some pv) = unfold command_switch in rw (array, default) refl

health-Present : (o : Object) → All (Present o) (health_ids o)
unfolding health_property
health-Present o = elim (Bool-cases (o.id.type == device_type)) [
  | inl e ↦ rw e tt
  | inr e ↦ rw e (
    behind status_flags (status_flags_property o) refl refl (rw e refl),
    (
      behind event_state event_state_property refl refl (rw e refl),
      (
        behind reliability reliability_property refl refl (rw e refl),
        (behind out_of_service (out_of_service_property o) refl refl (rw e refl), tt),
      ),
    ),
  )
]
  where
    behind :
        (id : ℕ) (p : Property)
        → (id == priority_array) ≡ false
        → (id == relinquish_default) ≡ false
        → health_property o id ≡ some p
        → Present o id
    behind id p array default e = computed o id p (synthesized-health o id array default ∙ e)

command-Present : (o : Object) → All (Present o) (command_ids (lookup present_value o.properties))
unfolding synthesized_property command_switch
command-Present o = under (lookup present_value o.properties) refl
  where
    of_default :
        (pv : Property) (default : Option Value)
        → lookup present_value o.properties ≡ some pv
        → pv.relinquish_default ≡ default
        → All (Present o) (command_ids_of default)
    of_default pv none e e' = tt
    of_default pv (some v) e e' = (
      computed o priority_array (priority_array_property pv) (rw (e, e') refl),
      (computed o relinquish_default (relinquish_default_property v) (rw (e, e') refl), tt),
    )

    under :
        (pv : Option Property)
        → lookup present_value o.properties ≡ pv
        → All (Present o) (command_ids pv)
    under none e = tt
    under (some pv) e = of_default pv pv.relinquish_default e refl

abbrev Found : List (ℕ × Property) → ℕ → Type 0
Found m id = (p : Property) × (lookup id m ≡ some p)

Found-behind :
    (k : ℕ) (q : Property) (m : List (ℕ × Property)) (ids : List ℕ)
    → All (Found m) ids
    → All (Found ((k, q) ∷ m)) ids
unfolding lookup
Found-behind k q m [] h = tt
Found-behind k q m (id ∷ ids) ((p, e), h) = (one (Bool-cases (k == id)), Found-behind k q m ids h)
  where
    one : ((k == id) ≡ true) ⊎ ((k == id) ≡ false) → Found ((k, q) ∷ m) id
    one (inl same) = (q, rw same refl)
    one (inr other) = (p, rw other e)

keys-Found : (m : List (ℕ × Property)) → All (Found m) (keys m)
unfolding keys lookup
keys-Found [] = tt
keys-Found ((k, q) ∷ m) = ((q, rw (same_refl k) refl), Found-behind k q m (keys m) (keys-Found m))

keys-Present : (o : Object) (ids : List ℕ) → All (Found o.properties) ids → All (Present o) ids
keys-Present o [] h = tt
keys-Present o (id ∷ ids) ((p, e), h) = (stored o id p e, keys-Present o ids h)

pub all_ids-Present : (o : Object) → All (Present o) (all_ids o)
unfolding all_ids
all_ids-Present o =
    All-append (Present o) (keys o.properties) _ (keys-Present o _ (keys-Found o.properties))
      (All-append (Present o) (health_ids o) _ (health-Present o) (command-Present o))
