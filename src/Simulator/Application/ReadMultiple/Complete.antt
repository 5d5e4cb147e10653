-- ===== src/Simulator/Application/ReadMultiple/Complete.antt =====
-- The identifiers of expandPropertyReferences of simulator/application.go, and what an object has.
use gobac.Prelude.{ℕ, List, [], ◌∷◌, ◌++◌, ◌≡◌, arith}
use gobac.Prelude.{Member, at_head, in_tail, Member-left, Member-right}
use gobac.Prelude.{Bool-cases, ◌⊎◌, inl, inr, ◌==◌, if◌then◌else◌, Option, Option-cases, none, some}
use gobac.Prelude.Maps.{number_key, lookup}
use gobac.Simulator.Property.{Value, Property}
use gobac.Simulator.Object.{
  Object, present_value, device_type, synthesized_property, command_switch, health_property,
  first_switch, status_flags, event_state, reliability, out_of_service, status_flags_property,
  event_state_property, reliability_property, out_of_service_property, priority_array,
  relinquish_default, switch_result,
}
use gobac.Simulator.Application.ReadMultiple.{
  keys, health_ids, command_ids_of, command_ids, all_ids,
}
use gobac.Simulator.Application.ReadMultiple.Readable.{Present}

Member-keys :
    (id : ℕ) (p : Property) (m : List (ℕ × Property)) → lookup id m ≡ some p → Member id (keys m)
unfolding keys lookup
Member-keys id p [] e = absurd (cc e)
Member-keys id p ((k, q) ∷ m) e = elim (Bool-cases (k == id)) [
  | inl same ↦ at_head (ground arith)
  | inr other ↦ in_tail (Member-keys id p m (rw other at e))
]

-- A computed property is among the identifiers that are added.
health-Member :
    (o : Object) (id : ℕ) (p : Property) → health_property o id ≡ some p → Member id (health_ids o)
unfolding health_property
health-Member o id p e = elim (Bool-cases (o.id.type == device_type)) [
  | inl device ↦ absurd (cc (rw device at e))
  | inr other ↦ rw other (listed (which (rw other at e)))
]
  where
    which :
        (if id == status_flags
            then some (status_flags_property o)
            else if id == event_state
            then some event_state_property
            else if id == reliability
            then some reliability_property
            else if id == out_of_service
            then some (out_of_service_property o)
            else none)
          ≡ some p
        → (id ≡ status_flags) ⊎ ((id ≡ event_state) ⊎ ((id ≡ reliability) ⊎ (id ≡ out_of_service)))
    which h = ground arith

    listed :
        (id ≡ status_flags) ⊎ ((id ≡ event_state) ⊎ ((id ≡ reliability) ⊎ (id ≡ out_of_service)))
        → Member id (status_flags ∷ event_state ∷ reliability ∷ out_of_service ∷ [])
    listed (inl h) = at_head h
    listed (inr (inl h)) = in_tail (at_head h)
    listed (inr (inr (inl h))) = in_tail (in_tail (at_head h))
    listed (inr (inr (inr h))) = in_tail (in_tail (in_tail (at_head h)))

computed-Member :
    (o : Object) (id : ℕ) (p : Property)
    → synthesized_property o id ≡ some p
    → Member id (health_ids o ++ command_ids (lookup present_value o.properties))
unfolding synthesized_property command_switch
computed-Member o id p = under (lookup present_value o.properties)
  where
    of_default :
        (pv : Property) (default : Option Value)
        → switch_result (command_switch pv default id) o id ≡ some p
        → Member id (health_ids o ++ command_ids_of default)
    of_default pv none h = elim (Bool-cases (id == priority_array)) [
      | inl array ↦ absurd (cc (rw array at h))
      | inr other ↦ elim (Bool-cases (id == relinquish_default)) [
        | inl value ↦ absurd (cc (rw (other, value) at h))
        | inr neither ↦
            Member-left id (health_ids o) [] (health-Member o id p (rw (other, neither) at h))
      ]
    ]
    of_default pv (some v) h = elim (Bool-cases (id == priority_array)) [
      | inl array ↦
          Member-right id (health_ids o) (priority_array ∷ relinquish_default ∷ [])
            (at_head (ground arith))
      | inr other ↦ elim (Bool-cases (id == relinquish_default)) [
        | inl value ↦
            Member-right id (health_ids o) (priority_array ∷ relinquish_default ∷ [])
              (in_tail (at_head (ground arith)))
        | inr neither ↦
            Member-left id (health_ids o) (priority_array ∷ relinquish_default ∷ [])
              (health-Member o id p (rw (other, neither) at h))
      ]
    ]

    under :
        (pv : Option Property)
        → switch_result (first_switch pv id) o id ≡ some p
        → Member id (health_ids o ++ command_ids pv)
    under none h = Member-left id (health_ids o) [] (health-Member o id p h)
    under (some pv) h = of_default pv pv.relinquish_default h

pub all_ids-Member : (o : Object) (id : ℕ) → Present o id → Member id (all_ids o)
unfolding all_ids
all_ids-Member o id (values, e) = elim (Option-cases (lookup id o.properties)) [
  | inr (p, has_p) ↦ Member-left id (keys o.properties) _ (Member-keys id p o.properties has_p)
  | inl lacks ↦ elim (Option-cases (synthesized_property o id)) [
    | inr (p, makes) ↦ Member-right id (keys o.properties) _ (computed-Member o id p makes)
    | inl none_made ↦ absurd (cc (rw (lacks, none_made) at e))
  ]
]
