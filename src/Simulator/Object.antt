-- ===== src/Simulator/Object.antt =====
-- The objects of simulator/model.go and the properties that are computed from their state. Each property
-- belongs to one object, so the pointers of the map are values here.
use gobac.Prelude.{ℕ, List, [], ◌∷◌, map, Bool, true, false, ◌==◌}
use gobac.Prelude.{if◌then◌else◌, Option, none, some}
use gobac.Prelude.Maps.{number_key, lookup}
use gobac.Types.Bytes.{Bytes}
use gobac.Types.GoValue.{GoValue, bool, uint32, bit_string, ObjectRef, object_ref_key}
use gobac.Simulator.Property.{Value, Property, slot_value}

-- property_id.go
abbrev pub event_state : ℕ
event_state = 36

abbrev pub local_date : ℕ
local_date = 56

abbrev pub local_time : ℕ
local_time = 57

abbrev pub out_of_service : ℕ
out_of_service = 81

abbrev pub present_value : ℕ
present_value = 85

abbrev pub priority_array : ℕ
priority_array = 87

abbrev pub reliability : ℕ
reliability = 103

abbrev pub relinquish_default : ℕ
relinquish_default = 104

abbrev pub status_flags : ℕ
status_flags = 111

abbrev pub device_type : ℕ
device_type = 8

pub record Object : Type 0 where
  pub id : ObjectRef
  pub name : Bytes
  pub properties : List (ℕ × Property)
  pub out_of_service_flag : Bool

-- A property literal with the fields that Go leaves at zero.
abbrev literal : ℕ → List Value → Property
literal id values = record {
  id = id;
  values = values;
  writable = false;
  array = false;
  cov_increment = 0;
  relinquish_default = none;
  minimum_unsigned = 0;
  maximum_unsigned = 0;
  scalar = false;
  expected_tag = 0;
  priorities =
      none ∷ none ∷ none ∷ none ∷ none ∷ none ∷ none ∷ none ∷ none ∷ none ∷ none ∷ none ∷ none
      ∷ none ∷ none ∷ none ∷ [];
}

abbrev one : ℕ → GoValue → List Value
one tag v = record { tag = tag; value = v } ∷ []

-- `scalarProperty` of simulator/scenario.go
unfoldable pub scalar_property : ℕ → ℕ → GoValue → Bool → Property
scalar_property id tag v writable = record (literal id (one tag v)) {
  writable = writable;
  scalar = true;
  expected_tag = tag;
}

-- `priorityArrayProperty`, with `PriorityArray`
unfoldable pub priority_array_property : Property → Property
priority_array_property p = record (literal priority_array (map slot_value p.priorities)) {
  array = true;
}

unfoldable pub relinquish_default_property : Value → Property
relinquish_default_property default = literal relinquish_default (default ∷ [])

-- `statusFlagsBitString`: bit 3 of one octet.
unfoldable pub status_flags_bit_string : Bool → Bytes
status_flags_bit_string flag = (if flag then 8 else 0) ∷ []

unfoldable pub status_flags_property : Object → Property
unfolding status_flags_bit_string
status_flags_property object =
    literal status_flags (one 8 (bit_string (status_flags_bit_string object.out_of_service_flag)))

unfoldable pub event_state_property : Property
event_state_property = literal event_state (one 9 (uint32 0))

unfoldable pub reliability_property : Property
reliability_property = literal reliability (one 9 (uint32 0))

unfoldable pub out_of_service_property : Object → Property
out_of_service_property object =
    record (literal out_of_service (one 1 (bool object.out_of_service_flag))) {
      writable = true;
      scalar = true;
      expected_tag = 1;
    }

-- The first switch of `synthesizedProperty` returns a property, returns nil, or is left.
pub data Switch : Type 0 where
  found : Property → Switch
  absent : Switch
  left : Switch

-- Of a Present_Value with this default.
unfoldable pub command_switch : Property → Option Value → ℕ → Switch
unfolding priority_array_property relinquish_default_property
command_switch pv default id =
    if id == priority_array
    then elim default [ some d ↦ found (priority_array_property pv) | none ↦ absent ]
    else if id == relinquish_default
    then elim default [ some d ↦ found (relinquish_default_property d) | none ↦ absent ]
    else left

abbrev pub first_switch : Option Property → ℕ → Switch
first_switch none id = left
first_switch (some pv) id = command_switch pv pv.relinquish_default id

-- What stands behind the first switch.
unfoldable pub health_property : Object → ℕ → Option Property
unfolding status_flags_property event_state_property reliability_property out_of_service_property
health_property object id =
    if object.id.type == device_type
    then none
    else if id == status_flags
    then some (status_flags_property object)
    else if id == event_state
    then some event_state_property
    else if id == reliability
    then some reliability_property
    else if id == out_of_service
    then some (out_of_service_property object)
    else none

abbrev pub switch_result : Switch → Object → ℕ → Option Property
switch_result (found p) object id = some p
switch_result absent object id = none
switch_result left object id = health_property object id

-- `synthesizedProperty`
unfoldable pub synthesized_property : Object → ℕ → Option Property
unfolding command_switch health_property
synthesized_property object id =
    switch_result (first_switch (lookup present_value object.properties) id) object id
