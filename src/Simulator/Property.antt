-- ===== src/Simulator/Property.antt =====
-- The properties of simulator/model.go: plain values, or a command with 16 priorities over a default.
-- `cloneValues` copies values, which are values here.
pub mod Priorities
pub mod Writes
use gobac.Prelude.{ℕ, zero, suc, ◌+◌, ◌-◌, ◌%◌, ◌^◌, List, [], ◌∷◌, length, set, get_elem?}
use gobac.Prelude.{Bool, true, false, not, ◌&&◌, ◌||◌, ltb, ◌==◌, if◌then◌else◌, Option, none, some}
use gobac.Types.GoValue.{GoValue, nil, uint32}
use gobac.Simulator.Errors.{Outcome, ok, err, ◌>>=◌, write_denied, value_required, invalid_priority}
use gobac.Simulator.Errors.{reserved_priority, value_out_of_range, invalid_data_type}
use gobac.Simulator.Errors.{property_not_array, invalid_array_index, index_panic}

pub record Value : Type 0 where
  pub tag : ℕ
  pub value : GoValue

abbrev pub priority_slots : ℕ
priority_slots = 16

-- `priorities` is an array of 16 slots, the first one the highest. `COVIncrement` is a float.
pub record Property : Type 0 where
  pub id : ℕ
  pub values : List Value
  pub writable : Bool
  pub array : Bool
  pub cov_increment : ℕ
  pub relinquish_default : Option Value
  pub minimum_unsigned : ℕ
  pub maximum_unsigned : ℕ
  pub scalar : Bool
  pub expected_tag : ℕ
  pub priorities : List (Option Value)

abbrev is_nil : GoValue → Bool
is_nil nil = true
is_nil _ = false

-- `values[0].Tag == 0 || values[0].Value == nil`
abbrev pub is_null : Value → Bool
is_null v = v.tag == 0 || is_nil v.value

abbrev pub has_default : Option Value → Bool
has_default none = false
has_default (some v) = true

-- `p.RelinquishDefault != nil`
abbrev pub is_commandable : Property → Bool
is_commandable p = has_default p.relinquish_default

-- The loop over the slots.
unfoldable pub first_set : List (Option Value) → Value → Value
first_set [] default = default
first_set (none ∷ slots) default = first_set slots default
first_set (some v ∷ slots) default = v

unfoldable pub values_under : Option Value → Property → List Value
values_under none p = p.values
values_under (some default) p = first_set p.priorities default ∷ []

unfoldable pub effective_values : Property → List Value
unfolding values_under
effective_values p = values_under p.relinquish_default p

abbrev element_or_panic : Option Value → Outcome (List Value)
element_or_panic none = err index_panic
element_or_panic (some v) = ok (v ∷ [])

-- `Read`; an index is a `uint32`.
unfoldable pub read : Property → Option ℕ → Outcome (List Value)
read p none = ok (effective_values p)
read p (some index) =
    let values = effective_values p in
    if not p.array
    then err property_not_array
    else if index == 0
    then ok (record { tag = 2; value = uint32 (length values % 2 ^ 32) } ∷ [])
    else if index == 0xffff_ffff
    then ok values
    else if ltb (length values % 2 ^ 32) index
    then err invalid_array_index
    else element_or_panic (get_elem? values (index - 1))

abbrev in_range : Property → GoValue → Bool
in_range p (uint32 n) = not (ltb n p.minimum_unsigned || ltb p.maximum_unsigned n)
in_range p _ = false

-- The end of `validateValues`.
unfoldable pub validate_range : Property → Value → Outcome (Unit {0})
validate_range p v =
    if p.maximum_unsigned == 0 || is_null v
    then ok tt
    else if in_range p v.value
    then ok tt
    else err value_out_of_range

unfoldable pub validate_values : Property → List Value → Outcome (Unit {0})
unfolding validate_range
validate_values p [] = if p.scalar then err invalid_data_type else ok tt
validate_values p (v ∷ rest) =
    if not p.scalar
    then validate_range p v
    else if not (length rest == 0)
    then err invalid_data_type
    else if is_null v
    then (if is_commandable p then ok tt else err invalid_data_type)
    else if not (v.tag == p.expected_tag)
    then err invalid_data_type
    else validate_range p v

-- The priority that a write goes to; a priority is a `uint8`.
unfoldable pub resolve_priority : Property → ℕ → Outcome ℕ
resolve_priority p priority =
    if is_commandable p
    then (let resolved : ℕ = if priority == 0 then priority_slots else priority in
        if ltb resolved 1 || ltb priority_slots resolved
        then err invalid_priority
        else if resolved == 6
        then err reserved_priority
        else ok resolved)
    else if not (priority == 0)
    then err invalid_priority
    else ok 0

-- `validateWriteAllowingReadOnly`
unfoldable pub validate_write_allowing_read_only : Property → List Value → ℕ → Bool → Outcome ℕ
validate_write_allowing_read_only p values priority writable =
    if not writable
    then err write_denied
    else if length values == 0
    then err value_required
    else (do _ ← validate_values p values; resolve_priority p priority)

unfoldable pub validate_write : Property → List Value → ℕ → Outcome ℕ
validate_write p values priority = validate_write_allowing_read_only p values priority p.writable

-- `validateWriteBypassingWritable`
unfoldable pub validate_write_bypassing_writable : Property → List Value → ℕ → Outcome ℕ
unfolding validate_write_allowing_read_only
validate_write_bypassing_writable p values priority =
    validate_write_allowing_read_only p values priority true

-- `apply` for values that were validated, so that there is a first one.
unfoldable pub apply : Property → List Value → ℕ → Property
apply p [] priority = if is_commandable p then p else record p { values = [] }
apply p (v ∷ rest) priority =
    if is_commandable p
    then record p {
      priorities = set p.priorities (priority - 1) (if is_null v then none else some v);
    }
    else record p { values = v ∷ rest }

-- The two steps of `Write` and `writeBypassingWritable`: what validation gave, applied.
unfoldable pub apply_validated : Property → List Value → Outcome ℕ → Property × Outcome (Unit {0})
apply_validated p values (ok priority) = (apply p values priority, ok tt)
apply_validated p values (err e) = (p, err e)

unfoldable pub write : Property → List Value → ℕ → Property × Outcome (Unit {0})
unfolding apply_validated
write p values priority = apply_validated p values (validate_write p values priority)

unfoldable pub write_bypassing_writable : Property → List Value → ℕ → Property × Outcome (Unit {0})
unfolding apply_validated
write_bypassing_writable p values priority =
    apply_validated p values (validate_write_bypassing_writable p values priority)

-- `PriorityArray` behind `priorityArrayProperty`: an unset slot reads NULL.
abbrev pub slot_value : Option Value → Value
slot_value none = record { tag = 0; value = nil }
slot_value (some v) = v
