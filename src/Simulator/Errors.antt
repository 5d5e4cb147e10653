-- ===== src/Simulator/Errors.antt =====
-- The sentinel errors of simulator/model.go, and their BACnet codes by `modelErrorClassCode` of
-- simulator/application.go. `value_required` is the one error of model.go without a name, and
-- `index_panic` is Go's panic on an index out of range.
use gobac.Prelude.{ℕ}

pub data ModelError : Type 0 where
  unknown_device unknown_object unknown_property write_denied invalid_priority : ModelError
  reserved_priority value_out_of_range invalid_data_type property_not_array : ModelError
  invalid_array_index value_required index_panic : ModelError

pub data Outcome {ℓ} (A : Type ℓ) : Type ℓ where
  ok : A → Outcome A
  err : ModelError → Outcome A

infixl 5 ◌>>=◌
abbrev pub ◌>>=◌ {ℓ κ} : {A : Type ℓ} {B : Type κ} → Outcome A → (A → Outcome B) → Outcome B
ok a >>= f = f a
err e >>= f = err e

-- error_class.go: object, property and services.
abbrev pub class_object : ℕ
class_object = 1

abbrev pub class_property : ℕ
class_property = 2

abbrev pub class_services : ℕ
class_services = 5

-- The class and the code of error_code.go.
unfoldable pub model_error_class_code : ModelError → ℕ × ℕ
model_error_class_code unknown_object = (class_object, 31)
model_error_class_code unknown_property = (class_property, 32)
model_error_class_code property_not_array = (class_property, 50)
model_error_class_code invalid_array_index = (class_property, 42)
model_error_class_code write_denied = (class_property, 40)
model_error_class_code reserved_priority = (class_property, 40)
model_error_class_code invalid_priority = (class_property, 37)
model_error_class_code value_out_of_range = (class_property, 37)
model_error_class_code invalid_data_type = (class_property, 9)
model_error_class_code _ = (class_services, 29)
