-- ===== src/Types/GoValue.antt =====
-- The values that the program keeps in a Go `interface{}`: those of `PropertyValue` in
-- bacnet/types/property_value.go and of `Value` in simulator/model.go. A pointer to a date, a time
-- or an object identifier is taken to be not nil, and stands for its target.
use gobac.Prelude.{
  ℕ, ◌/◌, ◌%◌, ◌^◌, ◌<◌, ◌≡◌, Bool, true, false, not, ◌&&◌, ◌==◌, Option, none, some, ◌↔◌, arith,
}
use gobac.Prelude.Maps.{Key}
use gobac.Prelude.Int.{ℤ, pos, to_word, of_word}
use gobac.Types.Bytes.{Bytes}
use gobac.Types.Scalars.{CharacterString, Date, Time}
use gobac.Types.ObjectId.{ObjectId}

-- `ObjectID` of simulator/model.go: a `uint16` and a `uint32`.
pub record ObjectRef : Type 0 where
  pub type : ℕ
  pub instance_value : ℕ

-- `float32` and `types.Real` are 32 bits, `float64` and `types.Double` 64; `bit_string` is
-- `types.BitString`, `octets` is `[]byte`, and `text` is `string`.
pub data GoValue : Type 0 where
  nil : GoValue
  bool : Bool → GoValue
  uint32 : ℕ → GoValue
  int32 : ℤ → GoValue
  float32 real : ℕ → GoValue
  float64 double : ℕ → GoValue
  octets bit_string text : Bytes → GoValue
  character_string : CharacterString → GoValue
  date : Date → GoValue
  time : Time → GoValue
  object_id : ObjectId → GoValue
  object_ref : ObjectRef → GoValue

abbrev pub is_nan32 : ℕ → Bool
is_nan32 b = b / 2 ^ 23 % 256 == 255 && not (b % 2 ^ 23 == 0)

-- Go's conversions between float types and integers, on bit patterns. Widening a number to 64 bits
-- and narrowing it again gives the number back.
pub record Floats : Type 0 where
  pub widen : ℕ → ℕ
  pub narrow : ℕ → ℕ
  pub of_integer : ℤ → ℕ
  pub to_uint32 : ℕ → ℕ
  pub to_int32 : ℕ → ℤ
  pub narrow-widen : (b : ℕ) → b < 2 ^ 32 → is_nan32 b ≡ false → narrow (widen b) ≡ b

-- `reflect`'s conversion to `uint32`, `int32`, `float64` and `float32`, where the type has one.
module _ (f : Floats) where
  unfoldable pub convert_float64 : GoValue → Option ℕ
  convert_float64 (uint32 n) = some (f.of_integer (pos n))
  convert_float64 (int32 i) = some (f.of_integer i)
  convert_float64 (float32 b) = some (f.widen b)
  convert_float64 (real b) = some (f.widen b)
  convert_float64 (float64 b) = some b
  convert_float64 (double b) = some b
  convert_float64 _ = none

  unfoldable pub convert_float32 : GoValue → Option ℕ
  convert_float32 (uint32 n) = some (f.narrow (f.of_integer (pos n)))
  convert_float32 (int32 i) = some (f.narrow (f.of_integer i))
  convert_float32 (float32 b) = some b
  convert_float32 (real b) = some (f.narrow (f.widen b))
  convert_float32 (float64 b) = some (f.narrow b)
  convert_float32 (double b) = some (f.narrow b)
  convert_float32 _ = none

  unfoldable pub convert_uint32 : GoValue → Option ℕ
  convert_uint32 (uint32 n) = some n
  convert_uint32 (int32 i) = some (to_word 32 i)
  convert_uint32 (float32 b) = some (f.to_uint32 (f.widen b))
  convert_uint32 (real b) = some (f.to_uint32 (f.widen b))
  convert_uint32 (float64 b) = some (f.to_uint32 b)
  convert_uint32 (double b) = some (f.to_uint32 b)
  convert_uint32 _ = none

  unfoldable pub convert_int32 : GoValue → Option ℤ
  convert_int32 (uint32 n) = some (of_word 31 n)
  convert_int32 (int32 i) = some i
  convert_int32 (float32 b) = some (f.to_int32 (f.widen b))
  convert_int32 (real b) = some (f.to_int32 (f.widen b))
  convert_int32 (float64 b) = some (f.to_int32 b)
  convert_int32 (double b) = some (f.to_int32 b)
  convert_int32 _ = none

-- Go's `==` on object references.
abbrev pub same_ref : ObjectRef → ObjectRef → Bool
same_ref a b = a.type == b.type && a.instance_value == b.instance_value

pub same_ref_iff : (a b : ObjectRef) → (same_ref a b ≡ true) ↔ (a ≡ b)
same_ref_iff a b = (λ h. ground arith, λ e. ground arith)

instance abbrev pub object_ref_key : Key ObjectRef
object_ref_key = record { same = same_ref; same_iff = same_ref_iff }
