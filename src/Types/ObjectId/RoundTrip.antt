-- ===== src/Types/ObjectId/RoundTrip.antt =====
-- The methods of bacnet/types/object_id.go, one after the other.
use gobac.Prelude.{ℕ, ◌+◌, ◌*◌, ◌/◌, ◌%◌, ◌^◌, ◌<◌, ◌≡◌, arith}
use gobac.Prelude.{[], ◌∷◌, ltb, if◌then◌else◌}
use gobac.Prelude.Bits.{bit_or-shifted, bit_and-ones}
use gobac.Result.{ok}
use gobac.Types.Bytes.{IsBytes}
use gobac.Types.Unsigned.{marshal_uint32}
use gobac.Types.Unsigned.RoundTrip.{unmarshal32-sum, marshal-unmarshal_uint32}
use gobac.Types.ObjectId.{ObjectId, instance_number, set_instance_number}
use gobac.Types.ObjectId.{object_word, object_of_word, marshal, unmarshal}

-- The fields of an identifier in use: the type has 10 bits, and the extended instance is there
-- exactly when the instance does not fit 16 bits.
pub record IsObjectId (o : ObjectId) : Type 0 where
  pub type_small : o.type < 2 ^ 10
  pub instance_small : instance_number o < 2 ^ 22
  pub low : o.instance_low ≡ instance_number o % 2 ^ 16
  pub canonical :
      o.extended_instance ≡ (if ltb 0xffff (instance_number o) then instance_number o else 0)

-- When `SetInstanceNumber` accepts an instance, it has 22 bits; `InstanceNumber` then returns the full
-- number, and the type is kept.
pub set_instance_number-instance_number :
    (o o' : ObjectId) (n : ℕ)
    → set_instance_number o n ≡ ok o'
    → (n < 2 ^ 22) × (instance_number o' ≡ n) × (o'.type ≡ o.type)
unfolding set_instance_number instance_number
set_instance_number-instance_number o o' n h = ground arith

-- The word as a sum of its two fields.
pub object_word-sum :
    (o : ObjectId)
    → o.type < 2 ^ 10
    → instance_number o < 2 ^ 22
    → object_word o ≡ o.type * 2 ^ 22 + instance_number o
unfolding object_word
object_word-sum o t n = ground (
  arith,
  bit_and-ones 10 o.type,
  bit_and-ones 22 (instance_number o),
  bit_or-shifted 22 o.type (instance_number o),
)

-- What any word of 32 bits decodes to is an identifier in use.
pub object_of_word-IsObjectId :
    (o o' : ObjectId) (v : ℕ)
    → v < 2 ^ 32
    → object_of_word o v ≡ ok o'
    → IsObjectId o' × (o'.type * 2 ^ 22 + instance_number o' ≡ v)
unfolding object_of_word set_instance_number instance_number
object_of_word-IsObjectId o o' v h e =
    ground (arith, bit_and-ones 10 (v / 2 ^ 22), bit_and-ones 22 v)

-- The identifier of a word.
fields : ℕ → ObjectId
fields v = record {
  type = v / 2 ^ 22;
  instance_low = v % 2 ^ 22 % 2 ^ 16;
  extended_instance = if ltb 0xffff (v % 2 ^ 22) then v % 2 ^ 22 else 0;
}

object_of_word-fields : (o : ObjectId) (v : ℕ) → v < 2 ^ 32 → object_of_word o v ≡ ok (fields v)
unfolding object_of_word set_instance_number fields
object_of_word-fields o v h = ground (arith, bit_and-ones 10 (v / 2 ^ 22), bit_and-ones 22 v)

-- The word of an identifier in use decodes to that identifier.
pub object_of_word-object_word :
    (o o' : ObjectId) → IsObjectId o' → object_of_word o (object_word o') ≡ ok o'
unfolding object_of_word set_instance_number
object_of_word-object_word o o' h =
    let n : ℕ = instance_number o' in
    let v : ℕ = o'.type * 2 ^ 22 + n in
    rw (object_word-sum o' h.type_small h.instance_small)
      (ground (arith, bit_and-ones 10 (v / 2 ^ 22), bit_and-ones 22 v))

-- `UnmarshalBinary` gives back every identifier in use that `MarshalBinary` wrote, whatever the
-- receiver held before.
pub unmarshal-marshal_object : (o o' : ObjectId) → IsObjectId o' → unmarshal o (marshal o') ≡ ok o'
unfolding unmarshal marshal marshal_uint32
unmarshal-marshal_object o o' h =
    let w : ℕ = object_word o' in
    ground (
      arith,
      unmarshal32-sum (w / 2 ^ 24 % 256) (w / 2 ^ 16 % 256) (w / 2 ^ 8 % 256) (w % 256),
      object_word-sum o' h.type_small h.instance_small,
      object_of_word-object_word o o' h,
    )

-- Any four octets decode to an identifier in use, and that identifier is written as these octets.
pub marshal-unmarshal_object :
    (o : ObjectId) (b0 b1 b2 b3 : ℕ)
    → IsBytes (b0 ∷ b1 ∷ b2 ∷ b3 ∷ [])
    → (o' : ObjectId) × (unmarshal o (b0 ∷ b1 ∷ b2 ∷ b3 ∷ []) ≡ ok o')
      × IsObjectId o'
      × (marshal o' ≡ b0 ∷ b1 ∷ b2 ∷ b3 ∷ [])
unfolding unmarshal marshal
marshal-unmarshal_object o b0 b1 b2 b3 h =
    let v : ℕ = b0 * 2 ^ 24 + b1 * 2 ^ 16 + b2 * 2 ^ 8 + b3 in
    let read = object_of_word-fields o v (omega arith) in
    let (fit, word) = object_of_word-IsObjectId o (fields v) v (omega arith) read in
    (
      fields v,
      rw (unmarshal32-sum b0 b1 b2 b3 (omega arith) (omega arith) (omega arith)) read,
      fit,
      rw (object_word-sum (fields v) fit.type_small fit.instance_small, word)
          (marshal-unmarshal_uint32 b0 b1 b2 b3 h),
    )
