-- ===== src/Types/ObjectId.antt =====
-- bacnet/types/object_id.go: an object identifier is a type of 10 bits and an instance of 22 bits in
-- one word of 32 bits.
pub mod RoundTrip
use gobac.Prelude.{ℕ, ◌+◌, ◌*◌, ◌/◌, ◌%◌, ◌^◌, bit_and, bit_or, List, [], ◌∷◌}
use gobac.Prelude.{not, ◌&&◌, ltb, ◌==◌, if◌then◌else◌}
use gobac.Result.{Result, ok, err, empty_input, wrong_size, out_of_range, ◌>>=◌}
use gobac.Types.Bytes.{Bytes}
use gobac.Types.Unsigned.{marshal_uint32, unmarshal_uint32}

abbrev pub max_instance : ℕ
max_instance = 0x3f_ffff

abbrev max_object : ℕ
max_object = 0x3ff

-- `Type` and `Instance` are `uint16`, `extendedInstance` is `uint32`.
pub record ObjectId : Type 0 where
  pub type : ℕ
  pub instance_low : ℕ
  pub extended_instance : ℕ

-- `InstanceNumber`
unfoldable pub instance_number : ObjectId → ℕ
instance_number o =
    if not (o.extended_instance == 0) && o.extended_instance % 2 ^ 16 == o.instance_low
    then o.extended_instance
    else o.instance_low

-- `SetInstanceNumber`
unfoldable pub set_instance_number : ObjectId → ℕ → Result ObjectId
set_instance_number o instance_value =
    if ltb max_instance instance_value
    then err out_of_range
    else ok (record o {
      instance_low = instance_value % 2 ^ 16;
      extended_instance = if ltb 0xffff instance_value then instance_value else 0;
    })

-- The word of an identifier.
unfoldable pub object_word : ObjectId → ℕ
object_word o =
    bit_or (bit_and o.type max_object * 2 ^ 22 % 2 ^ 32) (bit_and (instance_number o) max_instance)

unfoldable pub marshal : ObjectId → Bytes
marshal o = marshal_uint32 (object_word o)

-- The identifier of a word; its instance is set over whatever `o` holds.
unfoldable pub object_of_word : ObjectId → ℕ → Result ObjectId
object_of_word o v =
    set_instance_number (record o { type = bit_and (v / 2 ^ 22) max_object })
      (bit_and v max_instance)

-- An empty slice is refused like a nil one.
unfoldable pub unmarshal : ObjectId → Bytes → Result ObjectId
unmarshal o [] = err empty_input
unmarshal o (b0 ∷ rest) = do v ← unmarshal_uint32 (b0 ∷ rest); object_of_word o v

-- `ObjectId{}`
abbrev pub zero_object : ObjectId
zero_object = record { type = 0; instance_low = 0; extended_instance = 0 }
