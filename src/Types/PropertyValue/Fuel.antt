-- ===== src/Types/PropertyValue/Fuel.antt =====
-- The errors of bacnet/types/property_value.go.
use gobac.Prelude.{ℕ, [], ◌∷◌}
use gobac.Prelude.Int.{ℤ, pos, negsuc}
use gobac.Result.Halts.{Halts, halting}
use gobac.Types.Bytes.{Bytes}
use gobac.Types.ObjectId
use gobac.Types.Unsigned.{unmarshal_uint32}
use gobac.Types.Scalars.{
  unmarshal_character_string, unmarshal_bit_string, unmarshal_date, unmarshal_time, unmarshal_real,
  unmarshal_double,
}
use gobac.Types.PropertyValue.{cut, value_of, unmarshal_behind, unmarshal}

cut-Halts : (n : ℤ) (r : ℕ) (bs : Bytes) → Halts (cut n r bs)
unfolding cut
cut-Halts (pos n) r bs = search halting
cut-Halts (negsuc n) r bs = search halting

pub object-Halts : (bs : Bytes) → Halts (ObjectId.unmarshal ObjectId.zero_object bs)
unfolding ObjectId.unmarshal ObjectId.object_of_word ObjectId.set_instance_number unmarshal_uint32
object-Halts [] = search halting
object-Halts (b0 ∷ []) = search halting
object-Halts (b0 ∷ b1 ∷ []) = search halting
object-Halts (b0 ∷ b1 ∷ b2 ∷ []) = search halting
object-Halts (b0 ∷ b1 ∷ b2 ∷ b3 ∷ []) = search halting
object-Halts (b0 ∷ b1 ∷ b2 ∷ b3 ∷ b4 ∷ bs) = search halting

text-Halts : (bs : Bytes) → Halts (unmarshal_character_string bs)
unfolding unmarshal_character_string
text-Halts [] = search halting
text-Halts (b0 ∷ bs) = search halting

bits-Halts : (bs : Bytes) → Halts (unmarshal_bit_string bs)
unfolding unmarshal_bit_string
bits-Halts [] = search halting
bits-Halts (b0 ∷ bs) = search halting

date-Halts : (bs : Bytes) → Halts (unmarshal_date bs)
unfolding unmarshal_date
date-Halts [] = search halting
date-Halts (b0 ∷ []) = search halting
date-Halts (b0 ∷ b1 ∷ []) = search halting
date-Halts (b0 ∷ b1 ∷ b2 ∷ []) = search halting
date-Halts (b0 ∷ b1 ∷ b2 ∷ b3 ∷ []) = search halting
date-Halts (b0 ∷ b1 ∷ b2 ∷ b3 ∷ b4 ∷ bs) = search halting

time-Halts : (bs : Bytes) → Halts (unmarshal_time bs)
unfolding unmarshal_time
time-Halts [] = search halting
time-Halts (b0 ∷ []) = search halting
time-Halts (b0 ∷ b1 ∷ []) = search halting
time-Halts (b0 ∷ b1 ∷ b2 ∷ []) = search halting
time-Halts (b0 ∷ b1 ∷ b2 ∷ b3 ∷ []) = search halting
time-Halts (b0 ∷ b1 ∷ b2 ∷ b3 ∷ b4 ∷ bs) = search halting

real-Halts : (bs : Bytes) → Halts (unmarshal_real bs)
unfolding unmarshal_real unmarshal_uint32
real-Halts [] = search halting
real-Halts (b0 ∷ []) = search halting
real-Halts (b0 ∷ b1 ∷ []) = search halting
real-Halts (b0 ∷ b1 ∷ b2 ∷ []) = search halting
real-Halts (b0 ∷ b1 ∷ b2 ∷ b3 ∷ []) = search halting
real-Halts (b0 ∷ b1 ∷ b2 ∷ b3 ∷ b4 ∷ bs) = search halting

double-Halts : (bs : Bytes) → Halts (unmarshal_double bs)
unfolding unmarshal_double
double-Halts [] = search halting
double-Halts (b0 ∷ []) = search halting
double-Halts (b0 ∷ b1 ∷ []) = search halting
double-Halts (b0 ∷ b1 ∷ b2 ∷ []) = search halting
double-Halts (b0 ∷ b1 ∷ b2 ∷ b3 ∷ []) = search halting
double-Halts (b0 ∷ b1 ∷ b2 ∷ b3 ∷ b4 ∷ []) = search halting
double-Halts (b0 ∷ b1 ∷ b2 ∷ b3 ∷ b4 ∷ b5 ∷ []) = search halting
double-Halts (b0 ∷ b1 ∷ b2 ∷ b3 ∷ b4 ∷ b5 ∷ b6 ∷ []) = search halting
double-Halts (b0 ∷ b1 ∷ b2 ∷ b3 ∷ b4 ∷ b5 ∷ b6 ∷ b7 ∷ []) = search halting
double-Halts (b0 ∷ b1 ∷ b2 ∷ b3 ∷ b4 ∷ b5 ∷ b6 ∷ b7 ∷ b8 ∷ bs) = search halting

value_of-Halts : (type : ℕ) (len : ℤ) (payload : Bytes) → Halts (value_of type len payload)
unfolding value_of
value_of-Halts type len payload =
    search
      (
        halting, real-Halts, double-Halts, text-Halts, bits-Halts, date-Halts, time-Halts,
        object-Halts,
      )
      depth 20

-- The decoder has no loop, and runs out of no fuel.
pub unmarshal-Halts : (b : Bytes) → Halts (unmarshal b)
unfolding unmarshal unmarshal_behind
unmarshal-Halts [] = search halting
unmarshal-Halts (b0 ∷ b) = search (halting, cut-Halts, value_of-Halts)
