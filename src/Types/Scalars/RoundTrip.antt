-- ===== src/Types/Scalars/RoundTrip.antt =====
-- The payload codecs of bacnet/types, one after the other.
use gobac.Prelude.{ℕ, ◌/◌, ◌%◌, ◌^◌, ◌≤◌, ◌<◌, ◌≡◌, refl, ap₂, arith, [], ◌∷◌, map}
use gobac.Prelude.Bits.{bit_or-shifted, table_agrees, by_table}
use gobac.Result.{ok}
use gobac.Types.Bytes.{Bytes, IsBytes, big_endian32-sum}
use gobac.Types.Unsigned.{marshal_uint32}
use gobac.Types.Unsigned.RoundTrip.{unmarshal-marshal_uint32}
use gobac.Types.Scalars.{reverse8, marshal_bit_string, unmarshal_bit_string}
use gobac.Types.Scalars.{Date, marshal_date, unmarshal_date, Time, marshal_time, unmarshal_time}
use gobac.Types.Scalars.{marshal_real, unmarshal_real, marshal_double, unmarshal_double}

reverse8-reverse8 : (b : ℕ) → b < 256 → reverse8 (reverse8 b) ≡ b
unfolding table_agrees reverse8
reverse8-reverse8 b h = by_table (λ x. reverse8 (reverse8 x)) (λ x. x) 256 refl b h

map-reverse8 : (bs : Bytes) → IsBytes bs → map reverse8 (map reverse8 bs) ≡ bs
map-reverse8 [] h = refl
map-reverse8 (b ∷ bs) (hb, h) = ap₂ (λ x xs. x ∷ xs) (reverse8-reverse8 b hb) (map-reverse8 bs h)

pub unmarshal-marshal_bit_string :
    (bs : Bytes) → IsBytes bs → unmarshal_bit_string (marshal_bit_string bs) ≡ ok bs
unfolding marshal_bit_string unmarshal_bit_string
unmarshal-marshal_bit_string bs h = rw (map-reverse8 bs h)

-- A date of the years that the wire can hold.
abbrev pub IsDate : Date → Type 0
IsDate d = (1900 ≤ d.year) × (d.year ≤ 2155) × (d.month < 256) × (d.day < 256) × (d.weekday < 256)

pub unmarshal-marshal_date : (d : Date) → IsDate d → unmarshal_date (marshal_date d) ≡ ok d
unfolding marshal_date unmarshal_date
unmarshal-marshal_date d h = ground arith

pub unmarshal-marshal_time : (t : Time) → unmarshal_time (marshal_time t) ≡ ok t
unfolding marshal_time unmarshal_time
unmarshal-marshal_time t = refl

pub unmarshal-marshal_real : (r : ℕ) → r < 2 ^ 32 → unmarshal_real (marshal_real r) ≡ ok r
unfolding marshal_real unmarshal_real
unmarshal-marshal_real r h = unmarshal-marshal_uint32 r h

pub unmarshal-marshal_double : (d : ℕ) → d < 2 ^ 64 → unmarshal_double (marshal_double d) ≡ ok d
unfolding marshal_double unmarshal_double marshal_uint32
unmarshal-marshal_double d h =
    let hi : ℕ = d / 2 ^ 32 in
    let lo : ℕ = d % 2 ^ 32 in
    ground (
      arith,
      big_endian32-sum (hi / 2 ^ 24 % 256) (hi / 2 ^ 16 % 256) (hi / 2 ^ 8 % 256) (hi % 256),
      big_endian32-sum (lo / 2 ^ 24 % 256) (lo / 2 ^ 16 % 256) (lo / 2 ^ 8 % 256) (lo % 256),
      bit_or-shifted 32 hi lo,
    )
