-- ===== src/Types/Scalars.antt =====
-- The payloads of application values: bit_string.go, character_string.go, date.go, time.go, real.go
-- and double.go of bacnet/types. A Go string is its bytes. A float is its IEEE bit pattern, as
-- `math.Float32bits` and `math.Float64bits` give it.
pub mod RoundTrip
use gobac.Prelude.{ℕ, ◌+◌, ◌-◌, ◌*◌, ◌/◌, ◌%◌, ◌^◌, bit_or, List, [], ◌∷◌, ◌++◌, map, length}
use gobac.Prelude.{Bool, ◌||◌, ◌==◌, leb}
use gobac.Result.{Result, ok, err, empty_input, wrong_size, out_of_range, ◌>>=◌, ◌>>◌, check}
use gobac.Types.Bytes.{Bytes, big_endian32}
use gobac.Types.Unsigned.{marshal_uint32, unmarshal_uint32}

-- `bits.Reverse8`
unfoldable pub reverse8 : ℕ → ℕ
reverse8 b =
    b % 2 * 128
    + b / 2 % 2 * 64
    + b / 4 % 2 * 32
    + b / 8 % 2 * 16
    + b / 16 % 2 * 8
    + b / 32 % 2 * 4
    + b / 64 % 2 * 2
    + b / 128 % 2

-- The first octet counts the unused bits of the last one.
unfoldable pub marshal_bit_string : Bytes → Bytes
marshal_bit_string bs = 0 ∷ map reverse8 bs

unfoldable pub unmarshal_bit_string : Bytes → Result Bytes
unmarshal_bit_string [] = err empty_input
unmarshal_bit_string (unused ∷ bs) = do check (leb unused 7) out_of_range; ok (map reverse8 bs)

pub record CharacterString : Type 0 where
  pub value : Bytes
  pub encoding : ℕ

unfoldable pub character_string_length : CharacterString → ℕ
character_string_length cs = length cs.value + 1

unfoldable pub marshal_character_string : CharacterString → Bytes
marshal_character_string cs = cs.encoding ∷ cs.value

unfoldable pub unmarshal_character_string : Bytes → Result CharacterString
unmarshal_character_string [] = err empty_input
unmarshal_character_string (encoding ∷ value) = ok (record { value = value; encoding = encoding })

-- The year is a `uint16`, and is written less 1900 as a `uint8`.
pub record Date : Type 0 where
  pub year : ℕ
  pub month : ℕ
  pub day : ℕ
  pub weekday : ℕ

unfoldable pub marshal_date : Date → Bytes
marshal_date d = ((d.year + 2 ^ 16 - 1900) % 2 ^ 16 % 256) ∷ d.month ∷ d.day ∷ d.weekday ∷ []

unfoldable pub unmarshal_date : Bytes → Result Date
unmarshal_date (b0 ∷ b1 ∷ b2 ∷ b3 ∷ []) =
    ok (record { year = b0 + 1900; month = b1; day = b2; weekday = b3 })
unmarshal_date _ = err wrong_size

pub record Time : Type 0 where
  pub hour : ℕ
  pub minute : ℕ
  pub second : ℕ
  pub hundredths : ℕ

unfoldable pub marshal_time : Time → Bytes
marshal_time t = t.hour ∷ t.minute ∷ t.second ∷ t.hundredths ∷ []

unfoldable pub unmarshal_time : Bytes → Result Time
unmarshal_time (b0 ∷ b1 ∷ b2 ∷ b3 ∷ []) =
    ok (record { hour = b0; minute = b1; second = b2; hundredths = b3 })
unmarshal_time _ = err wrong_size

unfoldable pub marshal_real : ℕ → Bytes
marshal_real bits = marshal_uint32 bits

unfoldable pub unmarshal_real : Bytes → Result ℕ
unmarshal_real bs = unmarshal_uint32 bs

-- `binary.BigEndian.PutUint64`, a word in its two halves.
unfoldable pub marshal_double : ℕ → Bytes
marshal_double bits = marshal_uint32 (bits / 2 ^ 32) ++ marshal_uint32 (bits % 2 ^ 32)

unfoldable pub unmarshal_double : Bytes → Result ℕ
unmarshal_double (b0 ∷ b1 ∷ b2 ∷ b3 ∷ b4 ∷ b5 ∷ b6 ∷ b7 ∷ []) =
    ok (bit_or (big_endian32 b0 b1 b2 b3 * 2 ^ 32) (big_endian32 b4 b5 b6 b7))
unmarshal_double _ = err wrong_size
