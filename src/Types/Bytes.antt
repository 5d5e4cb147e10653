-- ===== src/Types/Bytes.antt =====
-- A byte slice is a list of numbers below 256. Masks on one byte as arithmetic.
use gobac.Prelude.{ℕ, ◌+◌, ◌*◌, ◌/◌, ◌%◌, ◌^◌, ◌<◌, ◌≡◌, refl, List, All, bit_and, bit_or, arith}
use gobac.Prelude.{[], ◌∷◌, Bool, true, false, ◌&&◌, ◌==◌, ltb}
use gobac.Prelude.Bits.{table_agrees, by_table, bit_or-shifted, bit_and-ones}

abbrev pub Bytes : Type 0
Bytes = List ℕ

abbrev pub IsByte : ℕ → Type 0
IsByte b = b < 256

abbrev pub IsBytes : Bytes → Type 0
IsBytes bs = All IsByte bs

module _ (b : ℕ) (small : b < 256) where
  pub bit3 : bit_and b 0x08 ≡ b / 8 % 2 * 8
  unfolding table_agrees
  bit3 = by_table (λ x. bit_and x 0x08) (λ x. x / 8 % 2 * 8) 256 refl b small

  pub high_half : bit_and b 0xf0 ≡ b / 16 * 16
  unfolding table_agrees
  high_half = by_table (λ x. bit_and x 0xf0) (λ x. x / 16 * 16) 256 refl b small

pub low_three : (b : ℕ) → bit_and b 0x07 ≡ b % 8
low_three b = bit_and-ones 3 b

-- `q << 3 | r`
pub or_three : (q r : ℕ) → r < 8 → bit_or (q * 8) r ≡ q * 8 + r
or_three q r h = bit_or-shifted 3 q r h

-- `uint16(b0)<<8 | uint16(b1)`
abbrev pub big_endian16 : ℕ → ℕ → ℕ
big_endian16 b0 b1 = bit_or (b0 * 2 ^ 8) b1

-- `uint32(b0)<<24 | uint32(b1)<<16 | uint32(b2)<<8 | uint32(b3)`
abbrev pub big_endian32 : ℕ → ℕ → ℕ → ℕ → ℕ
big_endian32 b0 b1 b2 b3 = bit_or (bit_or (bit_or (b0 * 2 ^ 24) (b1 * 2 ^ 16)) (b2 * 2 ^ 8)) b3

pub big_endian16-sum : (b0 b1 : ℕ) → b1 < 256 → big_endian16 b0 b1 ≡ b0 * 2 ^ 8 + b1
big_endian16-sum b0 b1 h = bit_or-shifted 8 b0 b1 h

pub big_endian32-sum :
    (b0 b1 b2 b3 : ℕ)
    → b1 < 256
    → b2 < 256
    → b3 < 256
    → big_endian32 b0 b1 b2 b3 ≡ b0 * 2 ^ 24 + b1 * 2 ^ 16 + b2 * 2 ^ 8 + b3
big_endian32-sum b0 b1 b2 b3 h1 h2 h3 = ground (
  arith,
  bit_or-shifted 24 b0 (b1 * 2 ^ 16),
  bit_or-shifted 16 (b0 * 2 ^ 8 + b1) (b2 * 2 ^ 8),
  bit_or-shifted 8 (b0 * 2 ^ 16 + b1 * 2 ^ 8 + b2) b3,
)

-- `==` on Go strings and arrays of bytes.
unfoldable pub bytes_eq : Bytes → Bytes → Bool
bytes_eq [] [] = true
bytes_eq (a ∷ as') (b ∷ bs) = a == b && bytes_eq as' bs
bytes_eq _ _ = false

pub bytes_eq_refl : (a : Bytes) → bytes_eq a a ≡ true
unfolding bytes_eq
bytes_eq_refl [] = refl
bytes_eq_refl (a ∷ as') = ground (arith, bytes_eq_refl as')

pub bytes_eq_sound : (a b : Bytes) → bytes_eq a b ≡ true → a ≡ b
unfolding bytes_eq
bytes_eq_sound [] [] h = refl
bytes_eq_sound [] (b ∷ bs) h = cc
bytes_eq_sound (a ∷ as') [] h = cc
bytes_eq_sound (a ∷ as') (b ∷ bs) h = ground (arith, bytes_eq_sound as' bs)

unfoldable pub are_bytes : Bytes → Bool
are_bytes [] = true
are_bytes (b ∷ bs) = ltb b 256 && are_bytes bs

pub are_bytes-IsBytes : (bs : Bytes) → are_bytes bs ≡ true → IsBytes bs
unfolding are_bytes
are_bytes-IsBytes [] h = tt
are_bytes-IsBytes (b ∷ bs) h = (ground arith, are_bytes-IsBytes bs (ground arith))
