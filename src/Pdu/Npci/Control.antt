-- ===== src/Pdu/Npci/Control.antt =====
-- The bits of the control octet.
use gobac.Prelude.{ℕ, ◌+◌, ◌*◌, ◌/◌, ◌%◌, ◌<◌, ◌≡◌, refl, arith, Bool, true, false, not, ◌==◌}
use gobac.Prelude.{bit_and}
use gobac.Prelude.Bits.{table_agrees, by_table}
use gobac.Pdu.Npci.{control_of}

-- What a reader sees in the octet that a writer made of four parts.
abbrev pub Carries : ℕ → Bool → Bool → Bool → ℕ → Type 0
Carries c destination source reply priority =
    ((bit_and c 0x80 == 0) ≡ true)
    × ((bit_and c 0x20 == 0) ≡ not destination)
    × ((bit_and c 0x08 == 0) ≡ not source)
    × ((bit_and c 0x04 == 0) ≡ not reply)
    × (bit_and c 0x03 ≡ priority)

flag : Bool → ℕ → ℕ
flag true n = n
flag false n = 0

sum_of : Bool → Bool → Bool → ℕ → ℕ
unfolding flag
sum_of d s r p = flag d 32 + flag s 8 + flag r 4 + p

control_of-sum : (d s r : Bool) (p : ℕ) → p < 4 → control_of d s r p ≡ sum_of d s r p
unfolding control_of sum_of table_agrees
control_of-sum true true true = by_table (control_of true true true) (sum_of true true true) 4 refl
control_of-sum true true false =
    by_table (control_of true true false) (sum_of true true false) 4 refl
control_of-sum true false true =
    by_table (control_of true false true) (sum_of true false true) 4 refl
control_of-sum true false false =
    by_table (control_of true false false) (sum_of true false false) 4 refl
control_of-sum false true true =
    by_table (control_of false true true) (sum_of false true true) 4 refl
control_of-sum false true false =
    by_table (control_of false true false) (sum_of false true false) 4 refl
control_of-sum false false true =
    by_table (control_of false false true) (sum_of false false true) 4 refl
control_of-sum false false false =
    by_table (control_of false false false) (sum_of false false false) 4 refl

module _ (b : ℕ) (small : b < 64) where
  top_bit : bit_and b 0x80 ≡ 0
  unfolding table_agrees
  top_bit = by_table (λ x. bit_and x 0x80) (λ x. 0) 64 refl b small

  bit5 : bit_and b 0x20 ≡ b / 32 % 2 * 32
  unfolding table_agrees
  bit5 = by_table (λ x. bit_and x 0x20) (λ x. x / 32 % 2 * 32) 64 refl b small

  bit3 : bit_and b 0x08 ≡ b / 8 % 2 * 8
  unfolding table_agrees
  bit3 = by_table (λ x. bit_and x 0x08) (λ x. x / 8 % 2 * 8) 64 refl b small

  bit2 : bit_and b 0x04 ≡ b / 4 % 2 * 4
  unfolding table_agrees
  bit2 = by_table (λ x. bit_and x 0x04) (λ x. x / 4 % 2 * 4) 64 refl b small

  low_two : bit_and b 0x03 ≡ b % 4
  unfolding table_agrees
  low_two = by_table (λ x. bit_and x 0x03) (λ x. x % 4) 64 refl b small

-- A reader finds the four parts in the octet, and the bit of a network message clear.
pub control_of-Carries :
    (destination source reply : Bool) (priority : ℕ)
    → priority < 4
    → Carries (control_of destination source reply priority) destination source reply priority
control_of-Carries d s r p h =
    let c : ℕ = sum_of d s r p in
    rw (control_of-sum d s r p h)
      (unfold sum_of in ground (arith, top_bit c, bit5 c, bit3 c, bit2 c, low_two c))
