-- ===== src/Prelude/Bits.antt =====
-- `|` and `&` on words as arithmetic: fields that do not overlap, low masks, and tables over a byte.
use Prim.Native.Nat.{ℕ, zero, suc, ◌+◌, ◌-◌, ◌*◌, ◌/◌, ◌%◌, ◌^◌, ◌≤◌, ◌<◌, min, max}
use Prim.Native.Nat.{bit_and, bit_or, digits, bitwise, bit_and-bitwise, bit_or-bitwise}
use mathlib.Core.Path.{◌≡◌, refl}
use mathlib.Core.Logic.{◌⊎◌, inl, inr}
use mathlib.Core.Bool.{Bool, true, ◌&&◌}
use native.Mathlib.Nat.{pow-suc, one-le-pow, zero-add, suc-add}
use native.Mathlib.Omega.{arith}
use gobac.Prelude.Tests.{◌==◌, ==_iff}

lt_or_last : (x bound : ℕ) → x < suc bound → (x < bound) ⊎ (x ≡ bound)
lt_or_last x bound small = ground arith

-- Two functions that agree by evaluation on all arguments below a bound.
unfoldable pub table_agrees : (ℕ → ℕ) → (ℕ → ℕ) → ℕ → Bool
table_agrees f g zero = true
table_agrees f g (suc bound) = let below = table_agrees f g bound in (f bound == g bound) && below

abbrev pub Agree : (ℕ → ℕ) → (ℕ → ℕ) → ℕ → Type 0
Agree f g bound = table_agrees f g bound ≡ true

pub by_table : (f g : ℕ → ℕ) (bound : ℕ) → Agree f g bound → (x : ℕ) → x < bound → f x ≡ g x
unfolding table_agrees
by_table f g zero h x small = absurd (omega arith)
by_table f g (suc bound) h x small =
    let last : f bound ≡ g bound = ground (arith, ==_iff (f bound) (g bound)) in
    elim (lt_or_last x bound small) [
      | inl below ↦ by_table f g bound (ground arith) x below
      | inr same ↦ rw same last
    ]

-- More fuel than the first operand needs does not change the digits.
same_digits :
    (z : ℕ → ℕ) (f : ℕ → ℕ → ℕ) (n k a b : ℕ) → a ≤ n → digits z f (n + k) a b ≡ digits z f n a b
same_digits z f zero zero zero b h = refl
same_digits z f zero (suc k) zero b h = rw zero-add
same_digits z f zero k (suc a) b h = absurd (omega arith)
same_digits z f (suc n) k zero b h = rw suc-add
same_digits z f (suc n) k (suc a) b h =
    rw suc-add (rw (same_digits z f n k (suc a / 2) (b / 2) (omega arith)))

-- One binary digit of `bitwise`, with the fuel gone.
peel :
    (z : ℕ → ℕ) (f : ℕ → ℕ → ℕ) (a b : ℕ)
    → bitwise z f (suc a) b ≡ bitwise z f (suc a / 2) (b / 2) * 2 + f (suc a % 2) (b % 2)
peel z f a b =
    let half = suc a / 2 in
    let gap : half + (a - half) ≡ a = omega arith in
    let even = same_digits z f half (a - half) half (b / 2) (omega arith) in
    omega (arith, rw gap at even)

pub bit_and_step : (a b : ℕ) → bit_and a b ≡ bit_and (a / 2) (b / 2) * 2 + min (a % 2) (b % 2)
bit_and_step zero word = simp bit_and-bitwise (omega arith)
bit_and_step (suc n) word = simp bit_and-bitwise (peel (λ y. zero) min n word)

pub bit_or_step : (v w : ℕ) → bit_or v w ≡ bit_or (v / 2) (w / 2) * 2 + max (v % 2) (w % 2)
bit_or_step zero word = simp bit_or-bitwise (omega arith)
bit_or_step (suc n) word = simp bit_or-bitwise (peel (λ y. y) max n word)

-- Against no bits at all; `fuel` bounds the number.
with_zero : (fuel a : ℕ) → a ≤ fuel → (bit_or a 0 ≡ a) × (bit_and a 0 ≡ 0)
with_zero fuel zero h = (refl, refl)
with_zero zero (suc a) h = absurd (omega arith)
with_zero (suc fuel) (suc a) h =
    let (or_half, and_half) = with_zero fuel (suc a / 2) (omega arith) in
    (omega (arith, bit_or_step (suc a) 0, or_half), omega (arith, bit_and_step (suc a) 0, and_half))

bit_or-zero : (a : ℕ) → bit_or a 0 ≡ a
bit_or-zero a = (with_zero a a (omega arith)).0

bit_and-zero : (a : ℕ) → bit_and a 0 ≡ 0
bit_and-zero a = (with_zero a a (omega arith)).1

double_pow : (q k : ℕ) → q * 2 ^ suc k ≡ q * 2 ^ k * 2
double_pow q k = rw (pow-suc 2 k) (omega arith)

-- `q << k | r` is a sum where `r` has `k` bits.
pub bit_or-shifted : (k q r : ℕ) → r < 2 ^ k → bit_or (q * 2 ^ k) r ≡ q * 2 ^ k + r
bit_or-shifted zero q r h = ground (arith, bit_or-zero q)
bit_or-shifted (suc k) q r h = ground (
  arith,
  double_pow q k,
  double_pow 1 k,
  bit_or_step (q * 2 ^ suc k) r,
  bit_or-shifted k q (r / 2),
)

-- Two fields at one shift.
pub bit_and-shifted : (k a m : ℕ) → bit_and (a * 2 ^ k) (m * 2 ^ k) ≡ bit_and a m * 2 ^ k
bit_and-shifted zero a m = ground arith
bit_and-shifted (suc k) a m = ground (
  arith,
  double_pow a k,
  double_pow m k,
  double_pow (bit_and a m) k,
  bit_and_step (a * 2 ^ suc k) (m * 2 ^ suc k),
  bit_and-shifted k a m,
)

-- A mask of `k` ones keeps the low `k` bits of a word that is given by its two parts.
and_parts : (k q r : ℕ) → r < 2 ^ k → bit_and (q * 2 ^ k + r) (2 ^ k - 1) ≡ r
and_parts zero q r h = ground (arith, bit_and-zero (q * 2 ^ 0 + r))
and_parts (suc k) q r h = ground (
  arith,
  double_pow q k,
  double_pow 1 k,
  one-le-pow k 2,
  bit_and_step (q * 2 ^ suc k + r) (2 ^ suc k - 1),
  and_parts k q (r / 2),
)

pub bit_and-ones : (k a : ℕ) → bit_and a (2 ^ k - 1) ≡ a % 2 ^ k
bit_and-ones k a = ground (arith, one-le-pow k 2, and_parts k (a / 2 ^ k) (a % 2 ^ k))

pub zero-bit_or : (n : ℕ) → bit_or 0 n ≡ n
zero-bit_or n = simp bit_or-bitwise

or_comm_fuel : (n a b : ℕ) → a ≤ n → bit_or a b ≡ bit_or b a
or_comm_fuel n zero b h = omega (arith, zero-bit_or b, bit_or-zero b)
or_comm_fuel zero (suc a) b h = absurd (omega arith)
or_comm_fuel (suc n) (suc a) b h = omega (
  arith,
  bit_or_step (suc a) b,
  bit_or_step b (suc a),
  or_comm_fuel n (suc a / 2) (b / 2) (omega arith),
)

pub bit_or_comm : (a b : ℕ) → bit_or a b ≡ bit_or b a
bit_or_comm a b = or_comm_fuel a a b (omega arith)
