-- ===== src/Result.antt =====
-- Go's pair of a value and an error. The texts of errors that no caller compares are grouped by
-- what they complain about.
pub mod Halts
use gobac.Prelude.{◌≡◌, refl, Bool, true, false, ◌⊎◌, inl, inr}

pub data Error : Type 0 where
  empty_input truncated wrong_size malformed_tag unexpected_tag unsupported out_of_range : Error
  invalid_value missing_value go_panic : Error
  -- `errWritePriorityOutOfRange` of simulator/services.go.
  priority_out_of_range : Error
  -- No error of the program: the fuel of a loop has run out.
  out_of_fuel : Error

abbrev pub is_fuel : Error → Bool
is_fuel out_of_fuel = true
is_fuel _ = false

pub data Result {ℓ} (A : Type ℓ) : Type ℓ where
  ok : A → Result A
  err : Error → Result A

-- `if !test { return failure }`
abbrev pub check : Bool → Error → Result (Unit {0})
check true failure = ok tt
check false failure = err failure

-- `if err != nil { return err }` after a call
infixl 5 ◌>>=◌
abbrev pub ◌>>=◌ {ℓ κ} : {A : Type ℓ} {B : Type κ} → Result A → (A → Result B) → Result B
err failure >>= next = err failure
ok value >>= next = next value

infixl 5 ◌>>◌
abbrev pub ◌>>◌ {ℓ} : {B : Type ℓ} → Result (Unit {0}) → Result B → Result B
first >> second = first >>= λ _. second

pub Result-cases {ℓ} :
    {A : Type ℓ} (r : Result A) → ((a : A) × (r ≡ ok a)) ⊎ ((e : Error) × (r ≡ err e))
Result-cases (ok a) = inl (a, refl)
Result-cases (err e) = inr (e, refl)
