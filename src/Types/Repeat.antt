-- ===== src/Types/Repeat.antt =====
-- The shape of the decoders' loops: a round stops, or decodes one item and leaves the octets behind it.
-- A loop takes fuel for its rounds; the callers give one unit for each octet and one more.
pub mod Termination
pub mod RoundTrip
use gobac.Prelude.{ℕ, zero, suc, List, [], ◌∷◌, length}
use gobac.Result.{Result, ok, err, out_of_fuel, ◌>>=◌}
use gobac.Types.Bytes.{Bytes}

pub data Round {ℓ} (A : Type ℓ) : Type ℓ where
  stop : Bytes → Round A
  item : A → Bytes → Round A

unfoldable pub repeat {ℓ} :
    {A : Type ℓ} → ℕ → (Bytes → Result (Round A)) → Bytes → Result (List A × Bytes)
repeat zero step bs = err out_of_fuel
repeat (suc fuel) step bs = step bs >>= λ r. elim r [
  | stop rest ↦ ok ([], rest)
  | item a rest ↦ (do (as', end) ← repeat fuel step rest; ok (a ∷ as', end))
]

unfoldable pub repeat_all {ℓ} :
    {A : Type ℓ} → (Bytes → Result (Round A)) → Bytes → Result (List A × Bytes)
repeat_all step bs = repeat (suc (length bs)) step bs
