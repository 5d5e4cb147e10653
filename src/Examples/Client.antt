-- ===== src/Examples/Client.antt =====
-- Reservations of invoke IDs by hand, and their theorems at these.
use gobac.Prelude.{ℕ, ◌≡◌, refl, arith, [], ◌∷◌, some, ◌⊎◌, inr}
use gobac.Types.Bytes.{Bytes, bytes_eq}
use gobac.Client.Transaction.{
  Transactions, no_transactions, gen_tx_id, try_get_invoke_id, release_invoke_id,
}
use gobac.Client.Transaction.{find_free, itoa, following, reserve, Failure}
use gobac.Client.Transaction.Reservation.{IsValid, IsGranted, try_get_invoke_id-IsGranted}
use gobac.Client.Transaction.Reservation.{try_get_invoke_id_complete, release-try_get_invoke_id}
use gobac.Client.Transaction.Reservation.{try_get_invoke_id-other}

-- `10.0.0.1`
abbrev host : Bytes
host = 49 ∷ 48 ∷ 46 ∷ 48 ∷ 46 ∷ 48 ∷ 46 ∷ 49 ∷ []

-- No ID reserved, and the next one for every address is 255.
abbrev at_the_end : Transactions
at_the_end = record no_transactions { next = λ a. 255 }

at_the_end-IsValid : IsValid at_the_end
at_the_end-IsValid a = omega arith

abbrev granted : Transactions × (Failure ⊎ ℕ)
granted = try_get_invoke_id (some host) at_the_end

first_grant : granted.1 ≡ inr 255
unfolding try_get_invoke_id find_free reserve
first_grant = refl

second_grant : (try_get_invoke_id (some host) granted.0).1 ≡ inr 1
unfolding try_get_invoke_id find_free reserve following gen_tx_id itoa bytes_eq
second_grant = refl

try_get_invoke_id-IsGranted_example : IsGranted at_the_end granted.0 host 255
unfolding try_get_invoke_id find_free reserve
try_get_invoke_id-IsGranted_example =
    try_get_invoke_id-IsGranted at_the_end granted.0 host 255 at_the_end-IsValid refl

try_get_invoke_id-other_example :
    granted.0.reserved (gen_tx_id host 3) ≡ at_the_end.reserved (gen_tx_id host 3)
unfolding try_get_invoke_id find_free reserve
try_get_invoke_id-other_example =
    try_get_invoke_id-other at_the_end granted.0 host host 255 3 at_the_end-IsValid refl
      (omega arith) (inr (λ e. omega arith))

try_get_invoke_id_complete_example :
    (id : ℕ) × ((try_get_invoke_id (some host) at_the_end).1 ≡ inr id)
try_get_invoke_id_complete_example =
    try_get_invoke_id_complete at_the_end host 9 at_the_end-IsValid (omega arith, omega arith) refl

release-try_get_invoke_id_example :
    (release_invoke_id (some host) 255 granted.0).reserved (gen_tx_id host 255)
    ≡ at_the_end.reserved (gen_tx_id host 255)
unfolding try_get_invoke_id find_free reserve
release-try_get_invoke_id_example =
    release-try_get_invoke_id at_the_end granted.0 host 255 at_the_end-IsValid refl
      (gen_tx_id host 255)
