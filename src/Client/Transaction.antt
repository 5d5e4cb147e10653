-- ===== src/Client/Transaction.antt =====
-- bacnet/transaction.go: invoke IDs, reserved for each destination. A lock guards the two maps in every
-- operation, so an operation is one step on them. An address is the text that `net.IP.String` gives.
pub mod Keys
pub mod Reservation
use gobac.Prelude.{
  ℕ, zero, suc, ◌+◌, ◌-◌, ◌/◌, ◌%◌, ◌≡◌, ◌⊎◌, inl, inr, List, [], ◌∷◌, ◌++◌, Bool, true, false,
}
use gobac.Prelude.{ltb, ◌==◌, if◌then◌else◌, Option, none, some}
use gobac.Types.Bytes.{Bytes, bytes_eq}

pub data Failure : Type 0 where
  nil_address invoke_id_exhausted : Failure

-- `transactions`, where a key that is not there reads false, and `transactionNext`, where it reads 0.
pub record Transactions : Type 0 where
  pub reserved : Bytes → Bool
  pub next : Bytes → ℕ

abbrev pub no_transactions : Transactions
no_transactions = record { reserved = λ k. false; next = λ k. 0 }

-- `m[k] = v`
abbrev pub update {ℓ} : {A : Type ℓ} → (Bytes → A) → Bytes → A → Bytes → A
update m k v j = if bytes_eq k j then v else m j

-- `strconv.Itoa` on a `uint8`
unfoldable pub itoa : ℕ → Bytes
itoa n =
    if ltb n 10
    then (48 + n) ∷ []
    else if ltb n 100
    then (48 + n / 10) ∷ (48 + n % 10) ∷ []
    else (48 + n / 100) ∷ (48 + n / 10 % 10) ∷ (48 + n % 10) ∷ []

-- `genTxId`
unfoldable pub gen_tx_id : Bytes → ℕ → Bytes
gen_tx_id address num = address ++ (b'.' ∷ itoa num)

-- A `uint8` that passes over 0.
unfoldable pub following : ℕ → ℕ
following id = let n : ℕ = (id + 1) % 256 in if n == 0 then 1 else n

-- The loop of `TryGetInvokeID`: the first ID that is free, in so many rounds.
unfoldable pub find_free : ℕ → Transactions → Bytes → ℕ → Option ℕ
find_free zero t address id = none
find_free (suc rounds) t address id =
    let more = find_free rounds t address (following id) in
    if t.reserved (gen_tx_id address id) then more else some id

abbrev pub first_id : Transactions → Bytes → ℕ
first_id t address = if t.next address == 0 then 1 else t.next address

-- What is done with the ID that the loop found.
unfoldable pub reserve : Transactions → Bytes → Option ℕ → Transactions × (Failure ⊎ ℕ)
reserve t address none = (t, inl invoke_id_exhausted)
reserve t address (some id) = (
  record {
    reserved = update t.reserved (gen_tx_id address id) true;
    next = update t.next address (following id);
  },
  inr id,
)

unfoldable pub try_get_invoke_id : Option Bytes → Transactions → Transactions × (Failure ⊎ ℕ)
try_get_invoke_id none t = (t, inl nil_address)
try_get_invoke_id (some address) t =
    reserve t address (find_free 255 t address (first_id t address))

-- `GetInvokeID`: 0 where no ID is given.
abbrev id_or_zero : Failure ⊎ ℕ → ℕ
id_or_zero (inl e) = 0
id_or_zero (inr id) = id

unfoldable pub get_invoke_id : Option Bytes → Transactions → Transactions × ℕ
get_invoke_id address t = let (t', r) = try_get_invoke_id address t in (t', id_or_zero r)

unfoldable pub release_invoke_id : Option Bytes → ℕ → Transactions → Transactions
release_invoke_id none id t = t
release_invoke_id (some address) id t =
    if id == 0 then t else record t { reserved = update t.reserved (gen_tx_id address id) false }
