-- ===== src/Client/Transaction/Reservation.antt =====
-- TryGetInvokeID and ReleaseInvokeID of bacnet/transaction.go, on reservations seen by address and ID.
use gobac.Prelude.{
  ◌∙◌, sym, ℕ, zero, suc, ◌+◌, ◌-◌, ◌%◌, ◌≤◌, ◌<◌, ◌≡◌, ◌≢◌, refl, ap, arith, ◌⊎◌, inl, inr,
}
use gobac.Prelude.{true, false, Bool-cases, Option, none, some, Option-cases}
use gobac.Types.Bytes.{Bytes, bytes_eq, bytes_eq_refl, bytes_eq_sound}
use gobac.Client.Transaction.{Transactions, Failure, gen_tx_id, following, find_free, first_id}
use gobac.Client.Transaction.{reserve, try_get_invoke_id, release_invoke_id}
use gobac.Client.Transaction.Keys.{gen_tx_id-injective}

-- An invoke ID in use: a byte, and not 0.
abbrev pub IsInvokeId : ℕ → Type 0
IsInvokeId id = (1 ≤ id) × (id ≤ 255)

-- `transactionNext` holds bytes.
abbrev pub IsValid : Transactions → Type 0
IsValid t = (address : Bytes) → t.next address < 256

following-IsInvokeId : (id : ℕ) → IsInvokeId (following id)
unfolding following
following-IsInvokeId id = ground arith

-- The ID that a scan from `id` meets after `j` steps.
abbrev ahead : ℕ → ℕ → ℕ
ahead id j = (id + j - 1) % 255 + 1

following-ahead : (id j : ℕ) → IsInvokeId id → ahead (following id) j ≡ ahead id (suc j)
unfolding following
following-ahead id j h = ground arith

-- The scan stops at the first free ID.
find_free_free :
    (rounds : ℕ) (t : Transactions) (address : Bytes) (id : ℕ)
    → t.reserved (gen_tx_id address id) ≡ false
    → find_free (suc rounds) t address id ≡ some id
unfolding find_free
find_free_free rounds t address id free = rw free

find_free_taken :
    (rounds : ℕ) (t : Transactions) (address : Bytes) (id : ℕ)
    → t.reserved (gen_tx_id address id) ≡ true
    → find_free (suc rounds) t address id ≡ find_free rounds t address (following id)
unfolding find_free
find_free_taken rounds t address id taken = rw taken

find_free-some :
    (rounds : ℕ) (t : Transactions) (address : Bytes) (id found : ℕ)
    → IsInvokeId id
    → find_free rounds t address id ≡ some found
    → IsInvokeId found × (t.reserved (gen_tx_id address found) ≡ false)
find_free-some zero t address id found h e = unfold find_free in cc
find_free-some (suc rounds) t address id found h e =
    elim (Bool-cases (t.reserved (gen_tx_id address id))) [
      | inl taken ↦
          find_free-some rounds t address (following id) found (following-IsInvokeId id)
            (rw (find_free_taken rounds t address id taken) at e)
      | inr free ↦ ground (arith, find_free_free rounds t address id free)
    ]

find_free-none :
    (rounds : ℕ) (t : Transactions) (address : Bytes) (id : ℕ)
    → IsInvokeId id
    → find_free rounds t address id ≡ none
    → (j : ℕ) → j < rounds
    → t.reserved (gen_tx_id address (ahead id j)) ≡ true
find_free-none zero t address id h e j lt = absurd (omega arith)
find_free-none (suc rounds) t address id h e zero lt =
    elim (Bool-cases (t.reserved (gen_tx_id address id))) [
      | inl taken ↦ let here : ahead id 0 ≡ id = omega arith in rw here taken
      | inr free ↦ cc (find_free_free rounds t address id free)
    ]
find_free-none (suc rounds) t address id h e (suc j) lt =
    elim (Bool-cases (t.reserved (gen_tx_id address id))) [
      | inl taken ↦ rw (← following-ahead id j h) (
          find_free-none rounds t address (following id) (following-IsInvokeId id)
            (rw (find_free_taken rounds t address id taken) at e) j (omega arith))
      | inr free ↦ cc (find_free_free rounds t address id free)
    ]

first_id-IsInvokeId :
    (t : Transactions) (address : Bytes) → IsValid t → IsInvokeId (first_id t address)
first_id-IsInvokeId t address v = ground (arith, v address)

-- 255 rounds meet every ID.
all_taken :
    (t : Transactions) (address : Bytes) (id : ℕ)
    → IsInvokeId id
    → find_free 255 t address id ≡ none
    → (other : ℕ) → IsInvokeId other
    → t.reserved (gen_tx_id address other) ≡ true
all_taken t address id h e other k =
    let j = (other + 255 - id) % 255 in
    let met : ahead id j ≡ other = omega arith in
    rw met at (find_free-none 255 t address id h e j (omega arith))

-- Whether a key is the one of `address` and `id`.
other_key :
    (a b : Bytes) (n m : ℕ)
    → n < 256
    → m < 256
    → (a ≢ b) ⊎ (n ≢ m)
    → bytes_eq (gen_tx_id a n) (gen_tx_id b m) ≡ false
other_key a b n m hn hm differ = elim (Bool-cases (bytes_eq (gen_tx_id a n) (gen_tx_id b m))) [
  | inl same ↦ absurd (clash (gen_tx_id-injective a b n m hn hm (bytes_eq_sound _ _ same)) differ)
  | inr other ↦ other
]
  where
    clash : (a ≡ b) × (n ≡ m) → (a ≢ b) ⊎ (n ≢ m) → ⊥
    clash (p, q) (inl k) = k p
    clash (p, q) (inr k) = k q

-- What a grant of `id` for `address` does to the reservations.
pub record IsGranted (t t' : Transactions) (address : Bytes) (id : ℕ) : Type 0 where
  pub in_range : IsInvokeId id
  pub was_free : t.reserved (gen_tx_id address id) ≡ false
  pub taken : t'.reserved (gen_tx_id address id) ≡ true
  pub valid : IsValid t'

reserve-IsGranted :
    (t : Transactions) (address : Bytes) (id : ℕ)
    → IsValid t
    → IsInvokeId id
    → t.reserved (gen_tx_id address id) ≡ false
    → IsGranted t (reserve t address (some id)).0 address id
unfolding reserve
reserve-IsGranted t address id v h free = record {
  in_range = h;
  was_free = free;
  taken = rw (bytes_eq_refl (gen_tx_id address id));
  valid = λ b. ground (arith, v b, following-IsInvokeId id);
}

reserve-inr :
    (t t' : Transactions) (address : Bytes) (id : ℕ) (o : Option ℕ)
    → reserve t address o ≡ (t', inr id)
    → (o ≡ some id) × ((reserve t address (some id)).0 ≡ t')
unfolding reserve
reserve-inr t t' address id none e = cc (ap (λ (p : Transactions × (Failure ⊎ ℕ)). p.1) e)
reserve-inr t t' address id (some found) e =
    let same : found ≡ id = cc (ap (λ (p : Transactions × (Failure ⊎ ℕ)). p.1) e) in
    (ap some same, rw (← same) (ap (λ p. p.0) e))

try_get_found :
    (t t' : Transactions) (address : Bytes) (id : ℕ)
    → IsValid t
    → try_get_invoke_id (some address) t ≡ (t', inr id)
    → IsInvokeId id
      × (t.reserved (gen_tx_id address id) ≡ false)
      × ((reserve t address (some id)).0 ≡ t')
unfolding try_get_invoke_id
try_get_found t t' address id v e =
    let start = first_id t address in
    let (found, after) = reserve-inr t t' address id (find_free 255 t address start) e in
    let (range, free) =
      find_free-some 255 t address start id (first_id-IsInvokeId t address v) found in
    (range, free, after)

-- From reservations whose pointers are bytes: an ID that is granted lies between 1 and 255, was free
-- for its address and is reserved afterwards, and the pointers stay bytes.
pub try_get_invoke_id-IsGranted :
    (t t' : Transactions) (address : Bytes) (id : ℕ)
    → IsValid t
    → try_get_invoke_id (some address) t ≡ (t', inr id)
    → IsGranted t t' address id
try_get_invoke_id-IsGranted t t' address id v e =
    let (range, free, after) = try_get_found t t' address id v e in
    rw after at (reserve-IsGranted t address id v range free)

-- From reservations whose pointers are bytes: a grant for one address leaves the reservation of
-- every other address and of every other ID of a byte as it was.
pub try_get_invoke_id-other :
    (t t' : Transactions) (address other : Bytes) (id m : ℕ)
    → IsValid t
    → try_get_invoke_id (some address) t ≡ (t', inr id)
    → m < 256
    → (address ≢ other) ⊎ (id ≢ m)
    → t'.reserved (gen_tx_id other m) ≡ t.reserved (gen_tx_id other m)
unfolding reserve
try_get_invoke_id-other t t' address other id m v e small differ =
    let (range, free, after) = try_get_found t t' address id v e in
    rw (← after, other_key address other id m (omega (arith, range)) small differ) refl

-- A search that finds nothing changes nothing, and met every ID reserved.
try_get_invoke_id-cases :
    (t : Transactions) (address : Bytes)
    → IsValid t
    → ((id : ℕ) × ((try_get_invoke_id (some address) t).1 ≡ inr id))
      ⊎ ((id : ℕ) → IsInvokeId id → t.reserved (gen_tx_id address id) ≡ true)
unfolding try_get_invoke_id reserve
try_get_invoke_id-cases t address v =
    elim (Option-cases (find_free 255 t address (first_id t address))) [
      | inl none_free ↦
          inr (all_taken t address (first_id t address) (first_id-IsInvokeId t address v) none_free)
      | inr (found, at_found) ↦ inl (found, rw at_found)
    ]

-- From reservations whose pointers are bytes: if any of the 255 IDs is free for an address, one is
-- granted.
pub try_get_invoke_id_complete :
    (t : Transactions) (address : Bytes) (free : ℕ)
    → IsValid t
    → IsInvokeId free
    → t.reserved (gen_tx_id address free) ≡ false
    → (id : ℕ) × ((try_get_invoke_id (some address) t).1 ≡ inr id)
try_get_invoke_id_complete t address free v range h = elim (try_get_invoke_id-cases t address v) [
  | inl granted ↦ granted
  | inr taken ↦ absurd (cc (sym h ∙ taken free range))
]

-- From reservations whose pointers are bytes: a release makes the reservations what they were before
-- the grant that gave the ID.
pub release-try_get_invoke_id :
    (t t' : Transactions) (address : Bytes) (id : ℕ)
    → IsValid t
    → try_get_invoke_id (some address) t ≡ (t', inr id)
    → (key : Bytes) → (release_invoke_id (some address) id t').reserved key ≡ t.reserved key
release-try_get_invoke_id t t' address id v e key =
    let (range, free, after) = try_get_found t t' address id v e in
    rw (← after) (restored range free)
  where
    restored :
        IsInvokeId id
        → t.reserved (gen_tx_id address id) ≡ false
        → (release_invoke_id (some address) id (reserve t address (some id)).0).reserved key
          ≡ t.reserved key
    restored range free =
        unfold release_invoke_id reserve in
        ground (arith, bytes_eq_sound (gen_tx_id address id) key)
