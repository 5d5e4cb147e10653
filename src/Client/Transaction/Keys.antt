-- ===== src/Client/Transaction/Keys.antt =====
-- The keys of genTxId in bacnet/transaction.go: the text of an address, a full stop and an ID.
use gobac.Prelude.{ℕ, ◌<◌, ◌≡◌, refl, arith, [], ◌∷◌, ◌++◌}
use gobac.Prelude.{◌≢◌, All}
use gobac.Types.Bytes.{Bytes}
use gobac.Client.Transaction.{itoa, gen_tx_id}

-- No octet of a text is a full stop.
abbrev NoStop : Bytes → Type 0
NoStop bs = All (λ c. c ≢ b'.') bs

itoa-NoStop : (n : ℕ) → NoStop (itoa n)
unfolding itoa
itoa-NoStop n = ground arith

itoa-injective : (n m : ℕ) → n < 256 → m < 256 → itoa n ≡ itoa m → n ≡ m
unfolding itoa
itoa-injective n m hn hm e = ground arith

-- The text behind the last full stop is determined.
stop_inside : (front back : Bytes) → NoStop (front ++ (b'.' ∷ back)) → ⊥
stop_inside [] back h = h.0 refl
stop_inside (c ∷ front) back h = stop_inside front back h.1

split_last :
    (a b x y : Bytes) → NoStop x → NoStop y → a ++ (b'.' ∷ x) ≡ b ++ (b'.' ∷ y) → (a ≡ b) × (x ≡ y)
split_last [] [] x y hx hy e = (refl, cc)
split_last [] (c ∷ b) x y hx hy e =
    let tail : x ≡ b ++ (b'.' ∷ y) = cc in absurd (stop_inside b y (rw tail at hx))
split_last (c ∷ a) [] x y hx hy e =
    let tail : y ≡ a ++ (b'.' ∷ x) = cc in absurd (stop_inside a x (rw tail at hy))
split_last (c ∷ a) (d ∷ b) x y hx hy e =
    let tail : a ++ (b'.' ∷ x) ≡ b ++ (b'.' ∷ y) = cc in
    let (same, last) = split_last a b x y hx hy tail in (cc, last)

-- Two addresses and two IDs of a byte that have the same key are the same.
pub gen_tx_id-injective :
    (a b : Bytes) (n m : ℕ) → n < 256 → m < 256 → gen_tx_id a n ≡ gen_tx_id b m → (a ≡ b) × (n ≡ m)
unfolding gen_tx_id
gen_tx_id-injective a b n m hn hm e =
    let (ea, en) = split_last a b (itoa n) (itoa m) (itoa-NoStop n) (itoa-NoStop m) e in
    (ea, itoa-injective n m hn hm en)
