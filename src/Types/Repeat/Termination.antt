-- ===== src/Types/Repeat/Termination.antt =====
-- The fuel of the decoders' loops.
use gobac.Prelude.{
  ℕ, zero, suc, ◌≤◌, ◌<◌, ◌≡◌, arith, List, [], ◌∷◌, length, Bool, true, false, if◌then◌else◌,
}
use gobac.Result.{Error, Result, ok, err, is_fuel, ◌>>=◌}
use gobac.Result.Halts.{Halts, halts_ok, halts_err}
use gobac.Types.Bytes.{Bytes}
use gobac.Types.Repeat.{Round, stop, item, repeat, repeat_all}

-- A reader that fails for a reason of its own, or leaves fewer than `n` octets.
pub data Leaves {ℓ} {A : Type ℓ} (n : ℕ) : Result (A × Bytes) → Type ℓ where
  leaves_err : (e : Error) → is_fuel e ≡ false → Leaves n (err e)
  leaves_ok : (a : A) (rest : Bytes) → length rest < n → Leaves n (ok (a, rest))

-- A round that fails for a reason of its own, stops at no more than `n` octets, or leaves fewer than `n` octets.
pub data Advances {ℓ} {A : Type ℓ} (n : ℕ) : Result (Round A) → Type ℓ where
  advances_err : (e : Error) → is_fuel e ≡ false → Advances n (err e)
  advances_stop : (rest : Bytes) → length rest ≤ n → Advances n (ok (stop rest))
  advances_item : (a : A) (rest : Bytes) → length rest < n → Advances n (ok (item a rest))

module _ {ℓ κ} {A : Type ℓ} {B : Type κ} where
  -- A first reader, and then one of what it leaves.
  pub Leaves-bind :
      (n : ℕ) {r : Result (A × Bytes)} (next : A × Bytes → Result (B × Bytes))
      → Leaves n r
      → ((a : A) (rest : Bytes) → length rest < n → Leaves n (next (a, rest)))
      → Leaves n (r >>= next)
  Leaves-bind n next (leaves_err e h) k = leaves_err e h
  Leaves-bind n next (leaves_ok a rest h) k = k a rest h

  pub Advances-bind :
      (n : ℕ) {r : Result (A × Bytes)} (next : A × Bytes → Result (Round B))
      → Leaves n r
      → ((a : A) (rest : Bytes) → length rest < n → Advances n (next (a, rest)))
      → Advances n (r >>= next)
  Advances-bind n next (leaves_err e h) k = advances_err e h
  Advances-bind n next (leaves_ok a rest h) k = k a rest h

  -- A step that reads nothing.
  pub Leaves-after :
      (n : ℕ) {r : Result A} (next : A → Result (B × Bytes))
      → Halts r
      → ((a : A) → Leaves n (next a))
      → Leaves n (r >>= next)
  Leaves-after n next (halts_ok a) k = k a
  Leaves-after n next (halts_err e h) k = leaves_err e h

  pub Advances-after :
      (n : ℕ) {r : Result A} (next : A → Result (Round B))
      → Halts r
      → ((a : A) → Advances n (next a))
      → Advances n (r >>= next)
  Advances-after n next (halts_ok a) k = k a
  Advances-after n next (halts_err e h) k = advances_err e h

module _ {ℓ} {A : Type ℓ} where
  pub Leaves-le : (m n : ℕ) {r : Result (A × Bytes)} → m ≤ n → Leaves m r → Leaves n r
  Leaves-le m n h (leaves_err e p) = leaves_err e p
  Leaves-le m n h (leaves_ok a rest p) = leaves_ok a rest (omega arith)

  pub Leaves-if :
      (n : ℕ) (b : Bool) {x y : Result (A × Bytes)}
      → Leaves n x
      → Leaves n y
      → Leaves n (if b then x else y)
  Leaves-if n true h k = h
  Leaves-if n false h k = k

  pub Advances-if :
      (n : ℕ) (b : Bool) {x y : Result (Round A)}
      → Advances n x
      → Advances n y
      → Advances n (if b then x else y)
  Advances-if n true h k = h
  Advances-if n false h k = k

  pub Leaves-Halts : {n : ℕ} {r : Result (A × Bytes)} → Leaves n r → Halts r
  Leaves-Halts (leaves_err e h) = halts_err e h
  Leaves-Halts (leaves_ok a rest h) = halts_ok _

abbrev next_items {ℓ} :
    {A : Type ℓ} → ℕ → (Bytes → Result (Round A)) → Round A → Result (List A × Bytes)
next_items fuel step r = elim r [
  | stop rest ↦ ok ([], rest)
  | item a rest ↦ repeat fuel step rest >>= λ (as', end). ok (a ∷ as', end)
]

module _ {ℓ} {A : Type ℓ} (step : Bytes → Result (Round A))
    (advances : (bs : Bytes) → Advances (length bs) (step bs)) where
  -- With more fuel than octets the loop ends by itself, and leaves no more octets than it was given.
  pub repeat-Leaves :
      (fuel : ℕ) (bs : Bytes) → length bs < fuel → Leaves (suc (length bs)) (repeat fuel step bs)
  unfolding repeat
  repeat-Leaves zero bs h = absurd (omega arith)
  repeat-Leaves (suc fuel) bs h = round_ends _ (advances bs) (repeat-Leaves fuel)
    where
      round_ends :
          (r : Result (Round A))
          → Advances (length bs) r
          → ((rest : Bytes)
              → length rest < fuel
              → Leaves (suc (length rest)) (repeat fuel step rest))
          → Leaves (suc (length bs)) (r >>= next_items fuel step)
      round_ends _ (advances_err e q) ih = leaves_err e q
      round_ends _ (advances_stop rest k) ih = leaves_ok _ rest (omega arith)
      round_ends _ (advances_item a rest k) ih =
          Leaves-bind (suc (length bs)) _
            (Leaves-le (suc (length rest)) (suc (length bs)) (omega arith) (ih rest (omega arith)))
            (λ as' end q. leaves_ok _ end q)

  pub repeat_all-Leaves : (bs : Bytes) → Leaves (suc (length bs)) (repeat_all step bs)
  unfolding repeat_all
  repeat_all-Leaves bs = repeat-Leaves (suc (length bs)) bs (omega arith)

  pub repeat_all-Halts : (bs : Bytes) → Halts (repeat_all step bs)
  repeat_all-Halts bs = Leaves-Halts (repeat_all-Leaves bs)
