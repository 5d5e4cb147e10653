-- ===== src/Result/Halts.antt =====
-- Results of loops on fuel that did not run out of it.
use gobac.Prelude.{◌≡◌, ◌≢◌, refl, Bool, true, false, if◌then◌else◌, arith}
use gobac.Result.{Error, Result, ok, err, out_of_fuel, ◌>>=◌, check, is_fuel}

pub data Halts {ℓ} {A : Type ℓ} : Result A → Type ℓ where
  halts_ok : (a : A) → Halts (ok a)
  halts_err : (e : Error) → is_fuel e ≡ false → Halts (err e)

pub Halts-ne {ℓ} : {A : Type ℓ} {r : Result A} → Halts r → r ≢ err out_of_fuel
Halts-ne (halts_ok a) = ground arith
Halts-ne (halts_err e h) = ground arith

pub Halts-if {ℓ} :
    {A : Type ℓ} (b : Bool) {x y : Result A} → Halts x → Halts y → Halts (if b then x else y)
Halts-if true h k = h
Halts-if false h k = k

pub Halts-bind {ℓ κ} :
    {A : Type ℓ} {B : Type κ} {r : Result A} (next : A → Result B)
    → Halts r
    → ((a : A) → Halts (next a))
    → Halts (r >>= next)
Halts-bind next (halts_ok a) h = h a
Halts-bind next (halts_err e p) h = halts_err e p

pub Halts-check : (b : Bool) (e : Error) → is_fuel e ≡ false → Halts (check b e)
Halts-check true e h = halts_ok tt
Halts-check false e h = halts_err e h

pub ruleset halting = (halts_ok, halts_err, Halts-if, Halts-bind, Halts-check, refl)
