-- ===== src/Types/Repeat/RoundTrip.antt =====
-- The decoders' loops on items that were written one after the other.
use mathlib.Core.List.{append_assoc}
use gobac.Prelude.{
  ℕ, zero, suc, ◌≤◌, ◌<◌, ◌≡◌, refl, arith, List, [], ◌∷◌, ◌++◌, length, map, length-append,
}
use gobac.Result.{Result, ok}
use gobac.Types.Bytes.{Bytes}
use gobac.Types.Repeat.{Round, stop, item, repeat, repeat_all}

-- The encodings of some items, each of which the loop reads in one round as the item that `back` gives,
-- in front of octets that may follow it; the encoding of an item may follow any other.
pub data Items {ℓ κ} {A : Type ℓ} {B : Type κ} (step : Bytes → Result (Round B)) (back : A → B)
    (Follows : Bytes → Type 0) : List A → Bytes → Type (ℓ ⊔ κ) where
  no_items : Items step back Follows [] []
  one_more :
      (a : A) (b : Bytes) (as' : List A) (bs : Bytes)
      → 1 ≤ length b
      → ((rest : Bytes) → Follows rest → step (b ++ rest) ≡ ok (item (back a) rest))
      → ((rest : Bytes) → Follows (b ++ rest))
      → Items step back Follows as' bs
      → Items step back Follows (a ∷ as') (b ++ bs)

module _ {ℓ κ} {A : Type ℓ} {B : Type κ} (step : Bytes → Result (Round B)) (back : A → B)
    (Follows : Bytes → Type 0) where
  -- What follows an item before the tail.
  Items-follow :
      (as' : List A) (bs tail : Bytes)
      → Items step back Follows as' bs
      → Follows tail
      → Follows (bs ++ tail)
  Items-follow _ _ tail no_items h = h
  Items-follow _ _ tail (one_more a b as' bs some_octets reads follows d) h =
      rw (append_assoc b bs tail) (follows (bs ++ tail))

  -- The loop reads them all, up to where it stops.
  pub repeat-Items :
      (fuel : ℕ) (as' : List A) (bs tail rest : Bytes)
      → Items step back Follows as' bs
      → Follows tail
      → step tail ≡ ok (stop rest)
      → length bs < fuel
      → repeat fuel step (bs ++ tail) ≡ ok (map back as', rest)
  unfolding repeat
  repeat-Items zero as' bs tail rest d f h le = absurd (omega arith)
  repeat-Items (suc fuel) _ _ tail rest no_items f h le = rw h refl
  repeat-Items (suc fuel) _ _ tail rest (one_more a b as' bs some_octets reads follows d) f h le =
      rw
        (
          append_assoc b bs tail,
          reads (bs ++ tail) (Items-follow as' bs tail d f),
          repeat-Items fuel as' bs tail rest d f h (omega (arith, length-append b bs)),
        )
        refl

  pub repeat_all-Items :
      (as' : List A) (bs tail rest : Bytes)
      → Items step back Follows as' bs
      → Follows tail
      → step tail ≡ ok (stop rest)
      → repeat_all step (bs ++ tail) ≡ ok (map back as', rest)
  unfolding repeat_all
  repeat_all-Items as' bs tail rest d f h =
      repeat-Items (suc (length (bs ++ tail))) as' bs tail rest d f h
        (omega (arith, length-append bs tail))
