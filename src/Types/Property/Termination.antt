-- ===== src/Types/Property/Termination.antt =====
-- The fuel of UnmarshalBinary, bacnet/types/property.go.
use gobac.Prelude.{
  ℕ, zero, drop, length-drop, not, ◌==◌, false, suc, ◌≤◌, ◌≡◌, ◌≢◌, refl, arith, [], ◌∷◌, length,
}
use gobac.Prelude.Int.{ℤ, pos, negsuc}
use gobac.Result.{Error, Result, ok, err, out_of_fuel, malformed_tag, is_fuel, ◌>>=◌, check}
use gobac.Result.Halts.{Halts, Halts-ne, halting, Halts-check}
use gobac.Types.Repeat.{Round}
use gobac.Types.Repeat.Termination.{
  Leaves, leaves_err, leaves_ok, Leaves-bind, Leaves-after, Advances, advances_err,
}
use gobac.Types.Bytes.{Bytes}
use gobac.Types.Tag.{Tag, decode_tag}
use gobac.Types.PropertyValue.Fuel.{object-Halts}
use gobac.Types.Content.Termination.{value_bounds-Halts, read_values-Halts}
use gobac.Types.Property.{
  Property, cut_value, decode_header, read_value, read_object, read_id, read_index, index_behind,
  read_content, read_rest, read_fields, unmarshal_from, unmarshal_property,
}

cut_value-Halts : (len : ℤ) (r : ℕ) (bs : Bytes) → Halts (cut_value len r bs)
unfolding cut_value
cut_value-Halts (pos n) r bs = search halting
cut_value-Halts (negsuc n) r bs = search halting

read_value-Halts : (header : Tag × ℕ) (bs : Bytes) → Halts (read_value header bs)
unfolding read_value
read_value-Halts (t, r) bs = cut_value-Halts t.len_value r bs

decode_header-Halts : (bs : Bytes) → Halts (decode_header bs)
unfolding decode_header
decode_header-Halts [] = search halting
decode_header-Halts (b0 ∷ bs) = search halting

ruleset decoding = (halting, read_value-Halts, decode_header-Halts, object-Halts)

read_object-Halts : (bs : Bytes) → Halts (read_object bs)
unfolding read_object
read_object-Halts bs = search decoding depth 12

read_id-Halts : (number : ℕ) (bs : Bytes) → Halts (read_id number bs)
unfolding read_id
read_id-Halts number bs = search decoding depth 12

read_index-Halts : (number : ℕ) (bs : Bytes) → Halts (read_index number bs)
unfolding read_index index_behind
read_index-Halts number [] = search decoding
read_index-Halts number (b0 ∷ bs) = search decoding depth 12

read_content-Halts :
    (p : Property) (number start : ℕ) (inner : Bytes) → Halts (read_content p number start inner)
unfolding read_content
read_content-Halts p number start inner =
    search (decoding, value_bounds-Halts, read_values-Halts, arith) depth 12

read_rest-Halts : (p : Property) (number size : ℕ) (bs : Bytes) → Halts (read_rest p number size bs)
unfolding read_rest
read_rest-Halts p number size [] = search halting
read_rest-Halts p number size (b0 ∷ bs) = search (decoding, read_content-Halts) depth 12

read_fields-Halts :
    (p : Property) (tag_start size : ℕ) (bs : Bytes) → Halts (read_fields p tag_start size bs)
unfolding read_fields
read_fields-Halts p tag_start size bs =
    search (halting, read_id-Halts, read_index-Halts, read_rest-Halts) depth 12

pub unmarshal_property-Halts : (p : Property) (b : Bytes) → Halts (unmarshal_property p b)
unfolding unmarshal_property unmarshal_from
unmarshal_property-Halts p [] = search halting
unmarshal_property-Halts p (b0 ∷ bs) =
    search (halting, read_object-Halts, read_fields-Halts) depth 12

-- On any octets and with any receiver the two loops of `UnmarshalBinary`, over the nested tags and
-- over the values, end by themselves: the fuel of the model, one unit for each octet and one more,
-- never runs out.
pub unmarshal_property-ends : (p : Property) (b : Bytes) → unmarshal_property p b ≢ err out_of_fuel
unmarshal_property-ends p b = Halts-ne (unmarshal_property-Halts p b)

-- The octets that the readers leave.
cut_value-Leaves :
    (len : ℤ) (r : ℕ) (bs : Bytes) → 1 ≤ length bs → 1 ≤ r → Leaves (length bs) (cut_value len r bs)
unfolding cut_value
cut_value-Leaves (negsuc n) r bs h k = leaves_err _ refl
cut_value-Leaves (pos n) r bs h k =
    Leaves-after (length bs) _ (Halts-check _ _ refl)
      (λ x. leaves_ok _ _ (omega (arith, length-drop n (drop r bs), length-drop r bs)))

pub read_value-Leaves :
    (t : Tag) (r : ℕ) (bs : Bytes)
    → 1 ≤ length bs
    → 1 ≤ r
    → Leaves (length bs) (read_value (t, r) bs)
unfolding read_value
read_value-Leaves t r bs h k = cut_value-Leaves t.len_value r bs h k

-- A header was read from some octet, and has an octet.
pub data Heads (bs : Bytes) : Result (Tag × ℕ) → Type 0 where
  heads_err : (e : Error) → is_fuel e ≡ false → Heads bs (err e)
  heads_ok : (t : Tag) (r : ℕ) → 1 ≤ length bs → 1 ≤ r → Heads bs (ok (t, r))

decode_header-Heads : (bs : Bytes) → Heads bs (decode_header bs)
unfolding decode_header
decode_header-Heads [] = heads_err _ refl
decode_header-Heads (b0 ∷ bs) = heads_of (decode_tag (b0 ∷ bs))
  where
    heads_of : (h : Tag × ℕ) → Heads (b0 ∷ bs) (check (not (h.1 == 0)) malformed_tag >>= λ x. ok h)
    heads_of (t, zero) = heads_err _ refl
    heads_of (t, suc r) =
        let some_octets : (suc r == 0) ≡ false = ground arith in
        rw some_octets (heads_ok t (suc r) (omega arith) (omega arith))

module _ {ℓ} {A : Type ℓ} (bs : Bytes) where
  pub Heads-bind :
      {n : ℕ} (next : Tag × ℕ → Result (A × Bytes))
      → ((t : Tag) (r : ℕ) → 1 ≤ length bs → 1 ≤ r → Leaves n (next (t, r)))
      → Leaves n (decode_header bs >>= next)
  Heads-bind {n} next k = heads _ (decode_header-Heads bs)
    where
      heads : (h : Result (Tag × ℕ)) → Heads bs h → Leaves n (h >>= next)
      heads _ (heads_err e p) = leaves_err e p
      heads _ (heads_ok t r p q) = k t r p q

  pub Heads-bind_round :
      (next : Tag × ℕ → Result (Round A))
      → ((t : Tag) (r : ℕ) → 1 ≤ length bs → 1 ≤ r → Advances (length bs) (next (t, r)))
      → Advances (length bs) (decode_header bs >>= next)
  Heads-bind_round next k = heads _ (decode_header-Heads bs)
    where
      heads : (h : Result (Tag × ℕ)) → Heads bs h → Advances (length bs) (h >>= next)
      heads _ (heads_err e p) = advances_err e p
      heads _ (heads_ok t r p q) = k t r p q

pub read_id-Leaves : (number : ℕ) (bs : Bytes) → Leaves (length bs) (read_id number bs)
unfolding read_id
read_id-Leaves number bs = Heads-bind bs _ (λ t r h k.
    Leaves-after (length bs) _ (Halts-check _ _ refl) (λ x.
      Leaves-bind (length bs) _ (read_value-Leaves t r bs h k)
        (λ value rest q. leaves_ok _ rest q)))

pub read_object-Leaves : (bs : Bytes) → Leaves (length bs) (read_object bs)
unfolding read_object
read_object-Leaves bs = Heads-bind bs _ (λ t r h k.
    Leaves-after (length bs) _ (Halts-check _ _ refl) (λ x.
      Leaves-bind (length bs) _ (read_value-Leaves t r bs h k) (λ value rest q.
        Leaves-after (length bs) _ (object-Halts value) (λ o. leaves_ok _ rest q))))
