-- ===== src/Simulator/Services/Termination.antt =====
-- The fuel of the decoders of simulator/services.go.
use gobac.Prelude.{
  ℕ, suc, ◌≤◌, ◌≢◌, refl, arith, [], ◌∷◌, length, drop, length-drop, Option, none, some, ltb,
}
use gobac.Result.{Result, err, out_of_fuel, ◌>>=◌}
use gobac.Result.Halts.{Halts, Halts-ne, halts_ok, Halts-bind, Halts-check}
use gobac.Types.Bytes.{Bytes}
use gobac.Types.PropertyValue.Fuel.{object-Halts}
use gobac.Types.Context.{try_decode_context_unsigned}
use gobac.Types.Context.Termination.{
  behind_optional, decode_context-Leaves, decode_context_unsigned-Leaves, try_decode-le,
  is_constructed_tag-Halts, decode_constructed_tag-Halts,
}
use gobac.Types.Content.{Element, next_element}
use gobac.Types.Content.Termination.{
  Consumes, consumes_err, consumes_raw, consumes_element, next_element-Consumes,
}
use gobac.Types.Repeat.Termination.{
  Leaves, leaves_ok, Leaves-bind, Leaves-after, Leaves-le, Advances, advances_err, advances_stop,
  advances_item, Advances-bind, Advances-after, Advances-if, repeat_all-Halts, repeat_all-Leaves,
}
use gobac.Simulator.Services.ReadMultiple.{
  decode_object, decode_reference, reference_round, decode_specification, specification_round,
  decode_read_property_multiple, as_item,
}
use gobac.Simulator.Services.WriteMultiple.{
  value_item, one_value, value_round, optional_priority, decode_write, write_round,
  decode_write_specification, write_specification_round, decode_write_property_multiple,
}

decode_object-Leaves : (bs : Bytes) → Leaves (length bs) (decode_object bs)
unfolding decode_object
decode_object-Leaves bs = Leaves-bind (length bs) _ (decode_context-Leaves bs 0) (λ value rest h.
    Leaves-after (length bs) _ (Halts-check _ _ refl)
      (λ x. Leaves-after (length bs) _ (object-Halts value) (λ o. leaves_ok _ rest h)))

decode_reference-Leaves : (bs : Bytes) → Leaves (length bs) (decode_reference bs)
unfolding decode_reference
decode_reference-Leaves bs =
    Leaves-bind (length bs) _ (decode_context_unsigned-Leaves bs 0)
      (λ id rest h. leaves_ok _ _ (omega (arith, h, try_decode-le rest 1)))

as_item-Advances {ℓ} :
    {A : Type ℓ} (n : ℕ) {r : Result (A × Bytes)} → Leaves n r → Advances n (as_item r)
as_item-Advances n h = Advances-bind n _ h (λ a rest k. advances_item a rest k)

reference_round-Advances : (bs : Bytes) → Advances (length bs) (reference_round bs)
unfolding reference_round
reference_round-Advances bs = Advances-after (length bs) _ (is_constructed_tag-Halts bs 1 _) (λ n.
    Advances-if (length bs) (ltb 0 n) (advances_stop _ (omega (arith, length-drop n bs)))
      (as_item-Advances (length bs) (decode_reference-Leaves bs)))

decode_specification-Leaves : (bs : Bytes) → Leaves (length bs) (decode_specification bs)
unfolding decode_specification
decode_specification-Leaves bs = Leaves-bind (length bs) _ (decode_object-Leaves bs) (λ object b1 h.
    Leaves-after (length bs) _ (decode_constructed_tag-Halts b1 1 _) (λ n.
      Leaves-bind (length bs) _
        (Leaves-le _ (length bs) (omega (arith, h, length-drop n b1))
          (repeat_all-Leaves reference_round reference_round-Advances (drop n b1)))
        (λ properties rest k.
          Leaves-after (length bs) _ (Halts-check _ _ refl) (λ x. leaves_ok _ rest k))))

specification_round-Advances : (bs : Bytes) → Advances (length bs) (specification_round bs)
unfolding specification_round
specification_round-Advances [] = advances_stop [] (omega arith)
specification_round-Advances (b0 ∷ bs) =
    as_item-Advances (length (b0 ∷ bs)) (decode_specification-Leaves (b0 ∷ bs))

decode_read_property_multiple-Halts : (bs : Bytes) → Halts (decode_read_property_multiple bs)
unfolding decode_read_property_multiple
decode_read_property_multiple-Halts bs =
    Halts-bind _ (repeat_all-Halts specification_round specification_round-Advances bs)
      (λ x. Halts-bind _ (Halts-check _ _ refl) (λ y. halts_ok _))

value_item-Advances :
    (bs : Bytes) {e : Result Element}
    → Consumes e
    → 1 ≤ length bs
    → Advances (length bs) (e >>= λ x. value_item x bs)
value_item-Advances bs (consumes_err e h) k = advances_err e h
value_item-Advances bs consumes_raw k = advances_err _ refl
value_item-Advances bs (consumes_element v n h) k =
    advances_item _ _ (omega (arith, length-drop n bs))

one_value-Advances : (bs : Bytes) → Advances (length bs) (one_value bs)
one_value-Advances [] = unfold next_element in advances_err _ refl
one_value-Advances (b0 ∷ bs) =
    value_item-Advances (b0 ∷ bs) (next_element-Consumes (b0 ∷ bs)) (omega arith)

value_round-Advances : (bs : Bytes) → Advances (length bs) (value_round bs)
unfolding value_round
value_round-Advances bs = Advances-after (length bs) _ (is_constructed_tag-Halts bs 2 _) (λ n.
    Advances-if (length bs) (ltb 0 n) (advances_stop _ (omega (arith, length-drop n bs)))
      (one_value-Advances bs))

optional_priority-Leaves :
    (o : Option (ℕ × Bytes)) (bs : Bytes)
    → length (behind_optional o bs) ≤ length bs
    → Leaves (suc (length bs)) (optional_priority o bs)
optional_priority-Leaves none bs h = leaves_ok _ bs (omega arith)
optional_priority-Leaves (some (n, rest)) bs h =
    Leaves-after (suc (length bs)) _ (Halts-check _ _ refl) (λ x. leaves_ok _ rest (omega arith))

decode_write-Leaves : (bs : Bytes) → Leaves (length bs) (decode_write bs)
unfolding decode_write
decode_write-Leaves bs = Leaves-bind (length bs) _ (decode_reference-Leaves bs) (λ reference b1 h.
    Leaves-after (length bs) _ (decode_constructed_tag-Halts b1 2 _) (λ n.
      Leaves-bind (length bs) _
        (Leaves-le _ (length bs) (omega (arith, h, length-drop n b1))
          (repeat_all-Leaves value_round value_round-Advances (drop n b1)))
        (λ values b2 k. Leaves-after (length bs) _ (Halts-check _ _ refl) (λ x.
          Leaves-bind (length bs) _
            (Leaves-le _ (length bs) (omega (arith, k))
              (optional_priority-Leaves (try_decode_context_unsigned b2 3) b2 (try_decode-le b2 3)))
            (λ priority rest q. leaves_ok _ rest q)))))

write_round-Advances : (bs : Bytes) → Advances (length bs) (write_round bs)
unfolding write_round
write_round-Advances bs = Advances-after (length bs) _ (is_constructed_tag-Halts bs 1 _) (λ n.
    Advances-if (length bs) (ltb 0 n) (advances_stop _ (omega (arith, length-drop n bs)))
      (as_item-Advances (length bs) (decode_write-Leaves bs)))

decode_write_specification-Leaves :
    (bs : Bytes) → Leaves (length bs) (decode_write_specification bs)
unfolding decode_write_specification
decode_write_specification-Leaves bs =
    Leaves-bind (length bs) _ (decode_object-Leaves bs) (λ object b1 h.
      Leaves-after (length bs) _ (decode_constructed_tag-Halts b1 1 _) (λ n.
        Leaves-bind (length bs) _
          (Leaves-le _ (length bs) (omega (arith, h, length-drop n b1))
            (repeat_all-Leaves write_round write_round-Advances (drop n b1)))
          (λ properties rest k.
            Leaves-after (length bs) _ (Halts-check _ _ refl) (λ x. leaves_ok _ rest k))))

write_specification_round-Advances :
    (bs : Bytes) → Advances (length bs) (write_specification_round bs)
unfolding write_specification_round
write_specification_round-Advances [] = advances_stop [] (omega arith)
write_specification_round-Advances (b0 ∷ bs) =
    as_item-Advances (length (b0 ∷ bs)) (decode_write_specification-Leaves (b0 ∷ bs))

decode_write_property_multiple-Halts : (bs : Bytes) → Halts (decode_write_property_multiple bs)
unfolding decode_write_property_multiple
decode_write_property_multiple-Halts bs =
    Halts-bind _ (repeat_all-Halts write_specification_round write_specification_round-Advances bs)
      (λ x. Halts-bind _ (Halts-check _ _ refl) (λ y. halts_ok _))

-- On any octets the nested loops of `decodeReadPropertyMultiple` and of
-- `decodeWritePropertyMultiple`, over the objects, their properties and their values, end by
-- themselves: the fuel of the model, one unit for each octet left and one more, never runs out.
pub decode_multiple_ends :
    (bs : Bytes)
    → (decode_read_property_multiple bs ≢ err out_of_fuel)
      × (decode_write_property_multiple bs ≢ err out_of_fuel)
decode_multiple_ends bs = (
  Halts-ne (decode_read_property_multiple-Halts bs),
  Halts-ne (decode_write_property_multiple-Halts bs),
)
