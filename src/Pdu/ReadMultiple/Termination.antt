-- ===== src/Pdu/ReadMultiple/Termination.antt =====
-- The fuel of the decoders of bacnet/pdu/read_property_multiple.go.
use gobac.Prelude.{
  ℕ, zero, suc, ◌≤◌, ◌<◌, ◌≢◌, refl, arith, [], ◌∷◌, length, drop, length-drop, take,
}
use gobac.Prelude.{if◌then◌else◌}
use gobac.Result.{Result, ok, err, out_of_fuel, ◌>>=◌}
use gobac.Result.Halts.{Halts, Halts-ne, halts_ok, Halts-bind, Halts-check}
use gobac.Types.Bytes.{Bytes}
use gobac.Types.Tag.{Tag, decode_tag}
use gobac.Types.Content.{Element}
use gobac.Types.Content.Termination.{
  Consumes, consumes_err, consumes_raw, consumes_element, next_element-Consumes, value_bounds-Halts,
}
use gobac.Types.Property.{decode_header}
use gobac.Types.Property.Termination.{
  read_value-Leaves, read_id-Leaves, read_object-Leaves, Heads-bind, Heads-bind_round,
}
use gobac.Types.Repeat.{stop}
use gobac.Types.Repeat.Termination.{
  Leaves, leaves_err, leaves_ok, Leaves-bind, Leaves-after, Leaves-le, Leaves-if, Advances,
  advances_err, advances_stop, advances_item, Advances-bind, Advances-if, repeat_all-Halts,
  repeat_all-Leaves,
}
use gobac.Pdu.ReadMultiple.Request.{
  decode_opening, index_at, peek_index, decode_reference, as_item, closes, reference_round,
  decode_spec, spec_round, unmarshal_read_multiple,
}
use gobac.Pdu.ReadMultiple.Ack.{
  value_item, value_round, decode_values, decode_content, decode_enumerated, decode_error,
  decode_index, index_under, outcome_under, decode_outcome, decode_result, result_round,
  decode_access, access_round, unmarshal_ack,
}

decode_opening-Leaves : (number : ℕ) (bs : Bytes) → Leaves (length bs) (decode_opening number bs)
unfolding decode_opening
decode_opening-Leaves number bs = Heads-bind bs _ (λ t r h k.
    Leaves-after (length bs) _ (Halts-check _ _ refl)
      (λ x. leaves_ok _ _ (omega (arith, length-drop r bs))))

as_item-Advances {ℓ} :
    {A : Type ℓ} (n : ℕ) {r : Result (A × Bytes)} → Leaves n r → Advances n (as_item r)
as_item-Advances n h = Advances-bind n _ h (λ a rest k. advances_item a rest k)

index_at-Leaves :
    (t : Tag) (r number : ℕ) (bs : Bytes)
    → 1 ≤ length bs
    → Leaves (suc (length bs)) (index_at (t, r) number bs)
index_at-Leaves t zero number bs h = leaves_ok _ bs (omega arith)
index_at-Leaves t (suc r) number bs h =
    Leaves-if (suc (length bs)) _
      (Leaves-after (suc (length bs)) _ (Halts-check _ _ refl) (λ x.
        Leaves-bind (suc (length bs)) _
          (Leaves-le (length bs) _ (omega arith) (read_value-Leaves t (suc r) bs h (omega arith)))
          (λ value rest q. leaves_ok _ rest q)))
      (leaves_ok _ bs (omega arith))

peek_index-Leaves : (number : ℕ) (bs : Bytes) → Leaves (suc (length bs)) (peek_index number bs)
unfolding peek_index
peek_index-Leaves number [] = leaves_ok _ [] (omega arith)
peek_index-Leaves number (b0 ∷ bs) =
    let (t, r) = decode_tag (b0 ∷ bs) in index_at-Leaves t r number (b0 ∷ bs) (omega arith)

decode_reference-Leaves : (bs : Bytes) → Leaves (length bs) (decode_reference bs)
unfolding decode_reference
decode_reference-Leaves bs = Leaves-bind (length bs) _ (read_id-Leaves 0 bs) (λ id b1 h.
    Leaves-bind (length bs) _ (Leaves-le _ (length bs) (omega arith) (peek_index-Leaves 1 b1))
      (λ index rest k. leaves_ok _ rest k))

-- A list stops at its closing tag, or reads an item.
list_round-Advances {ℓ} :
    {A : Type ℓ} (bs : Bytes) {r : Result (A × Bytes)}
    → Leaves (length bs) r
    → Advances
        (length bs)
        (decode_header bs >>= λ (t, k). if closes t 1 then ok (stop (drop k bs)) else as_item r)
list_round-Advances bs h = Heads-bind_round bs _ (λ t k p q.
    Advances-if (length bs) _ (advances_stop _ (omega (arith, length-drop k bs)))
      (as_item-Advances (length bs) h))

reference_round-Advances : (bs : Bytes) → Advances (length bs) (reference_round bs)
unfolding reference_round
reference_round-Advances bs = list_round-Advances bs (decode_reference-Leaves bs)

decode_spec-Leaves : (bs : Bytes) → Leaves (length bs) (decode_spec bs)
unfolding decode_spec
decode_spec-Leaves bs = Leaves-bind (length bs) _ (read_object-Leaves bs) (λ o b1 h.
    Leaves-bind (length bs) _ (Leaves-le _ (length bs) (omega arith) (decode_opening-Leaves 1 b1))
      (λ found b2 k.
        Leaves-bind (length bs) _
          (Leaves-le _ (length bs) (omega arith)
            (repeat_all-Leaves reference_round reference_round-Advances b2))
          (λ properties rest q.
            Leaves-after (length bs) _ (Halts-check _ _ refl) (λ x. leaves_ok _ rest q))))

spec_round-Advances : (bs : Bytes) → Advances (length bs) (spec_round bs)
unfolding spec_round
spec_round-Advances [] = advances_stop [] (omega arith)
spec_round-Advances (b0 ∷ bs) = as_item-Advances (length (b0 ∷ bs)) (decode_spec-Leaves (b0 ∷ bs))

unmarshal_read_multiple-Halts : (bs : Bytes) → Halts (unmarshal_read_multiple bs)
unfolding unmarshal_read_multiple
unmarshal_read_multiple-Halts bs = Halts-bind _ (Halts-check _ _ refl) (λ x.
    Halts-bind _ (repeat_all-Halts spec_round spec_round-Advances bs)
      (λ y. Halts-bind _ (Halts-check _ _ refl) (λ z. halts_ok _)))

value_item-Advances :
    (bs : Bytes) {e : Result Element}
    → Consumes e
    → 1 ≤ length bs
    → Advances (length bs) (e >>= λ x. value_item x bs)
value_item-Advances bs (consumes_err e h) k = advances_err e h
value_item-Advances bs consumes_raw k = advances_err _ refl
value_item-Advances bs (consumes_element v n h) k =
    advances_item _ _ (omega (arith, length-drop n bs))

value_round-Advances : (bs : Bytes) → Advances (length bs) (value_round bs)
unfolding value_round
value_round-Advances [] = advances_stop [] (omega arith)
value_round-Advances (b0 ∷ bs) =
    value_item-Advances (b0 ∷ bs) (next_element-Consumes (b0 ∷ bs)) (omega arith)

pub decode_values-Halts : (bs : Bytes) → Halts (decode_values bs)
unfolding decode_values
decode_values-Halts bs =
    Halts-bind _ (repeat_all-Halts value_round value_round-Advances bs) (λ x. halts_ok _)

decode_content-Leaves :
    (number : ℕ) (bs : Bytes) → Leaves (suc (length bs)) (decode_content number bs)
unfolding decode_content
decode_content-Leaves number bs =
    Leaves-after (suc (length bs)) _
      (value_bounds-Halts (suc (length bs)) (number ∷ []) 0 bs (omega arith))
      (λ bounds.
        Leaves-after (suc (length bs)) _ (decode_values-Halts (take bounds.0 bs))
          (λ vs. leaves_ok _ _ (omega (arith, length-drop bounds.1 bs))))

decode_enumerated-Leaves : (bs : Bytes) → Leaves (length bs) (decode_enumerated bs)
unfolding decode_enumerated
decode_enumerated-Leaves bs = Heads-bind bs _ (λ t r h k.
    Leaves-after (length bs) _ (Halts-check _ _ refl) (λ x.
      Leaves-bind (length bs) _ (read_value-Leaves t r bs h k)
        (λ value rest q. leaves_ok _ rest q)))

decode_error-Leaves : (bs : Bytes) → Leaves (suc (length bs)) (decode_error bs)
unfolding decode_error
decode_error-Leaves bs =
    let n : ℕ = suc (length bs) in
    Leaves-bind n _ (Leaves-le _ n (omega arith) (decode_enumerated-Leaves bs)) (λ class b1 h.
      Leaves-bind n _ (Leaves-le _ n (omega arith) (decode_enumerated-Leaves b1)) (λ code b2 k.
        Leaves-le (length b2) n (omega arith) (
          Heads-bind b2 _ (λ t r p q.
            Leaves-after (length b2) _ (Halts-check _ _ refl)
              (λ x. leaves_ok _ _ (omega (arith, length-drop r b2)))))))

index_under-Leaves :
    (t : Tag) (r : ℕ) (bs : Bytes)
    → 1 ≤ length bs
    → 1 ≤ r
    → Leaves (suc (length bs)) (index_under (t, r) bs)
index_under-Leaves t r bs h k =
    Leaves-if (suc (length bs)) _
      (Leaves-after (suc (length bs)) _ (Halts-check _ _ refl) (λ x.
        Leaves-bind (suc (length bs)) _
          (Leaves-le (length bs) _ (omega arith) (read_value-Leaves t r bs h k))
          (λ value rest q. leaves_ok _ rest q)))
      (leaves_ok _ bs (omega arith))

decode_index-Leaves : (bs : Bytes) → Leaves (suc (length bs)) (decode_index bs)
unfolding decode_index
decode_index-Leaves bs = Heads-bind bs _ (λ t r h k. index_under-Leaves t r bs h k)

outcome_under-Leaves :
    (n : ℕ) (p : _) (t : Tag) (bs : Bytes) → length bs < n → Leaves n (outcome_under p t bs)
unfolding outcome_under
outcome_under-Leaves n p t bs h =
    Leaves-if n _
      (Leaves-bind n _ (Leaves-le _ n (omega arith) (decode_content-Leaves 4 bs))
        (λ vs rest k. leaves_ok _ rest k))
      (Leaves-if n _
        (Leaves-bind n _ (Leaves-le _ n (omega arith) (decode_error-Leaves bs))
          (λ e rest k. leaves_ok _ rest k))
        (leaves_err _ refl))

decode_result-Leaves : (bs : Bytes) → Leaves (length bs) (decode_result bs)
unfolding decode_result decode_outcome
decode_result-Leaves bs = Leaves-bind (length bs) _ (read_id-Leaves 2 bs) (λ id b1 h.
    Leaves-bind (length bs) _ (Leaves-le _ (length bs) (omega arith) (decode_index-Leaves b1))
      (λ index b2 k. Heads-bind b2 _ (λ t r p q.
        outcome_under-Leaves (length bs) _ t (drop r b2) (omega (arith, length-drop r b2)))))

result_round-Advances : (bs : Bytes) → Advances (length bs) (result_round bs)
unfolding result_round
result_round-Advances bs = list_round-Advances bs (decode_result-Leaves bs)

decode_access-Leaves : (bs : Bytes) → Leaves (length bs) (decode_access bs)
unfolding decode_access
decode_access-Leaves bs = Leaves-bind (length bs) _ (read_object-Leaves bs) (λ o b1 h.
    Leaves-bind (length bs) _ (Leaves-le _ (length bs) (omega arith) (decode_opening-Leaves 1 b1))
      (λ found b2 k.
        Leaves-bind (length bs) _
          (Leaves-le _ (length bs) (omega arith)
            (repeat_all-Leaves result_round result_round-Advances b2))
          (λ results rest q.
            Leaves-after (length bs) _ (Halts-check _ _ refl) (λ x. leaves_ok _ rest q))))

access_round-Advances : (bs : Bytes) → Advances (length bs) (access_round bs)
unfolding access_round
access_round-Advances [] = advances_stop [] (omega arith)
access_round-Advances (b0 ∷ bs) =
    as_item-Advances (length (b0 ∷ bs)) (decode_access-Leaves (b0 ∷ bs))

unmarshal_ack-Halts : (bs : Bytes) → Halts (unmarshal_ack bs)
unfolding unmarshal_ack
unmarshal_ack-Halts bs = Halts-bind _ (Halts-check _ _ refl) (λ x.
    Halts-bind _ (repeat_all-Halts access_round access_round-Advances bs)
      (λ y. Halts-bind _ (Halts-check _ _ refl) (λ z. halts_ok _)))

-- On any octets the nested loops of the two decoders of ReadPropertyMultiple, of the request and of
-- the acknowledgement, over the objects, their properties and results, the nested tags and the
-- values, end by themselves: the fuel of the model, one unit for each octet left and one more, never
-- runs out.
pub unmarshal_multiple_ends :
    (bs : Bytes)
    → (unmarshal_read_multiple bs ≢ err out_of_fuel) × (unmarshal_ack bs ≢ err out_of_fuel)
unmarshal_multiple_ends bs =
    (Halts-ne (unmarshal_read_multiple-Halts bs), Halts-ne (unmarshal_ack-Halts bs))
