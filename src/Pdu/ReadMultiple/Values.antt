-- ===== src/Pdu/ReadMultiple/Values.antt =====
-- decodePropertyResultValues of bacnet/pdu/read_property_multiple.go behind the encoder of values.
use mathlib.Core.List.{append-nil}
use gobac.Prelude.{◌≤◌, ◌≡◌, refl, ap, arith, List, [], ◌∷◌, ◌++◌, length, map, All}
use gobac.Prelude.{length-append, drop-append}
use gobac.Result.{ok}
use gobac.Types.Bytes.{Bytes}
use gobac.Types.GoValue.{Floats}
use gobac.Types.PropertyValue.{PropertyValue}
use gobac.Types.PropertyValue.RoundTrip.{encoding, unmarshal-marshal_value}
use gobac.Types.Repeat.{item}
use gobac.Types.Repeat.RoundTrip.{Items, no_items, one_more, repeat_all-Items}
use gobac.Types.Content.{marshal_values, element, next_element}
use gobac.Types.Content.Values.{FitsTag, read_back_value, next_element-marshal}
use gobac.Pdu.ReadMultiple.Ack.{value_round, decode_values}

-- Anything may follow a value.
abbrev Anything : Bytes → Type 0
Anything bs = Unit {0}

value_round-element :
    (b rest : Bytes) (v : PropertyValue)
    → 1 ≤ length b
    → next_element (b ++ rest) ≡ ok (element v (length b))
    → value_round (b ++ rest) ≡ ok (item v rest)
unfolding value_round
value_round-element [] rest v h e = absurd (omega arith)
value_round-element (b0 ∷ b) rest v h e = rw (e, drop-append (b0 ∷ b) rest) refl

values-Items :
    (f : Floats) (vs : List PropertyValue)
    → All FitsTag vs
    → (b : Bytes) × (marshal_values f vs ≡ ok b) × Items value_round read_back_value Anything vs b
unfolding marshal_values
values-Items f [] h = ([], refl, no_items)
values-Items f (v ∷ vs) (hv, h) =
    let (b, e, _) = unmarshal-marshal_value f v [] hv in
    let c = encoding f v b hv e in
    let (bs, es, items) = values-Items f vs h in
    let some_octets : 1 ≤ length b =
      omega (arith, c.start, ap length c.parts, length-append c.head c.payload) in
    (
      b ++ bs,
      rw (e, es) refl,
      one_more v b vs bs some_octets
          (λ rest _.
            value_round-element b rest _ some_octets (next_element-marshal f v b rest hv e))
          (λ rest. tt) items,
    )

pub decode-marshal_values :
    (f : Floats) (vs : List PropertyValue)
    → All FitsTag vs
    → (b : Bytes) × (marshal_values f vs ≡ ok b) × (decode_values b ≡ ok (map read_back_value vs))
unfolding decode_values value_round
decode-marshal_values f vs h =
    let (b, e, items) = values-Items f vs h in
    let read = repeat_all-Items value_round read_back_value Anything vs b [] [] items tt refl in
    (b, e, rw (rw (append-nil b) at read) refl)
