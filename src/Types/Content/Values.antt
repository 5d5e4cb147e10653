-- ===== src/Types/Content/Values.antt =====
-- The values of a property, written and read back: bacnet/types/property.go.
use mathlib.Core.List.{append_assoc, append-nil}
use gobac.Prelude.{
  ℕ, zero, suc, ◌-◌, ◌+◌, ◌≤◌, ◌<◌, ◌≡◌, refl, ap, arith, List, [], ◌∷◌, ◌++◌, length,
}
use gobac.Prelude.{length-append, drop-append, take-append-append, All, map}
use gobac.Prelude.{false, ◌||◌}
use gobac.Prelude.Int.{pos}
use gobac.Result.{ok}
use gobac.Types.Bytes.{Bytes}
use gobac.Types.Tag.{Tag, decode_tag}
use gobac.Types.GoValue.{Floats}
use gobac.Types.PropertyValue.{PropertyValue, marshal, unmarshal, payload_length}
use gobac.Types.PropertyValue.RoundTrip.{
  Encodes, read_back, Encoding, encoding, unmarshal-marshal_value,
}
use gobac.Types.Content.{
  element, element_behind, next_element, read_values, values, marshal_values, fitting,
}
use gobac.Types.Content.Grammar.{Balanced, empty, item}

-- A value as it is read back: of the Go types of a float, `Real` and `Double`.
abbrev pub read_back_value : PropertyValue → PropertyValue
read_back_value p = record p { value = read_back p.value }

abbrev pub FitsTag : PropertyValue → Type 0
FitsTag p = Encodes p.type p.value

next_element-behind :
    (b : Bytes) (t : Tag) (r : ℕ)
    → decode_tag b ≡ (t, r)
    → 1 ≤ r
    → next_element b ≡ element_behind (t, r) b
unfolding next_element
next_element-behind [] t r e h =
    unfold decode_tag in absurd (omega (arith, ap (λ (p : Tag × ℕ). p.1) e))
next_element-behind (b0 ∷ b) t r e h = rw e

element_lem :
    (head payload rest : Bytes) (t : Tag) (v : PropertyValue)
    → 1 ≤ length head
    → (t.context || t.opening || t.closing) ≡ false
    → payload_length t ≡ pos (length payload)
    → unmarshal (head ++ payload) ≡ ok v
    → element_behind (t, length head) (head ++ (payload ++ rest))
      ≡ ok (element v (length head + length payload))
unfolding element_behind fitting
element_lem head payload rest t v h plain size e = ground (
  arith,
  length-append head (payload ++ rest),
  length-append payload rest,
  take-append-append head payload rest,
)

-- A value in front of any octets is read, with its size.
pub next_element-marshal :
    (f : Floats) (p : PropertyValue) (b rest : Bytes)
    → FitsTag p
    → marshal f p ≡ ok b
    → next_element (b ++ rest) ≡ ok (element (read_back_value p) (length b))
next_element-marshal f p b rest h e =
    let c = encoding f p b h e in
    let (b', e', u) = unmarshal-marshal_value f p [] h in
    let same : b' ≡ b = cc in
    let u' : unmarshal (c.head ++ c.payload) ≡ ok (read_back_value p) =
      rw (← c.parts, ← same, ← append-nil b') u in
    let size : length b ≡ length c.head + length c.payload =
      omega (arith, ap length c.parts, length-append c.head c.payload) in
    rw
      (
        size,
        c.parts,
        append_assoc c.head c.payload rest,
        next_element-behind _ c.tag (length c.head) (c.reads (c.payload ++ rest)) c.start,
      )
      (element_lem c.head c.payload rest c.tag (read_back_value p) c.start c.plain c.size u')

Encoding-Balanced : (b more : Bytes) → Encoding b → Balanced more → Balanced (b ++ more)
Encoding-Balanced b more c d =
    rw (c.parts, append_assoc c.head c.payload more)
      (item c.head c.payload more c.tag c.start c.reads (plain_tag c.tag c.plain)
        (ground (arith, c.plain, c.size)) d)
  where
    plain_tag :
        (t : Tag) → (t.context || t.opening || t.closing) ≡ false → (t.opening || t.closing) ≡ false
    plain_tag t h = ground arith

-- What the encodings of a list of values are: they were written without an error, their brackets
-- match, and the loop over the values reads them back.
pub record Written (f : Floats) (vs : List PropertyValue) : Type 0 where
  pub bytes : Bytes
  pub written : marshal_values f vs ≡ ok bytes
  pub balanced : Balanced bytes
  pub read :
      (fuel : ℕ) (rest : Bytes)
      → length bytes < fuel
      → read_values fuel (length bytes) (bytes ++ rest) ≡ ok (values (map read_back_value vs))

read_values-element :
    (fuel : ℕ) (b more rest : Bytes) (v : PropertyValue) (vs : List PropertyValue)
    → 1 ≤ length b
    → length (b ++ more) < fuel
    → next_element (b ++ (more ++ rest)) ≡ ok (element v (length b))
    → read_values (fuel - 1) (length more) (more ++ rest) ≡ ok (values vs)
    → read_values fuel (length (b ++ more)) ((b ++ more) ++ rest) ≡ ok (values (v ∷ vs))
unfolding read_values
read_values-element zero b more rest v vs h k e ih = absurd (omega arith)
read_values-element (suc fuel) b more rest v vs h k e ih =
    let size : length (b ++ more) ≡ suc (length b - 1 + length more) =
      omega (arith, length-append b more) in
    let ih' : read_values fuel (length more) (more ++ rest) ≡ ok (values vs) =
      let one : suc fuel - 1 ≡ fuel = omega arith in rw one at ih in
    let left : suc (length b - 1 + length more) - length b ≡ length more = omega arith in
    rw (append_assoc b more rest, size, e, left, drop-append b (more ++ rest), ih') refl

read_values_nil : (fuel : ℕ) (rest : Bytes) → 0 < fuel → read_values fuel 0 rest ≡ ok (values [])
unfolding read_values
read_values_nil zero rest h = absurd (omega arith)
read_values_nil (suc fuel) rest h = refl

pub written : (f : Floats) (vs : List PropertyValue) → All FitsTag vs → Written f vs
unfolding marshal_values
written f [] h = record { bytes = []; written = refl; balanced = empty; read = read_values_nil }
written f (v ∷ vs) (hv, h) =
    let (b, e, _) = unmarshal-marshal_value f v [] hv in
    let c = encoding f v b hv e in
    let w = written f vs h in
    let some_octets : 1 ≤ length b =
      omega (arith, c.start, ap length c.parts, length-append c.head c.payload) in
    record {
      bytes = b ++ w.bytes;
      written = rw (e, w.written);
      balanced = Encoding-Balanced b w.bytes c w.balanced;
      read = λ fuel rest le.
          read_values-element fuel b w.bytes rest (read_back_value v) (map read_back_value vs)
            some_octets le (next_element-marshal f v b (w.bytes ++ rest) hv e)
            (w.read (fuel - 1) rest (omega (arith, le, some_octets, length-append b w.bytes)));
    }
