-- ===== src/Types/Content.antt =====
-- The value part of a property, between an opening and a closing tag: `propertyValueBounds` of
-- bacnet/types/property.go and the loop of `Property.UnmarshalBinary` over the values. Each loop
-- takes fuel for its rounds.
pub mod Termination
pub mod Grammar
pub mod Values
use gobac.Prelude.{
  ℕ, zero, suc, ◌+◌, ◌-◌, Bool, true, false, not, ◌&&◌, ◌||◌, ◌==◌, leb, if◌then◌else◌,
}
use gobac.Types.GoValue.{Floats}
use gobac.Prelude.{List, [], ◌∷◌, ◌++◌, length, take, drop}
use gobac.Prelude.Int.{ℤ, pos, negsuc}
use gobac.Result.{Result, ok, err, truncated, malformed_tag, unexpected_tag, out_of_fuel}
use gobac.Result.{◌>>=◌, ◌>>◌, check}
use gobac.Types.Bytes.{Bytes}
use gobac.Types.Tag.{Tag, decode_tag}
use gobac.Types.PropertyValue.{PropertyValue, payload_length, marshal, unmarshal}

-- A length field that the `room` octets left have place for.
unfoldable pub fitting : ℤ → ℕ → Result ℕ
fitting (negsuc n) room = err truncated
fitting (pos n) room = do check (leb n room) truncated; ok n

-- The octets that a primitive tag announces; a context tag always has its length.
abbrev pub announced : Tag → ℤ
announced t = if t.context then t.len_value else payload_length t

-- What one round of `propertyValueBounds` leaves: the bounds, or the stack, the offset and the octets
-- that remain.
pub data Progress : Type 0 where
  bounds : ℕ → ℕ → Progress
  onward : List ℕ → ℕ → Bytes → Progress

-- A closing tag at `start`; `offset` is behind it.
unfoldable pub close : List ℕ → ℕ → ℕ → ℕ → Bytes → Result Progress
close [] number start offset bs = err unexpected_tag
close (top ∷ []) number start offset bs =
    if top == number then ok (bounds start offset) else err unexpected_tag
close (top ∷ below ∷ stack) number start offset bs =
    if top == number then ok (onward (below ∷ stack) offset bs) else err unexpected_tag

unfoldable pub bounds_behind : Tag × ℕ → List ℕ → ℕ → Bytes → Result Progress
unfolding fitting close
bounds_behind (t, r) stack offset bs =
    if r == 0
    then err malformed_tag
    else if t.opening
    then ok (onward (t.tag_number ∷ stack) (offset + r) (drop r bs))
    else if t.closing
    then close stack t.tag_number offset (offset + r) (drop r bs)
    else (do
      n ← fitting (announced t) (length bs - r)
      ok (onward stack (offset + (r + n)) (drop (r + n) bs)))

unfoldable pub bounds_round : List ℕ → ℕ → Bytes → Result Progress
unfolding bounds_behind
bounds_round stack offset [] = err truncated
bounds_round stack offset (b0 ∷ bs) = bounds_behind (decode_tag (b0 ∷ bs)) stack offset (b0 ∷ bs)

-- The offsets before and behind the closing tag that matches the outer tag.
unfoldable pub value_bounds : ℕ → List ℕ → ℕ → Bytes → Result (ℕ × ℕ)
value_bounds zero stack offset bs = err out_of_fuel
value_bounds (suc fuel) stack offset bs = bounds_round stack offset bs >>= λ p. elim p [
  | bounds start stop ↦ ok (start, stop)
  | onward s o rest ↦ value_bounds fuel s o rest
]

-- One round of the loop over the values: a value with its size, or the finding that the content is
-- constructed.
pub data Element : Type 0 where
  constructed : Element
  element : PropertyValue → ℕ → Element

unfoldable pub element_behind : Tag × ℕ → Bytes → Result Element
unfolding fitting
element_behind (t, r) bs =
    if r == 0
    then err malformed_tag
    else if t.context || t.opening || t.closing
    then ok constructed
    else (do
      n ← fitting (payload_length t) (length bs - r)
      v ← unmarshal (take (r + n) bs)
      ok (element v (r + n)))

unfoldable pub next_element : Bytes → Result Element
unfolding element_behind
next_element [] = err truncated
next_element (b0 ∷ bs) = element_behind (decode_tag (b0 ∷ bs)) (b0 ∷ bs)

-- The values, or nothing when the content is constructed and is kept as it is.
pub data Content : Type 0 where
  raw : Content
  values : List PropertyValue → Content

abbrev pub prepend : PropertyValue → Content → Content
prepend v raw = raw
prepend v (values vs) = values (v ∷ vs)

-- The loop `for offset < contentEnd`: `left` octets of the content are to come, `bs` goes on to the
-- end of the input.
unfoldable pub read_values : ℕ → ℕ → Bytes → Result Content
read_values zero left bs = err out_of_fuel
read_values (suc fuel) zero bs = ok (values [])
read_values (suc fuel) (suc left) bs = next_element bs >>= λ e. elim e [
  | constructed ↦ ok raw
  | element v n ↦ (do c ← read_values fuel (suc left - n) (drop n bs); ok (prepend v c))
]

-- The values one after the other.
unfoldable pub marshal_values : Floats → List PropertyValue → Result Bytes
marshal_values f [] = ok []
marshal_values f (v ∷ vs) = do b ← marshal f v; more ← marshal_values f vs; ok (b ++ more)
