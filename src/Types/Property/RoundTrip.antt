-- ===== src/Types/Property/RoundTrip.antt =====
-- MarshalBinary and UnmarshalBinary of bacnet/types/property.go, one after the other.
use mathlib.Core.List.{append_assoc, append-nil}
use gobac.Prelude.{
  ℕ, suc, ◌+◌, ◌-◌, ◌^◌, ◌≤◌, ◌<◌, ◌≡◌, refl, arith, true, false, ◌&&◌, if◌then◌else◌, Bool,
  Bool-cases, inl, inr,
}
use gobac.Prelude.{
  List, [], ◌∷◌, ◌++◌, length, drop, length-append, drop-append, some, none, Option, map, All,
}
use gobac.Result.{ok, ◌>>=◌}
use gobac.Types.Bytes.{Bytes}
use gobac.Types.Tag.{Tag, is_context}
use gobac.Types.Unsigned.{encode_var_uint}
use gobac.Types.Unsigned
use gobac.Types.ObjectId
use gobac.Types.ObjectId.{ObjectId}
use gobac.Types.ObjectId.RoundTrip.{IsObjectId}
use gobac.Types.GoValue.{Floats}
use gobac.Types.PropertyValue.{PropertyValue}
use gobac.Types.Context.{write_context, write_constructed_tag}
use gobac.Types.Content.{values, marshal_values, read_values}
use gobac.Types.Content.Grammar.{
  Balanced, bracket_header, decode_tag-write_constructed_tag, write_constructed_tag_pos,
  value_bounds-Balanced,
}
use gobac.Types.Content.Values.{read_back_value, FitsTag, written}
use gobac.Types.Property.{
  Property, array_all, marshal_pointers, object_bytes, writes_index, is_full, index_bytes,
  content_of, content_bytes, value_bytes, marshal_property, decode_header, read_object, read_index,
  index_behind, with_index, read_content, read_rest, read_fields, unmarshal_from,
  unmarshal_property, zero_property,
}
use gobac.Types.Property.Fields.{
  object_header, decode_header-behind, read_object-bytes, read_id-bytes, read_index-bytes,
  read_index-behind,
}

pub marshal_pointers-some :
    (f : Floats) (vs : List PropertyValue) → marshal_pointers f (map some vs) ≡ marshal_values f vs
unfolding marshal_pointers marshal_values
marshal_pointers-some f [] = refl
marshal_pointers-some f (v ∷ vs) = rw (marshal_pointers-some f vs)

-- The index as it is read back.
abbrev pub index_read : Property → Option ℕ
index_read p = if writes_index p then some p.index else none

decode_header-bracket :
    (opening : Bool) (number : ℕ) (rest : Bytes)
    → number < 256
    → decode_header (write_constructed_tag number opening ++ rest)
      ≡ ok (bracket_header opening number)
decode_header-bracket opening number rest byte =
    decode_header-behind _ _ _ (decode_tag-write_constructed_tag opening number rest byte)
      (write_constructed_tag_pos opening number)

-- A header was read, so the input is not empty.
read_rest-behind :
    (p : Property) (number size : ℕ) (bs : Bytes) (t : Tag) (r : ℕ)
    → decode_header bs ≡ ok (t, r)
    → (is_context t number && t.opening) ≡ true
    → read_rest p number size bs ≡ read_content p number (size - length (drop r bs)) (drop r bs)
unfolding read_rest
read_rest-behind p number size [] t r e h = unfold decode_header in cc
read_rest-behind p number size (b0 ∷ bs) t r e h = rw e (ground arith)

module _ (p : Property) (c rest : Bytes) (vs : List PropertyValue) (balanced : Balanced c)
    (reads : (fuel : ℕ) (more : Bytes)
      → length c < fuel
      → read_values fuel (length c) (c ++ more) ≡ ok (values vs)) where
  read_content-values :
      (start : ℕ)
      → read_content p 3 start (c ++ (write_constructed_tag 3 false ++ rest))
        ≡ ok (record p {
          values = map some vs;
          encoded_value = none;
          length = start + length c + length (write_constructed_tag 3 false);
        })
  unfolding read_content
  read_content-values start =
      let close_tag = write_constructed_tag 3 false in
      let left : start + length c - start ≡ length c = omega arith in
      rw
        (
          value_bounds-Balanced c rest 3 (suc (length (c ++ (close_tag ++ rest)))) start balanced
              (omega arith) (omega (arith, length-append c (close_tag ++ rest))),
          left,
          reads (suc (length c)) (close_tag ++ rest) (omega arith),
        )
        refl

  -- The value behind the fields, in front of any octets.
  read_rest-values :
      (size : ℕ)
      → length (value_bytes (some c)) + length rest ≤ size
      → read_rest p 3 size (value_bytes (some c) ++ rest)
        ≡ ok (record p { values = map some vs; encoded_value = none; length = size - length rest })
  unfolding value_bytes
  read_rest-values size le =
      let open_tag = write_constructed_tag 3 true in
      let close_tag = write_constructed_tag 3 false in
      let inner = c ++ (close_tag ++ rest) in
      let start : ℕ = size - length inner in
      let length_inner = length-append c (close_tag ++ rest) in
      let length_close = length-append close_tag rest in
      let place : size - length rest ≡ start + length c + length close_tag = omega (
        arith,
        le,
        length_inner,
        length_close,
        length-append open_tag (c ++ close_tag),
        length-append c close_tag,
      ) in
      rw
        (
          append_assoc open_tag (c ++ close_tag) rest,
          append_assoc c close_tag rest,
          read_rest-behind p 3 size (open_tag ++ inner) _ (length open_tag)
              (decode_header-bracket true 3 inner (omega arith)) refl,
          drop-append open_tag inner,
          place,
        )
        (read_content-values start)

unmarshal-behind :
    (q : Property) (b : Bytes) (t : Tag) (r : ℕ)
    → decode_header b ≡ ok (t, r)
    → is_full t ≡ true
    → unmarshal_property q b ≡ (
        read_object b >>= λ (o, b1).
        read_fields
          (record zero_property { ip_address = q.ip_address; object_id = some o })
          1
          (length b)
          b1)
unfolding unmarshal_property unmarshal_from decode_header
unmarshal-behind q [] t r e h = cc
unmarshal-behind q (b0 ∷ bs) t r e h = ground arith

-- What the decoder makes of the fields before the value.
module _ (p : Property) (o : ObjectId) (object : IsObjectId o) (small_id : p.id < 2 ^ 32)
    (tail : Bytes) (index : read_index 2 (index_bytes p ++ tail) ≡ ok (index_read p, tail)) where
  unmarshal-fields :
      (q : Property)
      → (b : Bytes)
      → b
        ≡ object_bytes (some o)
          ++ (write_context 1 (encode_var_uint p.id) ++ (index_bytes p ++ tail))
      → unmarshal_property q b
        ≡ read_rest
            (with_index
              (record zero_property { ip_address = q.ip_address; object_id = some o; id = p.id })
              (index_read p))
            3
            (length b)
            tail
  unfolding read_fields
  unmarshal-fields q b e =
      let fields = write_context 1 (encode_var_uint p.id) ++ (index_bytes p ++ tail) in
      let header = object_header o fields in
      rw e (
        rw
          (
            unmarshal-behind q (object_bytes (some o) ++ fields) _ _ header
                (unfold ObjectId.marshal Unsigned.marshal_uint32 in refl),
            read_object-bytes o fields object,
            read_id-bytes 1 p.id (index_bytes p ++ tail) (omega arith) small_id,
            index,
          )
          refl)

-- The index, if there is one, in front of the opening tag or of nothing.
read_index-values :
    (p : Property) (c rest : Bytes)
    → p.index < 2 ^ 32
    → read_index 2 (index_bytes p ++ (value_bytes (some c) ++ rest))
      ≡ ok (index_read p, value_bytes (some c) ++ rest)
unfolding index_bytes value_bytes
read_index-values p c rest fits = elim (Bool-cases (writes_index p)) [
  | inl e ↦ rw e (read_index-bytes 2 p.index _ (omega arith) fits)
  | inr e ↦
      let open_tag = write_constructed_tag 3 true in
      let inner = (c ++ write_constructed_tag 3 false) ++ rest in
      rw
        (
          e,
          append_assoc open_tag (c ++ write_constructed_tag 3 false) rest,
          read_index-behind 2 (open_tag ++ inner) _
              (decode_header-bracket true 3 inner (omega arith)),
        )
        (unfold index_behind in refl)
]

read_index-nothing :
    (p : Property) → p.index < 2 ^ 32 → read_index 2 (index_bytes p ++ []) ≡ ok (index_read p, [])
unfolding index_bytes
read_index-nothing p fits = elim (Bool-cases (writes_index p)) [
  | inl e ↦ rw e (read_index-bytes 2 p.index _ (omega arith) fits)
  | inr e ↦ rw e (unfold read_index in refl)
]

-- What the decoder makes of a property that was written, in front of `rest`.
abbrev pub property_read : Property → Property → List PropertyValue → ℕ → Property
property_read q p vs size = record {
  ip_address = q.ip_address;
  object_id = p.object_id;
  id = p.id;
  index = if writes_index p then p.index else array_all;
  has_index = writes_index p;
  values = map some (map read_back_value vs);
  encoded_value = none;
  priority = 0;
  length = size;
}

-- A property without values goes to the end of the input.
abbrev pub Ends : List PropertyValue → Bytes → Type 0
Ends [] rest = rest ≡ []
Ends (v ∷ vs) rest = Unit {0}

abbrev pub IsProperty : Property → ObjectId → List PropertyValue → Type 0
IsProperty p o vs =
    (p.object_id ≡ some o)
    × IsObjectId o
    × (p.id < 2 ^ 32)
    × (p.index < 2 ^ 32)
    × (p.values ≡ map some vs)
    × (p.encoded_value ≡ none)
    × All FitsTag vs

with_index-read :
    (q p : Property)
    → with_index q (index_read p) ≡ record q {
      index = if writes_index p then p.index else array_all;
      has_index = writes_index p;
    }
with_index-read q p = elim (Bool-cases (writes_index p)) [ inl e ↦ rw e | inr e ↦ rw e ]

-- The octets of a property with the given ones of the value.
abbrev assemble : Property → Option Bytes → Bytes
assemble p content =
    object_bytes p.object_id
    ++ (write_context 1 (encode_var_uint p.id) ++ (index_bytes p ++ value_bytes content))

assemble-append :
    (p : Property) (content : Option Bytes) (rest : Bytes)
    → assemble p content ++ rest
      ≡ object_bytes p.object_id
        ++ (write_context 1 (encode_var_uint p.id)
            ++ (index_bytes p ++ (value_bytes content ++ rest)))
assemble-append p content rest =
    rw
      (
        append_assoc (object_bytes p.object_id)
            (write_context 1 (encode_var_uint p.id) ++ (index_bytes p ++ value_bytes content)) rest,
        append_assoc (write_context 1 (encode_var_uint p.id)) (index_bytes p ++ value_bytes content)
            rest,
        append_assoc (index_bytes p) (value_bytes content) rest,
      )
      refl

assemble-size :
    (p : Property) (c rest : Bytes)
    → length (value_bytes (some c)) + length rest ≤ length (assemble p (some c) ++ rest)
assemble-size p c rest =
    let value = value_bytes (some c) in
    let id = write_context 1 (encode_var_uint p.id) in
    omega (
      arith,
      length-append (assemble p (some c)) rest,
      length-append (object_bytes p.object_id) (id ++ (index_bytes p ++ value)),
      length-append id (index_bytes p ++ value),
      length-append (index_bytes p) value,
    )

module _ (p q : Property) (o : ObjectId) (eo : p.object_id ≡ some o) (object : IsObjectId o)
    (small_id : p.id < 2 ^ 32) (small_index : p.index < 2 ^ 32) where
  unmarshal-request :
      unmarshal_property q (assemble p none ++ [])
      ≡ ok (property_read q p [] (length (assemble p none)))
  unfolding value_bytes
  unmarshal-request =
      let b = assemble p none in
      rw
        (
          append-nil b,
          unmarshal-fields p o object small_id [] (read_index-nothing p small_index) q b (rw eo),
          with_index-read _ p,
          eo,
        )
        (unfold read_rest in refl)

  unmarshal-values :
      (c rest : Bytes) (vs : List PropertyValue)
      → Balanced c
      → ((fuel : ℕ) (more : Bytes)
          → length c < fuel
          → read_values fuel (length c) (c ++ more) ≡ ok (values (map read_back_value vs)))
      → unmarshal_property q (assemble p (some c) ++ rest)
        ≡ ok (property_read q p vs (length (assemble p (some c))))
  unmarshal-values c rest vs balanced reads =
      let b = assemble p (some c) ++ rest in
      let tail = value_bytes (some c) ++ rest in
      let size : length b - length rest ≡ length (assemble p (some c)) =
        omega (arith, length-append (assemble p (some c)) rest) in
      let place : length (value_bytes (some c)) + length rest ≤ length b = assemble-size p c rest in
      rw
        (
          unmarshal-fields p o object small_id tail (read_index-values p c rest small_index) q b
              (rw (assemble-append p (some c) rest, eo)),
          with_index-read _ p,
          read_rest-values _ c rest (map read_back_value vs) balanced reads (length b) place,
          size,
          eo,
        )
        refl

-- A property with an object identifier in use, numbers of 32 bits and values that fit their tags is
-- written without an error, and `UnmarshalBinary` reads it back from the octets written, whatever
-- the receiver held: the object, the property, the values (of the two Go types of a float, `Real`
-- and `Double`), and the index, which is the one for the whole array when none was written. The
-- octets may be followed by any others if there are values, and `Length` counts those of the
-- property.
pub unmarshal-marshal_property :
    (f : Floats) (p q : Property) (o : ObjectId) (vs : List PropertyValue) (rest : Bytes)
    → IsProperty p o vs
    → Ends vs rest
    → (b : Bytes) × (marshal_property f p ≡ ok b)
      × (unmarshal_property q (b ++ rest) ≡ ok (property_read q p vs (length b)))
unfolding marshal_property content_bytes content_of
unmarshal-marshal_property f p q o [] rest (eo, ho, hid, hix, ev, ee, hv) ends =
    (assemble p none, rw (ee, ev), rw ends (unmarshal-request p q o eo ho hid hix))
unmarshal-marshal_property f p q o (v ∷ vs) rest (eo, ho, hid, hix, ev, ee, hv) ends =
    let w = written f (v ∷ vs) hv in
    (
      assemble p (some w.bytes),
      rw (ee, ev, marshal_pointers-some f (v ∷ vs), w.written),
      unmarshal-values p q o eo ho hid hix w.bytes rest (v ∷ vs) w.balanced w.read,
    )
