-- ===== src/Simulator/Services/ReadMultiple/Request.antt =====
-- The requests that bacnet/pdu/read_property_multiple.go writes, read by decodeReadPropertyMultiple of
-- simulator/services.go.
use mathlib.Core.List.{append_assoc, append-nil}
use gobac.Prelude.{ℕ, ◌^◌, ◌≤◌, ◌<◌, ◌≡◌, refl, arith, List, [], ◌∷◌, ◌++◌, length, map, All}
use gobac.Prelude.{length-map, length-append, drop-append, true, false, if◌then◌else◌}
use gobac.Prelude.{Option, none, some, Bool-cases, inl, inr}
use gobac.Result.{ok}
use gobac.Types.Bytes.{Bytes}
use gobac.Types.Unsigned
use gobac.Types.Unsigned.{encode_var_uint}
use gobac.Types.Unsigned.RoundTrip.{encode_var_uint_shape}
use gobac.Types.ObjectId
use gobac.Types.ObjectId.{ObjectId}
use gobac.Types.ObjectId.RoundTrip.{IsObjectId, unmarshal-marshal_object}
use gobac.Types.GoValue.{ObjectRef}
use gobac.Types.Context.{write_context, write_constructed_tag, try_decode_context_unsigned}
use gobac.Types.Context.RoundTrip.{
  decode_context-write_context, decode_context_unsigned-write_context, write_context-pos,
}
use gobac.Types.Context.Termination.{behind_optional}
use gobac.Types.Context.Tests.{
  is_constructed_tag-write_context, is_constructed_tag-write_constructed_tag,
  decode_constructed_tag-write_constructed_tag, try_decode-write_context, try_decode-other,
  try_decode-bracket,
}
use gobac.Types.Content.Grammar.{write_constructed_tag_pos}
use gobac.Types.Repeat.{stop, item}
use gobac.Types.Repeat.RoundTrip.{Items, no_items, one_more, repeat_all-Items}
use gobac.Pdu.ReadMultiple.Request
use gobac.Pdu.ReadMultiple.Request.{
  ReadAccessSpec, marshal_index, marshal_reference, marshal_references, with_list, marshal_spec,
  marshal_specs, marshal_read_multiple,
}
use gobac.Simulator.SubscribeRequest.{from_object_id}
use gobac.Simulator.Services.Convert.{PropertyReference}
use gobac.Simulator.Services.ReadMultiple.{
  ReadAccessSpecification, decode_object, decode_reference, number_of, reference_round,
  decode_specification, specification_round, decode_read_property_multiple, as_item,
}

-- A reference as the simulator keeps it.
abbrev pub received_reference : Request.PropertyReference → PropertyReference
received_reference p = record {
  id = p.id;
  array_index = if p.has_index then some p.index else none;
}

abbrev pub IsReference : Request.PropertyReference → Type 0
IsReference p = (p.id < 2 ^ 32) × (p.index < 2 ^ 32)

-- What may follow a reference: nothing that is read as its index.
abbrev pub NoIndex : Bytes → Type 0
NoIndex rest = try_decode_context_unsigned rest 1 ≡ none

few : (v : ℕ) → length (encode_var_uint v) < 2 ^ 32
few v = omega (arith, encode_var_uint_shape v)

-- The index of a reference, or what follows it.
index_lem :
    (p : Request.PropertyReference) (rest : Bytes)
    → p.index < 2 ^ 32
    → NoIndex rest
    → let o = try_decode_context_unsigned (marshal_index 1 p.has_index p.index ++ rest) 1 in
      (number_of o ≡ (if p.has_index then some p.index else none))
      × (behind_optional o (marshal_index 1 p.has_index p.index ++ rest) ≡ rest)
unfolding marshal_index
index_lem p rest fits follows = elim (Bool-cases p.has_index) [
  | inl e ↦ rw (e, try_decode-write_context 1 p.index rest (omega arith) fits) (refl, refl)
  | inr e ↦ rw (e, follows) (refl, refl)
]

reference_round-marshal :
    (p : Request.PropertyReference) (rest : Bytes)
    → IsReference p
    → NoIndex rest
    → reference_round (marshal_reference p ++ rest) ≡ ok (item (received_reference p) rest)
unfolding reference_round decode_reference
reference_round-marshal p rest (id, index) follows =
    let more = marshal_index 1 p.has_index p.index ++ rest in
    let (number, behind) = index_lem p rest index follows in
    rw
      (
        append_assoc (write_context 0 (encode_var_uint p.id)) (marshal_index 1 p.has_index p.index)
            rest,
        is_constructed_tag-write_context 0 1 false (encode_var_uint p.id) more (omega arith)
            (few p.id),
        decode_context_unsigned-write_context 0 p.id more (omega arith) id,
        number,
        behind,
      )
      refl

marshal_reference-NoIndex :
    (p : Request.PropertyReference) (rest : Bytes) → NoIndex (marshal_reference p ++ rest)
marshal_reference-NoIndex p rest =
    rw
      (append_assoc (write_context 0 (encode_var_uint p.id)) (marshal_index 1 p.has_index p.index)
        rest)
      (try_decode-other 0 1 (encode_var_uint p.id) _ (omega arith) (few p.id) refl)

marshal_reference-pos : (p : Request.PropertyReference) → 1 ≤ length (marshal_reference p)
marshal_reference-pos p =
    write_context-pos 0 (encode_var_uint p.id) (marshal_index 1 p.has_index p.index) (omega arith)
      (few p.id)

references-Items :
    (ps : List Request.PropertyReference)
    → All IsReference ps
    → Items reference_round received_reference NoIndex ps (marshal_references ps)
unfolding marshal_references
references-Items [] h = no_items
references-Items (p ∷ ps) (hp, h) =
    one_more p (marshal_reference p) ps (marshal_references ps) (marshal_reference-pos p)
      (λ rest follows. reference_round-marshal p rest hp follows) (marshal_reference-NoIndex p)
      (references-Items ps h)

-- The list stops at its closing tag.
reference_round-closing :
    (rest : Bytes) → reference_round (write_constructed_tag 1 false ++ rest) ≡ ok (stop rest)
unfolding reference_round
reference_round-closing rest =
    rw
      (
        is_constructed_tag-write_constructed_tag 1 false rest (omega arith),
        drop-append (write_constructed_tag 1 false) rest,
      )
      (ground (arith, write_constructed_tag_pos false 1))

pub decode_object-marshal :
    (o : ObjectId) (rest : Bytes)
    → IsObjectId o
    → decode_object (write_context 0 (ObjectId.marshal o) ++ rest) ≡ ok (from_object_id o, rest)
unfolding decode_object
decode_object-marshal o rest h =
    let value = ObjectId.marshal o in
    let four : length value ≡ 4 = unfold ObjectId.marshal Unsigned.marshal_uint32 in refl in
    rw
      (
        decode_context-write_context 0 value rest (omega arith) (omega (arith, four)),
        unmarshal-marshal_object ObjectId.zero_object o h,
      )
      (ground (arith, four))

-- A specification that the client encodes, for an object in use.
abbrev pub IsSpec : ReadAccessSpec → Type 0
IsSpec s =
    ((o : ObjectId) × (s.object_id ≡ some o) × IsObjectId o)
    × (1 ≤ length s.properties)
    × All IsReference s.properties

abbrev ref_or_zero : Option ObjectId → ObjectRef
ref_or_zero none = from_object_id ObjectId.zero_object
ref_or_zero (some o) = from_object_id o

-- A specification as the simulator reads it.
abbrev pub received_spec : ReadAccessSpec → ReadAccessSpecification
received_spec s = record {
  object = ref_or_zero s.object_id;
  properties = map received_reference s.properties;
}

decode_specification-marshal :
    (o : ObjectId) (ps : List Request.PropertyReference) (rest : Bytes)
    → IsObjectId o
    → 1 ≤ length ps
    → All IsReference ps
    → decode_specification (with_list o (marshal_references ps) ++ rest)
      ≡ ok (record { object = from_object_id o; properties = map received_reference ps }, rest)
unfolding decode_specification
decode_specification-marshal o ps rest ho some_property h =
    let open_tag = write_constructed_tag 1 true in
    let close_tag = write_constructed_tag 1 false in
    let refs = marshal_references ps in
    let behind = open_tag ++ (refs ++ (close_tag ++ rest)) in
    rw
      (
        append_assoc (write_context 0 (ObjectId.marshal o)) (open_tag ++ (refs ++ close_tag)) rest,
        append_assoc open_tag (refs ++ close_tag) rest,
        append_assoc refs close_tag rest,
        decode_object-marshal o behind ho,
        decode_constructed_tag-write_constructed_tag 1 true (refs ++ (close_tag ++ rest))
            (omega arith),
        drop-append open_tag (refs ++ (close_tag ++ rest)),
        repeat_all-Items reference_round received_reference NoIndex ps refs (close_tag ++ rest) rest
            (references-Items ps h) (try_decode-bracket 1 1 false rest (omega arith))
            (reference_round-closing rest),
      )
      (ground (arith, length-map ps received_reference))

specification_round-nonempty :
    (bs : Bytes) → 1 ≤ length bs → specification_round bs ≡ as_item (decode_specification bs)
unfolding specification_round
specification_round-nonempty [] h = absurd (omega arith)
specification_round-nonempty (b0 ∷ bs) h = refl

abbrev Anything : Bytes → Type 0
Anything rest = Unit {0}

with_list-pos : (o : ObjectId) (content rest : Bytes) → 1 ≤ length (with_list o content ++ rest)
with_list-pos o content rest =
    let list = write_constructed_tag 1 true ++ (content ++ write_constructed_tag 1 false) in
    omega (
      arith,
      write_context-pos 0 (ObjectId.marshal o) list (omega arith)
          (unfold ObjectId.marshal Unsigned.marshal_uint32 in omega arith),
      length-append (with_list o content) rest,
    )

-- The specifications that the client writes, as items of the simulator's loop.
specs-Items :
    (ss : List ReadAccessSpec)
    → All IsSpec ss
    → (bs : Bytes) × (marshal_specs ss ≡ ok bs)
      × Items specification_round received_spec Anything ss bs
unfolding marshal_specs marshal_spec
specs-Items [] h = ([], refl, no_items)
specs-Items (s ∷ ss) (((o, eo, ho), some_property, refs), h) =
    let (bs, written, d) = specs-Items ss h in
    let b = with_list o (marshal_references s.properties) in
    (
      b ++ bs,
      rw (eo, written) (ground arith),
      one_more s b ss bs
          (omega (arith, with_list-pos o (marshal_references s.properties) [], length-append b []))
          (λ rest follows.
            rw
              (
                specification_round-nonempty (b ++ rest)
                    (with_list-pos o (marshal_references s.properties) rest),
                decode_specification-marshal o s.properties rest ho some_property refs,
                eo,
              )
              refl)
          (λ rest. tt) d,
    )

-- What the client sends as a ReadPropertyMultiple request, of at least one specification, each for an
-- object in use with at least one property, and numbers of 32 bits, is what the simulator decodes:
-- the same objects, and for each the same properties with their indices, in the same order.
pub decode_read_property_multiple-marshal :
    (ss : List ReadAccessSpec)
    → 1 ≤ length ss
    → All IsSpec ss
    → (b : Bytes) × (marshal_read_multiple ss ≡ ok b)
      × (decode_read_property_multiple b ≡ ok (map received_spec ss))
unfolding marshal_read_multiple decode_read_property_multiple
decode_read_property_multiple-marshal ss some_spec h =
    let (b, written, d) = specs-Items ss h in
    (
      b,
      rw written (ground arith),
      rw (← append-nil b) (
          rw
            (repeat_all-Items specification_round received_spec Anything ss b [] [] d tt
              (unfold specification_round in refl))
            (ground (arith, length-map ss received_spec))),
    )
