-- ===== src/Simulator/Services/WriteProperty.antt =====
-- decodeWriteProperty of simulator/services.go.
use mathlib.Core.List.{append-nil}
use gobac.Prelude.{
  ℕ, ◌^◌, ◌≤◌, ◌<◌, ◌≡◌, refl, arith, [], ◌∷◌, length, length-append, drop, drop-append,
}
use gobac.Prelude.{
  List, ◌==◌, ltb, leb, not, ◌||◌, ◌&&◌, if◌then◌else◌, map, false, Bool-cases, ◌⊎◌, inl, inr,
}
use gobac.Prelude.{some, ◌++◌}
use gobac.Result.{
  Result, ok, err, out_of_range, invalid_value, priority_out_of_range, ◌>>=◌, ◌>>◌, check,
}
use gobac.Types.Bytes.{Bytes}
use gobac.Types.Unsigned.{encode_var_uint, get_uint_len}
use gobac.Types.ObjectId.{ObjectId}
use gobac.Types.GoValue.{Floats, ObjectRef}
use gobac.Types.PropertyValue.{PropertyValue}
use gobac.Types.Context.{write_context, decode_context, decode_context_unsigned}
use gobac.Types.Context.RoundTrip.{decode_context_unsigned-write_context}
use gobac.Types.Content.Values.{read_back_value}
use gobac.Types.Property.{
  Property, writes_index, zero_property, marshal_property, unmarshal_property,
}
use gobac.Types.Property.RoundTrip.{IsProperty, index_read, unmarshal-marshal_property}
use gobac.Pdu.Property.{priority_bytes, marshal_with_priority, marshal_write_property}
use gobac.Simulator.Property.{Value, priority_slots}
use gobac.Simulator.SubscribeRequest.{from_object_id}
use gobac.Simulator.Services.Convert.{PropertyReference, from_property_value, from_pointers}
use gobac.Simulator.Services.ReadProperty.{reference_of, object_or_invalid}

pub record WriteRequest : Type 0 where
  pub object : ObjectRef
  pub reference : PropertyReference
  pub values : List Value
  pub priority : ℕ

-- The whole of the priority, or an error for a malformed one.
abbrev pub all_of_it : Result (ℕ × Bytes) → Result ℕ
all_of_it (err e) = err invalid_value
all_of_it (ok (n, rest)) = do check (length rest == 0) invalid_value; ok n

-- `errWritePriorityOutOfRange` is an error of its own.
abbrev pub in_slots : ℕ → Result ℕ
in_slots n = do check (not (ltb n 1 || ltb priority_slots n)) priority_out_of_range; ok n

-- The priority behind the property.
unfoldable pub decode_priority : Bytes → Result ℕ
decode_priority [] = ok 0
decode_priority (b0 ∷ bs) = all_of_it (decode_context_unsigned (b0 ∷ bs) 4) >>= λ n. in_slots n

unfoldable pub decode_write_property : Bytes → Result WriteRequest
unfolding decode_priority
decode_write_property bs = do
  p ← unmarshal_property zero_property bs
  o ← object_or_invalid p.object_id
  check (not (length p.values == 0)) invalid_value
  check (not (ltb (length bs) p.length)) invalid_value
  values ← from_pointers p.values
  priority ← decode_priority (drop p.length bs)
  ok (record {
    object = from_object_id o;
    reference = reference_of p;
    values = values;
    priority = priority;
  })

from_pointers-some :
    (vs : List PropertyValue) → from_pointers (map some vs) ≡ ok (map from_property_value vs)
unfolding from_pointers
from_pointers-some [] = refl
from_pointers-some (v ∷ vs) = rw (from_pointers-some vs)

-- The values as the simulator keeps them.
abbrev pub received : List PropertyValue → List Value
received vs = map from_property_value (map read_back_value vs)

abbrev pub request_of : Property → ObjectId → List PropertyValue → ℕ → WriteRequest
request_of p o vs n = record {
  object = from_object_id o;
  reference = record { id = p.id; array_index = index_read p };
  values = received vs;
  priority = n;
}

-- A property with values, and what stands behind it.
decode-behind :
    (f : Floats) (p : Property) (o : ObjectId) (v : PropertyValue) (vs : List PropertyValue)
    (rest : Bytes)
    → IsProperty p o (v ∷ vs)
    → (b : Bytes) × (marshal_property f p ≡ ok b)
      × (decode_write_property (b ++ rest)
          ≡ (decode_priority rest >>= λ n. ok (request_of p o (v ∷ vs) n)))
unfolding decode_write_property
decode-behind f p o v vs rest h =
    let (b, written, read) = unmarshal-marshal_property f p zero_property o (v ∷ vs) rest h tt in
    let size = length-append b rest in
    let fits : ltb (length (b ++ rest)) (length b) ≡ false = ground (arith, size) in
    (
      b,
      written,
      rw (read, h.0, fits, from_pointers-some (map read_back_value (v ∷ vs)), drop-append b rest)
          elim (Bool-cases (writes_index p)) [
            | inl e ↦ rw e (ground arith)
            | inr e ↦ rw e (ground arith)
          ],
    )

decode_priority-behind :
    (bs : Bytes) (n : ℕ)
    → decode_context_unsigned bs 4 ≡ ok (n, [])
    → decode_priority bs ≡ in_slots n
unfolding decode_priority
decode_priority-behind [] n e = unfold decode_context_unsigned decode_context in cc
decode_priority-behind (b0 ∷ bs) n e = rw e (ground arith)

decode_priority-context :
    (n : ℕ) → n < 2 ^ 32 → decode_priority (write_context 4 (encode_var_uint n)) ≡ in_slots n
decode_priority-context n fits =
    decode_priority-behind (write_context 4 (encode_var_uint n)) n
      (rw append-nil at (decode_context_unsigned-write_context 4 n [] (omega arith) fits))

-- A property in use with values, followed by a priority of 32 bits under the context tag 4, is decoded
-- by the simulator: into the object, the property, the index, the values and the priority where that
-- is from 1 to 16, and to the error of its own otherwise.
pub decode_write_property-priority :
    (f : Floats) (p : Property) (o : ObjectId) (v : PropertyValue) (vs : List PropertyValue) (n : ℕ)
    → IsProperty p o (v ∷ vs)
    → n < 2 ^ 32
    → (b : Bytes) × (marshal_property f p ≡ ok b)
      × (decode_write_property (b ++ write_context 4 (encode_var_uint n)) ≡ (
          if leb 1 n && leb n 16
          then ok (request_of p o (v ∷ vs) n)
          else err priority_out_of_range))
decode_write_property-priority f p o v vs n h fits =
    let bytes = write_context 4 (encode_var_uint n) in
    let (b, written, read) = decode-behind f p o v vs bytes h in
    (b, written, rw (read, decode_priority-context n fits) (ground arith))

decode_priority-bytes : (n : ℕ) → n ≤ 16 → decode_priority (priority_bytes n) ≡ ok n
decode_priority-bytes n h = elim (Bool-cases (ltb 0 n)) [
  | inl e ↦
      let octet : encode_var_uint n ≡ n ∷ [] =
        unfold encode_var_uint get_uint_len in ground arith in
      rw (e, ← octet, decode_priority-context n (omega arith)) (ground arith)
  | inr e ↦ unfold decode_priority in ground arith
]

-- What the client sends as a WriteProperty request is what the simulator decodes: the object, the
-- property, the index, the values and the priority, 0 where the client sends none. The property is
-- in use and has values, and the priority is at most 16; above it the client refuses to encode.
pub decode_write_property-marshal :
    (f : Floats) (p : Property) (o : ObjectId) (v : PropertyValue) (vs : List PropertyValue) (n : ℕ)
    → IsProperty p o (v ∷ vs)
    → ((n ≤ 16)
        × (b : Bytes) × (marshal_write_property f (record { property = some p; priority = n })
            ≡ ok b)
        × (decode_write_property b ≡ ok (request_of p o (v ∷ vs) n)))
      ⊎ ((16 < n)
          × (marshal_write_property f (record { property = some p; priority = n })
              ≡ err out_of_range))
decode_write_property-marshal f p o v vs n h = elim (Bool-cases (ltb 16 n)) [
  | inl large ↦
      inr (ground arith, unfold marshal_write_property marshal_with_priority in rw large refl)
  | inr small ↦
      let (b, written, read) = decode-behind f p o v vs (priority_bytes n) h in
      inl (
        ground arith,
        b ++ priority_bytes n,
        unfold marshal_write_property marshal_with_priority in rw (small, written) refl,
        rw (read, decode_priority-bytes n (ground arith)) refl,
      )
]
