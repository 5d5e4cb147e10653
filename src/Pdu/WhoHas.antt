-- ===== src/Pdu/WhoHas.antt =====
-- WhoHas of bacnet/pdu/who_has.go. The number of octets consumed is given by the octets that are left.
use mathlib.Core.List.{append_assoc, append-nil}
use gobac.Prelude.{
  ℕ, ◌+◌, ◌^◌, ◌≤◌, ◌<◌, ◌≡◌, refl, sym, ap, ◌∙◌, arith, [], ◌∷◌, ◌++◌, length, Bool, true, false,
  not,
}
use gobac.Prelude.{◌==◌, leb, if◌then◌else◌, Option, none, some, inl, inr, ◌⊎◌}
use gobac.Prelude.Int.{ℤ, pos, negsuc}
use gobac.Result.{Result, ok, err, empty_input, unexpected_tag, wrong_size, invalid_value}
use gobac.Result.{◌>>=◌, ◌>>◌, check}
use gobac.Types.Bytes.{Bytes}
use gobac.Types.Tag.{Tag}
use gobac.Types.Unsigned
use gobac.Types.Unsigned.{encode_var_uint}
use gobac.Types.Scalars.{marshal_character_string, unmarshal_character_string}
use gobac.Types.ObjectId
use gobac.Types.ObjectId.{ObjectId}
use gobac.Types.ObjectId.RoundTrip.{IsObjectId, unmarshal-marshal_object}
use gobac.Types.Context.{write_context, is_primitive}
use gobac.Types.Context.RoundTrip.{write_context-pos}
use gobac.Types.Unsigned.RoundTrip.{encode_var_uint_shape}
use gobac.Types.Property.{decode_header, read_value, has_size, read_id, read_index, index_behind}
use gobac.Types.Property.Fields.{
  decode_header-write_context, read_value-write_context, read_id-bytes, read_index-behind,
  read_index-bytes, field_header,
}

pub record WhoHas : Type 0 where
  pub low_limit : ℕ
  pub high_limit : ℕ
  pub has_range : Bool
  pub object_id : Option ObjectId
  pub object_name : Bytes

abbrev range_bytes : WhoHas → Bytes
range_bytes w =
    if w.has_range
    then (write_context 0 (encode_var_uint w.low_limit)
        ++ write_context 1 (encode_var_uint w.high_limit))
    else []

-- Exactly one of an object identifier and a name.
abbrev marshal_selector : Option ObjectId → Bytes → Result Bytes
marshal_selector (some o) [] = ok (write_context 2 (ObjectId.marshal o))
marshal_selector none (b ∷ name) =
    ok (write_context 3 (marshal_character_string (record { value = b ∷ name; encoding = 0 })))
marshal_selector _ _ = err invalid_value

-- `MarshalBinary`
unfoldable pub marshal_who_has : WhoHas → Result Bytes
marshal_who_has w = do
  selector ← marshal_selector w.object_id w.object_name
  ok (range_bytes w ++ selector)

-- The limits, if the first one is there.
abbrev high_behind : Option ℕ × Bytes → Result (Option (ℕ × ℕ) × Bytes)
high_behind (none, bs) = ok (none, bs)
high_behind (some low, bs) = do (high, rest) ← read_id 1 bs; ok (some (low, high), rest)

abbrev some_size : ℤ → Bool
some_size (negsuc n) = false
some_size (pos n) = leb 1 n

-- The selector, up to the end of the data.
unfoldable pub selector_behind : Tag × ℕ → Bytes → Result (Option ObjectId × Bytes)
selector_behind header bs =
    if is_primitive header.0 2
    then (do
      check (has_size header.0.len_value 4 4) wrong_size
      (value, rest) ← read_value header bs
      o ← ObjectId.unmarshal ObjectId.zero_object value
      check (length rest == 0) invalid_value
      ok (some o, []))
    else if is_primitive header.0 3
    then (do
      check (some_size header.0.len_value) wrong_size
      (value, rest) ← read_value header bs
      cs ← unmarshal_character_string value
      check (length rest == 0) invalid_value
      ok (none, cs.value))
    else err unexpected_tag

abbrev request_of : Option (ℕ × ℕ) → Option ObjectId × Bytes → WhoHas
request_of none (o, name) = record {
  low_limit = 0;
  high_limit = 0;
  has_range = false;
  object_id = o;
  object_name = name;
}
request_of (some (low, high)) (o, name) = record {
  low_limit = low;
  high_limit = high;
  has_range = true;
  object_id = o;
  object_name = name;
}

-- `UnmarshalBinary`
unfoldable pub unmarshal_who_has : Bytes → Result WhoHas
unfolding selector_behind
unmarshal_who_has bs = do
  check (not (length bs == 0)) empty_input
  low ← read_index 0 bs
  (range, rest) ← high_behind low
  header ← decode_header rest
  selector ← selector_behind header rest
  ok (request_of range selector)

-- Limits of 32 bits, or none and zero; an object in use, or a name that is not empty.
abbrev IsRange : WhoHas → Type 0
IsRange w =
    (w.low_limit < 2 ^ 32)
    × (w.high_limit < 2 ^ 32)
    × ((w.has_range ≡ true) ⊎ ((w.has_range ≡ false) × (w.low_limit ≡ 0) × (w.high_limit ≡ 0)))

abbrev IsSelector : Option ObjectId → Bytes → Type 0
IsSelector (some o) name = (name ≡ []) × IsObjectId o
IsSelector none name = (1 ≤ length name) × (length name + 1 < 2 ^ 32)

-- A selector's octets, its header, and what the decoder reads behind it.
abbrev SelectorRead : Option ObjectId → Bytes → Type 0
SelectorRead o name =
    (s : Bytes) × (header : Tag × ℕ) × (marshal_selector o name ≡ ok s)
    × (decode_header s ≡ ok header)
    × (is_primitive header.0 0 ≡ false)
    × (selector_behind header s ≡ ok (o, name))
    × (1 ≤ length s)

selector-read : (o : Option ObjectId) (name : Bytes) → IsSelector o name → SelectorRead o name
unfolding selector_behind marshal_character_string unmarshal_character_string
selector-read (some o) name (e, h) =
    let value = ObjectId.marshal o in
    let four : length value ≡ 4 = unfold ObjectId.marshal Unsigned.marshal_uint32 in refl in
    let header =
      rw (append-nil (write_context 2 value)) at
        (decode_header-write_context 2 value [] (omega arith) (omega (arith, four))) in
    let read =
      rw (append-nil (write_context 2 value)) at
        (read_value-write_context 2 value [] (omega arith) (omega (arith, four))) in
    (
      write_context 2 value,
      field_header 2 value,
      rw e refl,
      header,
      refl,
      rw (e, read, unmarshal-marshal_object ObjectId.zero_object o h) (ground (arith, four)),
      rw (append-nil (write_context 2 value)) at
          (write_context-pos 2 value [] (omega arith) (omega (arith, four))),
    )
selector-read none [] (some_octet, h) = absurd (omega arith)
selector-read none (b ∷ bs) (some_octet, h) =
    let value : Bytes = 0 ∷ b ∷ bs in
    let header =
      rw (append-nil (write_context 3 value)) at
        (decode_header-write_context 3 value [] (omega arith) (omega (arith, h))) in
    let read =
      rw (append-nil (write_context 3 value)) at
        (read_value-write_context 3 value [] (omega arith) (omega (arith, h))) in
    (
      write_context 3 value,
      field_header 3 value,
      refl,
      header,
      refl,
      rw read (ground arith),
      rw (append-nil (write_context 3 value)) at
          (write_context-pos 3 value [] (omega arith) (omega (arith, h))),
    )

module _ (w : WhoHas) (s : Bytes) (header : Tag × ℕ) (decoded : decode_header s ≡ ok header)
    (read : selector_behind header s ≡ ok (w.object_id, w.object_name)) where
  read-with_range :
      w.low_limit < 2 ^ 32
      → w.high_limit < 2 ^ 32
      → w.has_range ≡ true
      → unmarshal_who_has (
          (write_context 0 (encode_var_uint w.low_limit)
            ++ write_context 1 (encode_var_uint w.high_limit))
          ++ s)
        ≡ ok w
  unfolding unmarshal_who_has
  read-with_range low high e =
      let value = encode_var_uint w.low_limit in
      let behind = write_context 1 (encode_var_uint w.high_limit) ++ s in
      let few : length value < 2 ^ 32 = omega (arith, encode_var_uint_shape w.low_limit) in
      let some_octets = write_context-pos 0 value behind (omega arith) few in
      let not_empty : (length (write_context 0 value ++ behind) == 0) ≡ false =
        ground (arith, some_octets) in
      rw
        (
          append_assoc (write_context 0 value) (write_context 1 (encode_var_uint w.high_limit)) s,
          not_empty,
          read_index-bytes 0 w.low_limit behind (omega arith) low,
          read_id-bytes 1 w.high_limit s (omega arith) high,
          decoded,
          read,
        )
        (λ i. ok (record w { has_range = sym e i }))

  read-without :
      1 ≤ length s
      → is_primitive header.0 0 ≡ false
      → w.has_range ≡ false
      → w.low_limit ≡ 0
      → w.high_limit ≡ 0
      → unmarshal_who_has s ≡ ok w
  unfolding unmarshal_who_has index_behind
  read-without some_octets other e e0 e1 =
      let not_empty : (length s == 0) ≡ false = ground (arith, some_octets) in
      rw (not_empty, read_index-behind 0 s header decoded, other, decoded, read)
        (λ i. ok (record w { low_limit = sym e0 i; high_limit = sym e1 i; has_range = sym e i }))

-- What `MarshalBinary` writes for a request with limits of 32 bits, or none and zero, and either an object
-- identifier in use or a name that is not empty is what `UnmarshalBinary` reads.
pub unmarshal-marshal_who_has :
    (w : WhoHas)
    → IsRange w
    → IsSelector w.object_id w.object_name
    → (b : Bytes) × (marshal_who_has w ≡ ok b) × (unmarshal_who_has b ≡ ok w)
unfolding marshal_who_has
unmarshal-marshal_who_has w (low, high, r) selector =
    let (s, header, written, decoded, other, read, some_octets) =
      selector-read w.object_id w.object_name selector in
    (
      range_bytes w ++ s,
      rw written refl,
      elim r [
        | inl e ↦
            let range : range_bytes w
                ≡ write_context 0 (encode_var_uint w.low_limit)
                  ++ write_context 1 (encode_var_uint w.high_limit) =
              rw e refl in
            ap (λ b. unmarshal_who_has (b ++ s)) range
            ∙ read-with_range w s header decoded read low high e
        | inr (e, e0, e1) ↦
            let range : range_bytes w ≡ [] = rw e refl in
            ap (λ b. unmarshal_who_has (b ++ s)) range
            ∙ read-without w s header decoded read some_octets other e e0 e1
      ],
    )
