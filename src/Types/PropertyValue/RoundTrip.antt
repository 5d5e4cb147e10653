-- ===== src/Types/PropertyValue/RoundTrip.antt =====
-- MarshalBinary and UnmarshalBinary of bacnet/types/property_value.go, one after the other.
use gobac.Prelude.{ℕ, ◌+◌, ◌^◌, ◌≤◌, ◌<◌, ◌≡◌, refl, ap, arith}
use gobac.Prelude.{ltb, true, false, ◌||◌, ◌==◌, if◌then◌else◌, ◌⊎◌, inl, inr}
use gobac.Prelude.{[], ◌∷◌, ◌++◌, length, length-append, take-append, drop-append, length-map}
use gobac.Prelude.Int.{pos}
use mathlib.Core.List.{append_assoc}
use native.Mathlib.Numerals.{add-one}
use gobac.Result.{ok}
use gobac.Types.Bytes.{Bytes, IsBytes}
use gobac.Types.Tag.{Tag, empty_tag, encode_tag, decode_tag}
use gobac.Types.Tag.RoundTrip.{decode_tag-encode_primitive, encode_primitive_pos}
use gobac.Types.Unsigned.{encode_var_uint, marshal_uint32}
use gobac.Types.Unsigned.RoundTrip.{encode_var_uint_shape, decode-encode_var_uint}
use gobac.Types.Signed.{encode_var_int}
use gobac.Types.Signed.RoundTrip.{IsI32, decode-encode_var_int, encode_var_int_shape}
use gobac.Types.Scalars.{marshal_character_string, unmarshal_character_string}
use gobac.Types.Scalars.{marshal_bit_string, marshal_date, marshal_time, marshal_real}
use gobac.Types.Scalars.{marshal_double, reverse8}
use gobac.Types.Scalars.RoundTrip.{IsDate, unmarshal-marshal_date, unmarshal-marshal_time}
use gobac.Types.Scalars.RoundTrip.{unmarshal-marshal_bit_string, unmarshal-marshal_real}
use gobac.Types.Scalars.RoundTrip.{unmarshal-marshal_double}
use gobac.Types.ObjectId
use gobac.Types.ObjectId.RoundTrip.{IsObjectId, unmarshal-marshal_object}
use gobac.Types.GoValue.{GoValue, nil, bool, uint32, int32, float32, float64, real, double}
use gobac.Types.GoValue.{octets, bit_string, character_string, date, time, object_id, text}
use gobac.Types.GoValue.{object_ref, Floats, is_nan32, convert_uint32, convert_int32}
use gobac.Types.GoValue.{convert_float32, convert_float64}
use gobac.Types.PropertyValue.{PropertyValue, payload_of, marshal, cut, value_of, payload_length}
use gobac.Types.PropertyValue.{unmarshal_behind, unmarshal}

-- A value that an application tag can hold: its Go type belongs to the tag, numbers are in the range
-- of their type, and a float that passed through `types.Real` is no NaN.
abbrev pub Encodes : ℕ → GoValue → Type 0
Encodes t nil = t ≡ 0
Encodes t (bool b) = t ≡ 1
Encodes t (uint32 n) = ((t ≡ 2) ⊎ (t ≡ 9)) × (n < 2 ^ 32)
Encodes t (int32 i) = (t ≡ 3) × IsI32 i
Encodes t (float32 b) = (t ≡ 4) × (b < 2 ^ 32)
Encodes t (real b) = (t ≡ 4) × (b < 2 ^ 32) × (is_nan32 b ≡ false)
Encodes t (float64 b) = (t ≡ 5) × (b < 2 ^ 64)
Encodes t (double b) = (t ≡ 5) × (b < 2 ^ 64)
Encodes t (octets bs) = (t ≡ 6) × (length bs < 2 ^ 32)
Encodes t (character_string cs) = (t ≡ 7) × (length cs.value + 1 < 2 ^ 32)
Encodes t (bit_string bs) = (t ≡ 8) × (length bs + 1 < 2 ^ 32) × IsBytes bs
Encodes t (date d) = (t ≡ 10) × IsDate d
Encodes t (time c) = t ≡ 11
Encodes t (object_id o) = (t ≡ 12) × IsObjectId o
Encodes t (text bs) = ⊥
Encodes t (object_ref o) = ⊥

-- The Go type of a float becomes that of its payload codec.
abbrev pub read_back : GoValue → GoValue
read_back (float32 b) = real b
read_back (float64 b) = double b
read_back v = v

-- The payload of a value.
wire_bytes : GoValue → Bytes
wire_bytes nil = []
wire_bytes (bool b) = []
wire_bytes (uint32 n) = encode_var_uint n
wire_bytes (int32 i) = encode_var_int i
wire_bytes (float32 b) = marshal_real b
wire_bytes (real b) = marshal_real b
wire_bytes (float64 b) = marshal_double b
wire_bytes (double b) = marshal_double b
wire_bytes (octets bs) = bs
wire_bytes (bit_string bs) = marshal_bit_string bs
wire_bytes (text bs) = bs
wire_bytes (character_string cs) = marshal_character_string cs
wire_bytes (date d) = marshal_date d
wire_bytes (time t) = marshal_time t
wire_bytes (object_id o) = ObjectId.marshal o
wire_bytes (object_ref o) = []

-- Its length field: of a Boolean, the value.
wire_length : GoValue → ℕ
unfolding wire_bytes
wire_length (bool true) = 1
wire_length v = length (wire_bytes v)

module _ (f : Floats) where
  payload_of-wire :
      (t : ℕ) (v : GoValue)
      → Encodes t v
      → payload_of f t v ≡ ok (pos (wire_length v), wire_bytes v)
  unfolding payload_of wire_length convert_uint32 convert_int32 convert_float32 convert_float64
      marshal_real marshal_uint32 marshal_double marshal_date marshal_time ObjectId.marshal
  payload_of-wire t nil h = rw h
  payload_of-wire t (bool true) h = rw h
  payload_of-wire t (bool false) h = rw h
  payload_of-wire t (uint32 n) (inl e, h) = rw e
  payload_of-wire t (uint32 n) (inr e, h) = rw e
  payload_of-wire t (int32 i) (e, h) = rw e
  payload_of-wire t (float32 b) (e, h) = rw e
  payload_of-wire t (real b) (e, h, k) = rw (e, f.narrow-widen b h k)
  payload_of-wire t (float64 b) (e, h) = rw e
  payload_of-wire t (double b) (e, h) = rw e
  payload_of-wire t (octets bs) (e, h) = rw e
  payload_of-wire t (character_string cs) (e, h) = rw (e, add-one (length cs.value))
  payload_of-wire t (bit_string bs) (e, h, k) = rw e
  payload_of-wire t (date d) (e, h) = rw e
  payload_of-wire t (time c) e = rw e
  payload_of-wire t (object_id o) (e, h) = rw e
  payload_of-wire t (text bs) h = absurd h
  payload_of-wire t (object_ref o) h = absurd h

value_of-wire :
    (t : ℕ) (v : GoValue)
    → Encodes t v
    → value_of t (pos (wire_length v)) (wire_bytes v) ≡ ok (read_back v)
unfolding value_of wire_length
value_of-wire t nil h = rw h
value_of-wire t (bool true) h = rw h
value_of-wire t (bool false) h = rw h
value_of-wire t (uint32 n) (inl e, h) =
    rw e (ground (arith, encode_var_uint_shape n, decode-encode_var_uint n h))
value_of-wire t (uint32 n) (inr e, h) =
    rw e (ground (arith, encode_var_uint_shape n, decode-encode_var_uint n h))
value_of-wire t (int32 i) (e, h) =
    rw e (ground (arith, encode_var_int_shape i, decode-encode_var_int i h))
value_of-wire t (float32 b) (e, h) = rw (e, unmarshal-marshal_real b h)
value_of-wire t (real b) (e, h, k) = rw (e, unmarshal-marshal_real b h)
value_of-wire t (float64 b) (e, h) = rw (e, unmarshal-marshal_double b h)
value_of-wire t (double b) (e, h) = rw (e, unmarshal-marshal_double b h)
value_of-wire t (octets bs) (e, h) = rw e
value_of-wire t (character_string cs) (e, h) =
    rw e (unfold marshal_character_string unmarshal_character_string in refl)
value_of-wire t (bit_string bs) (e, h, k) = rw (e, unmarshal-marshal_bit_string bs k)
value_of-wire t (date d) (e, h) = rw (e, unmarshal-marshal_date d h)
value_of-wire t (time c) e = rw (e, unmarshal-marshal_time c)
value_of-wire t (object_id o) (e, h) = rw (e, unmarshal-marshal_object ObjectId.zero_object o h)
value_of-wire t (text bs) h = absurd h
value_of-wire t (object_ref o) h = absurd h

-- The length field gives the size of the payload, except of a Boolean, and has 32 bits.
wire_size :
    (t : ℕ) (v : GoValue)
    → Encodes t v
    → ((if t == 0 || t == 1 then pos 0 else pos (wire_length v)) ≡ pos (length (wire_bytes v)))
      × (wire_length v < 2 ^ 32)
      × (t < 13)
unfolding wire_length marshal_real marshal_uint32 marshal_double marshal_date marshal_time
    ObjectId.marshal marshal_character_string marshal_bit_string
wire_size t nil h = ground arith
wire_size t (bool true) h = ground arith
wire_size t (bool false) h = ground arith
wire_size t (uint32 n) h = ground (arith, encode_var_uint_shape n)
wire_size t (int32 i) h = ground (arith, encode_var_int_shape i)
wire_size t (bit_string bs) h = ground (arith, length-map bs reverse8)
wire_size t (text bs) h = absurd h
wire_size t (object_ref o) h = absurd h
wire_size t _ h = ground arith

cut-append :
    (head bytes rest : Bytes)
    → cut (pos (length bytes)) (length head) (head ++ (bytes ++ rest)) ≡ ok bytes
unfolding cut
cut-append head bytes rest = ground (
  arith,
  length-append head (bytes ++ rest),
  length-append bytes rest,
  drop-append head (bytes ++ rest),
  take-append bytes rest,
)

-- A header was read, so the input is not empty.
unmarshal-behind :
    (b : Bytes) (t : Tag) (r : ℕ)
    → decode_tag b ≡ (t, r)
    → 1 ≤ r
    → unmarshal b ≡ unmarshal_behind (t, r) b
unfolding unmarshal
unmarshal-behind [] t r e h =
    unfold decode_tag in absurd (omega (arith, ap (λ (p : Tag × ℕ). p.1) e))
unmarshal-behind (b0 ∷ b) t r e h = rw e

-- Behind an application tag stand the octets of its value.
unmarshal_behind_lem :
    (t : Tag) (r : ℕ) (b payload : Bytes) (v : GoValue)
    → 1 ≤ r
    → (t.context || t.opening || t.closing) ≡ false
    → cut (payload_length t) r b ≡ ok payload
    → value_of t.tag_number t.len_value payload ≡ ok v
    → unmarshal_behind (t, r) b ≡ ok (record { type = t.tag_number; value = v })
unfolding unmarshal_behind
unmarshal_behind_lem t r b payload v pos_r plain cuts reads = ground arith

tag_of : ℕ → ℕ → Tag
tag_of t n = record empty_tag { tag_number = t; len_value = pos n }

-- The encoding of a value: its tag and its payload.
marshal-wire :
    (f : Floats) (p : PropertyValue)
    → Encodes p.type p.value
    → marshal f p ≡ ok (encode_tag (tag_of p.type (wire_length p.value)) ++ wire_bytes p.value)
unfolding marshal tag_of
marshal-wire f p h = rw (payload_of-wire f p.type p.value h)

-- For a value that fits its tag `MarshalBinary` succeeds, and `UnmarshalBinary` reads the type and
-- the value back from the octets written, whatever follows them; of the two Go types of a float it
-- returns `Real` and `Double`.
pub unmarshal-marshal_value :
    (f : Floats) (p : PropertyValue) (rest : Bytes)
    → Encodes p.type p.value
    → (b : Bytes) × (marshal f p ≡ ok b)
      × (unmarshal (b ++ rest) ≡ ok (record p { value = read_back p.value }))
unmarshal-marshal_value f p rest h =
    let (size, fits, small) = wire_size p.type p.value h in
    let bytes = wire_bytes p.value in
    let head = encode_tag (tag_of p.type (wire_length p.value)) in
    let t = tag_of p.type (wire_length p.value) in
    let number : t.tag_number < 256 = unfold tag_of in omega arith in
    let len : t.len_value ≡ pos (wire_length p.value) = unfold tag_of in refl in
    (
      head ++ bytes,
      marshal-wire f p h,
      rw
          (
            append_assoc head bytes rest,
            unmarshal-behind (head ++ (bytes ++ rest)) _ (length head)
                (decode_tag-encode_primitive false t (wire_length p.value) (bytes ++ rest) number
                  len fits)
                (encode_primitive_pos false t (wire_length p.value) number len fits),
          )
          (unfold tag_of in
            unmarshal_behind_lem _ (length head) (head ++ (bytes ++ rest)) bytes (read_back p.value)
              (encode_primitive_pos false t (wire_length p.value) number len fits) refl
              (rw size (cut-append head bytes rest)) (value_of-wire p.type p.value h)),
    )

-- How the encoding of a value stands in a longer input: the header of an application tag that
-- announces the octets behind it.
pub record Encoding (b : Bytes) : Type 0 where
  pub head : Bytes
  pub payload : Bytes
  pub tag : Tag
  pub parts : b ≡ head ++ payload
  pub start : 1 ≤ length head
  pub reads : (rest : Bytes) → decode_tag (head ++ rest) ≡ (tag, length head)
  pub plain : (tag.context || tag.opening || tag.closing) ≡ false
  pub size : payload_length tag ≡ pos (length payload)

pub encoding :
    (f : Floats) (p : PropertyValue) (b : Bytes)
    → Encodes p.type p.value
    → marshal f p ≡ ok b
    → Encoding b
encoding f p b h e =
    let (size, fits, small) = wire_size p.type p.value h in
    let t = tag_of p.type (wire_length p.value) in
    let number : t.tag_number < 256 = unfold tag_of in omega arith in
    let len : t.len_value ≡ pos (wire_length p.value) = unfold tag_of in refl in
    record {
      head = encode_tag t;
      payload = wire_bytes p.value;
      tag = record t { extended = ltb 14 t.tag_number || ltb 4 (wire_length p.value) };
      parts = cc (marshal-wire f p h);
      start = encode_primitive_pos false t (wire_length p.value) number len fits;
      reads = λ rest.
          unfold tag_of in
          decode_tag-encode_primitive false t (wire_length p.value) rest number len fits;
      plain = unfold tag_of in refl;
      size = unfold tag_of in size;
    }
