-- ===== src/Types/Tag/RoundTrip.antt =====
-- The encoders of bacnet/types/tag.go, and DecodeTag after them.
use gobac.Prelude.{ℕ, ◌+◌, ◌*◌, ◌/◌, ◌%◌, ◌^◌, ◌≤◌, ◌<◌, ◌≡◌, refl, arith}
use gobac.Prelude.{Bool, true, false, not, ◌||◌, ◌⊎◌, inl, inr, bit_or, [], ◌∷◌, ◌++◌, length}
use gobac.Prelude.{ltb, if◌then◌else◌}
use gobac.Prelude.Bits.{table_agrees, by_table}
use gobac.Prelude.Int.{pos}
use gobac.Types.Bytes.{Bytes, bit3, high_half, low_three, or_three}
use gobac.Types.Bytes.{big_endian16-sum, big_endian32-sum}
use gobac.Types.Tag.{Tag, empty_tag, extended_length, encode, decode_marker, decode_extended}
use gobac.Types.Tag.{decode_length, decode_number, decode_tag, encode_context_tag, encode_tag}
use gobac.Types.Tag.{encode_opening_tag, encode_closing_tag}

-- The class bit of a context tag.
abbrev class_bit : Bool → ℕ
class_bit context = if context then 8 else 0

-- The first octets of a header: the class, the length field and the octets behind the number.
header : Bool → ℕ → ℕ → Bytes → Bytes
header context number field more =
    if ltb 14 number
    then (0xf0 + class_bit context + field) ∷ number ∷ more
    else (number * 16 + class_bit context + field) ∷ more

start : Bool → ℕ → Tag
start context number = record empty_tag {
  tag_number = number;
  context = context;
  extended = ltb 14 number;
}

module _ (context : Bool) (number field : ℕ) (more : Bytes) (byte : number < 256)
    (small : field < 8) where
  decode_tag-header :
      decode_tag (header context number field more)
      ≡ decode_length (start context number) field more (if ltb 14 number then 2 else 1)
  unfolding decode_tag decode_number header start
  decode_tag-header =
      let f : ℕ = number * 16 + class_bit context + field in
      let g : ℕ = 0xf0 + class_bit context + field in
      ground (arith, bit3 f, high_half f, low_three f, bit3 g, high_half g, low_three g)

-- The octet that `encode` starts with, and what it makes of it.
class_number :
    (context : Bool) (n : ℕ)
    → n < 15
    → bit_or (class_bit context) (n * 2 ^ 4 % 256) ≡ n * 16 + class_bit context
unfolding table_agrees
class_number true n h = by_table (λ x. bit_or 8 (x * 2 ^ 4 % 256)) (λ x. x * 16 + 8) 15 refl n h
class_number false n h = by_table (λ x. bit_or 0 (x * 2 ^ 4 % 256)) (λ x. x * 16 + 0) 15 refl n h

class_extended : (context : Bool) → bit_or (class_bit context) 0xf0 ≡ 0xf0 + class_bit context
class_extended true = refl
class_extended false = refl

-- Both octets are multiples of 8, and the length field fills the low three bits.
or_field :
    (context : Bool) (n field : ℕ)
    → field < 8
    → bit_or (n * 16 + class_bit context) field ≡ n * 16 + class_bit context + field
or_field true n field h =
    let same : n * 16 + 8 ≡ (n * 2 + 1) * 8 = omega arith in rw same (or_three (n * 2 + 1) field h)
or_field false n field h =
    let same : n * 16 + 0 ≡ (n * 2) * 8 = omega arith in rw same (or_three (n * 2) field h)

or_field_extended :
    (context : Bool) (field : ℕ)
    → field < 8
    → bit_or (0xf0 + class_bit context) field ≡ 0xf0 + class_bit context + field
or_field_extended true field h = or_three 31 field h
or_field_extended false field h = or_three 30 field h

-- The length field of a length, and the octets behind the number.
abbrev length_field : ℕ → ℕ
length_field n = if ltb 4 n then 5 else n

length_octets : ℕ → Bytes
length_octets n = if ltb 4 n then extended_length n else []

module _ (t : Tag) (context : Bool) (byte : t.tag_number < 256) where
  encode-header :
      (n : ℕ)
      → t.len_value ≡ pos n
      → n < 2 ^ 32
      → encode t (class_bit context) false
        ≡ header context t.tag_number (length_field n) (length_octets n)
  unfolding encode header length_octets
  encode-header n e fits = ground (
    arith,
    class_number context t.tag_number,
    class_extended context,
    or_field context t.tag_number n,
    or_field context t.tag_number 5,
    or_field_extended context n,
    or_field_extended context 5,
  )

constructed_number :
    (field n : ℕ)
    → (field ≡ 6) ⊎ (field ≡ 7)
    → n < 15
    → bit_or (8 + field) (n * 2 ^ 4 % 256) ≡ n * 16 + 8 + field
unfolding table_agrees
constructed_number field n (inl e) h =
    rw e (by_table (λ x. bit_or 14 (x * 2 ^ 4 % 256)) (λ x. x * 16 + 8 + 6) 15 refl n h)
constructed_number field n (inr e) h =
    rw e (by_table (λ x. bit_or 15 (x * 2 ^ 4 % 256)) (λ x. x * 16 + 8 + 7) 15 refl n h)

constructed_extended :
    (field : ℕ) → (field ≡ 6) ⊎ (field ≡ 7) → bit_or (8 + field) 0xf0 ≡ 0xf0 + 8 + field
constructed_extended field (inl e) = rw e
constructed_extended field (inr e) = rw e

encode-constructed :
    (t : Tag) (field : ℕ)
    → (field ≡ 6) ⊎ (field ≡ 7)
    → encode t (8 + field) true ≡ header true t.tag_number field []
unfolding encode header
encode-constructed t field e =
    ground (arith, constructed_number field t.tag_number e, constructed_extended field e)

decode_marker-short :
    (t : Tag) (n i : ℕ) (rest : Bytes)
    → n < 254
    → decode_marker t n rest i ≡ (record t { len_value = pos n }, i)
unfolding decode_marker
decode_marker-short t n i [] h = ground arith
decode_marker-short t n i (b0 ∷ []) h = ground arith
decode_marker-short t n i (b0 ∷ b1 ∷ []) h = ground arith
decode_marker-short t n i (b0 ∷ b1 ∷ b2 ∷ []) h = ground arith
decode_marker-short t n i (b0 ∷ b1 ∷ b2 ∷ b3 ∷ rest) h = ground arith

decode_marker_two :
    (t : Tag) (b0 b1 i : ℕ) (rest : Bytes)
    → b1 < 256
    → decode_marker t 254 (b0 ∷ b1 ∷ rest) i
      ≡ (record t { len_value = pos (b0 * 2 ^ 8 + b1) }, i + 2)
unfolding decode_marker
decode_marker_two t b0 b1 i [] h = rw (big_endian16-sum b0 b1 h)
decode_marker_two t b0 b1 i (b2 ∷ []) h = rw (big_endian16-sum b0 b1 h)
decode_marker_two t b0 b1 i (b2 ∷ b3 ∷ rest) h = rw (big_endian16-sum b0 b1 h)

decode_marker_four :
    (t : Tag) (b0 b1 b2 b3 i : ℕ) (rest : Bytes)
    → b1 < 256
    → b2 < 256
    → b3 < 256
    → decode_marker t 255 (b0 ∷ b1 ∷ b2 ∷ b3 ∷ rest) i
      ≡ (record t { len_value = pos (b0 * 2 ^ 24 + b1 * 2 ^ 16 + b2 * 2 ^ 8 + b3) }, i + 4)
unfolding decode_marker
decode_marker_four t b0 b1 b2 b3 i rest h1 h2 h3 = rw (big_endian32-sum b0 b1 b2 b3 h1 h2 h3)

-- The marker octets give back a length above 4.
decode_extended-length :
    (t : Tag) (n i : ℕ) (rest : Bytes)
    → n < 2 ^ 32
    → decode_extended t (extended_length n ++ rest) i
      ≡ (record t { len_value = pos n; extended = true }, i + length (extended_length n))
unfolding decode_extended extended_length
decode_extended-length t n i rest h =
    let t' : Tag = record t { extended = true } in
    let b0 : ℕ = n / 2 ^ 24 % 256 in
    let b1 : ℕ = n / 2 ^ 16 % 256 in
    let b2 : ℕ = n / 2 ^ 8 % 256 in
    let b3 : ℕ = n % 256 in
    ground (
      arith,
      decode_marker-short t' n (i + 1) rest,
      decode_marker_two t' b2 b3 (i + 1) rest,
      decode_marker_four t' b0 b1 b2 b3 (i + 1) rest,
    )

decode-length_octets :
    (t : Tag) (n i : ℕ) (rest : Bytes)
    → n < 2 ^ 32
    → decode_length t (length_field n) (length_octets n ++ rest) i ≡ (
      record t { len_value = pos n; extended = t.extended || ltb 4 n },
      i + length (length_octets n),
    )
unfolding decode_length length_octets
decode-length_octets t n i rest h = ground (arith, decode_extended-length t n i rest h)

header-append :
    (context : Bool) (number field : ℕ) (more rest : Bytes)
    → header context number field more ++ rest ≡ header context number field (more ++ rest)
unfolding header
header-append context number field more rest = ground arith

length-header :
    (context : Bool) (number field : ℕ) (more : Bytes)
    → length (header context number field more) ≡ (if ltb 14 number then 2 else 1) + length more
unfolding header
length-header context number field more = ground arith

-- The encoder of the two primitive classes of tags.
abbrev pub encode_primitive : Bool → Tag → Bytes
encode_primitive context t = if context then encode_context_tag t else encode_tag t

encode_primitive-header :
    (context : Bool) (t : Tag) (n : ℕ)
    → t.tag_number < 256
    → t.len_value ≡ pos n
    → n < 2 ^ 32
    → encode_primitive context t ≡ header context t.tag_number (length_field n) (length_octets n)
encode_primitive-header true t n byte e fits =
    unfold encode_context_tag in encode-header t true byte n e fits
encode_primitive-header false t n byte e fits =
    unfold encode_tag in encode-header t false byte n e fits

-- For every tag number of a byte and every length of 32 bits, `decode_tag` reads the header that
-- `EncodeTag` or `EncodeContextTag` wrote, whatever follows: it returns the header's size, the tag
-- number, the length and the class, and marks the tag extended when the number is above 14 or the
-- length above 4.
pub decode_tag-encode_primitive :
    (context : Bool) (t : Tag) (n : ℕ) (rest : Bytes)
    → t.tag_number < 256
    → t.len_value ≡ pos n
    → n < 2 ^ 32
    → decode_tag (encode_primitive context t ++ rest) ≡ (
      record {
        tag_number = t.tag_number;
        len_value = pos n;
        context = context;
        extended = ltb 14 t.tag_number || ltb 4 n;
        opening = false;
        closing = false;
      },
      length (encode_primitive context t),
    )
decode_tag-encode_primitive context t n rest byte e fits =
    let number = t.tag_number in
    let field = length_field n in
    rw
      (
        encode_primitive-header context t n byte e fits,
        header-append context number field (length_octets n) rest,
        length-header context number field (length_octets n),
        decode_tag-header context number field (length_octets n ++ rest) byte (ground arith),
        decode-length_octets (start context number) n (if ltb 14 number then 2 else 1) rest fits,
      )
      (unfold start in refl)

-- `EncodeOpeningTag` and `EncodeClosingTag`.
abbrev pub encode_bracket : Bool → Tag → Bytes
encode_bracket opening t = if opening then encode_opening_tag t else encode_closing_tag t

encode_bracket-header :
    (opening : Bool) (t : Tag)
    → encode_bracket opening t ≡ header true t.tag_number (if opening then 6 else 7) []
encode_bracket-header true t = unfold encode_opening_tag in encode-constructed t 6 (inl refl)
encode_bracket-header false t = unfold encode_closing_tag in encode-constructed t 7 (inr refl)

-- For every tag number of a byte, `decode_tag` reads the opening or closing tag that the encoders
-- wrote, whatever follows: a context tag of that number with no length, marked opening or closing
-- and not the other.
pub decode_tag-encode_bracket :
    (opening : Bool) (t : Tag) (rest : Bytes)
    → t.tag_number < 256
    → decode_tag (encode_bracket opening t ++ rest) ≡ (
      record {
        tag_number = t.tag_number;
        len_value = pos 0;
        context = true;
        extended = ltb 14 t.tag_number;
        opening = opening;
        closing = not opening;
      },
      length (encode_bracket opening t),
    )
decode_tag-encode_bracket true t rest byte =
    rw
      (
        encode_bracket-header true t,
        header-append true t.tag_number 6 [] rest,
        length-header true t.tag_number 6 [],
        decode_tag-header true t.tag_number 6 rest byte (omega arith),
      )
      (unfold start decode_length in ground arith)
decode_tag-encode_bracket false t rest byte =
    rw
      (
        encode_bracket-header false t,
        header-append true t.tag_number 7 [] rest,
        length-header true t.tag_number 7 [],
        decode_tag-header true t.tag_number 7 rest byte (omega arith),
      )
      (unfold start decode_length in ground arith)

-- A header has an octet at least.
pub encode_primitive_pos :
    (context : Bool) (t : Tag) (n : ℕ)
    → t.tag_number < 256
    → t.len_value ≡ pos n
    → n < 2 ^ 32
    → 1 ≤ length (encode_primitive context t)
encode_primitive_pos context t n byte e fits =
    rw
      (
        encode_primitive-header context t n byte e fits,
        length-header context t.tag_number (length_field n) (length_octets n),
      )
      (ground arith)

pub encode_bracket_pos : (opening : Bool) (t : Tag) → 1 ≤ length (encode_bracket opening t)
encode_bracket_pos opening t =
    rw
      (
        encode_bracket-header opening t,
        length-header true t.tag_number (if opening then 6 else 7) [],
      )
      (ground arith)
