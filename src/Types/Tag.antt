-- ===== src/Types/Tag.antt =====
-- bacnet/types/tag.go: the header of a tagged value. The pool of tags only saves allocations: each
-- use begins with a reset tag, so a tag is a plain value here.
pub mod RoundTrip
pub mod Bounds
use gobac.Prelude.{
  ℕ, zero, suc, ◌+◌, ◌*◌, ◌/◌, ◌%◌, ◌^◌, Bool, true, false, not, ◌&&◌, bit_and, bit_or,
}
use gobac.Prelude.{List, [], ◌∷◌, ◌++◌, length, ltb, leb, ◌==◌, if◌then◌else◌}
use gobac.Prelude.Int.{ℤ, pos, negsuc}
use gobac.Types.Bytes.{Bytes, big_endian16, big_endian32}

-- `LenValue` is a Go `int` of 64 bits.
pub record Tag : Type 0 where
  pub tag_number : ℕ
  pub len_value : ℤ
  pub context : Bool
  pub extended : Bool
  pub opening : Bool
  pub closing : Bool

-- What `Reset` leaves.
abbrev pub empty_tag : Tag
empty_tag = record {
  tag_number = 0;
  len_value = pos 0;
  context = false;
  extended = false;
  opening = false;
  closing = false;
}

abbrev pub is_context : Tag → ℕ → Bool
is_context t n = t.context && t.tag_number == n

-- The octets behind a length above 4.
unfoldable pub extended_length : ℕ → Bytes
extended_length n =
    if leb n 253
    then n ∷ []
    else if leb n 65535
    then 254 ∷ (n / 2 ^ 8 % 256) ∷ (n % 256) ∷ []
    else 255 ∷ (n / 2 ^ 24 % 256) ∷ (n / 2 ^ 16 % 256) ∷ (n / 2 ^ 8 % 256) ∷ (n % 256) ∷ []

-- The part behind the tag number; `first` and `more` are what stands already. Go's nil is `[]`.
unfoldable pub encode_length : ℤ → Bool → ℕ → Bytes → Bytes
unfolding extended_length
encode_length len true first more = first ∷ more
encode_length (negsuc n) false first more = []
encode_length (pos n) false first more =
    if ltb 0xffff_ffff n
    then []
    else if leb n 4
    then bit_or first n ∷ more
    else bit_or first 5 ∷ (more ++ extended_length n)

unfoldable pub encode : Tag → ℕ → Bool → Bytes
unfolding encode_length
encode t first constructed =
    if leb t.tag_number 14
    then encode_length t.len_value constructed (bit_or first (t.tag_number * 2 ^ 4 % 256)) []
    else encode_length t.len_value constructed (bit_or first 0xf0) (t.tag_number ∷ [])

unfoldable pub encode_opening_tag : Tag → Bytes
unfolding encode
encode_opening_tag t = encode t (bit_or 0x08 6) true

unfoldable pub encode_closing_tag : Tag → Bytes
unfolding encode
encode_closing_tag t = encode t (bit_or 0x08 7) true

unfoldable pub encode_context_tag : Tag → Bytes
unfolding encode
encode_context_tag t = encode t 0x08 false

unfoldable pub encode_tag : Tag → Bytes
unfolding encode
encode_tag t = encode t 0 false

abbrev malformed : Tag × ℕ
malformed = (empty_tag, 0)

-- The length octets after the marker 255 (`uint32`), 254 (`uint16`) or any other (itself). `index`
-- counts the octets read before.
unfoldable pub decode_marker : Tag → ℕ → Bytes → ℕ → Tag × ℕ
decode_marker t marker (b0 ∷ b1 ∷ b2 ∷ b3 ∷ rest) index =
    if marker == 255
    then (record t { len_value = pos (big_endian32 b0 b1 b2 b3) }, index + 4)
    else if marker == 254
    then (record t { len_value = pos (big_endian16 b0 b1) }, index + 2)
    else (record t { len_value = pos marker }, index)
decode_marker t marker (b0 ∷ b1 ∷ rest) index =
    if marker == 255
    then malformed
    else if marker == 254
    then (record t { len_value = pos (big_endian16 b0 b1) }, index + 2)
    else (record t { len_value = pos marker }, index)
decode_marker t marker rest index =
    if marker == 255
    then malformed
    else if marker == 254
    then malformed
    else (record t { len_value = pos marker }, index)

-- The case 5 of the length field.
unfoldable pub decode_extended : Tag → Bytes → ℕ → Tag × ℕ
unfolding decode_marker
decode_extended t [] index = malformed
decode_extended t (marker ∷ rest) index =
    decode_marker (record t { extended = true }) marker rest (index + 1)

-- `switch first & 0x07`
unfoldable pub decode_length : Tag → ℕ → Bytes → ℕ → Tag × ℕ
unfolding decode_extended
decode_length t field rest index =
    if field == 5
    then decode_extended t rest index
    else if field == 6
    then (record t { opening = true }, index)
    else if field == 7
    then (record t { closing = true }, index)
    else (record t { len_value = pos field }, index)

-- The octet of an extended tag number.
unfoldable pub decode_number : ℕ → Tag → Bytes → Tag × ℕ
unfolding decode_length
decode_number field t [] = malformed
decode_number field t (number ∷ rest) =
    decode_length (record t { tag_number = number; extended = true }) field rest 2

-- The decoded tag and the octets read; 0 octets say that the header is truncated.
unfoldable pub decode_tag : Bytes → Tag × ℕ
unfolding decode_length decode_number
decode_tag [] = malformed
decode_tag (first ∷ rest) =
    let t : Tag = record empty_tag { context = not (bit_and first 0x08 == 0) } in
    if bit_and first 0xf0 == 0xf0
    then decode_number (bit_and first 0x07) t rest
    else decode_length (record t { tag_number = first / 2 ^ 4 }) (bit_and first 0x07) rest 1
