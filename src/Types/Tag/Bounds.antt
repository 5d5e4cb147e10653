-- ===== src/Types/Tag/Bounds.antt =====
-- DecodeTag of bacnet/types/tag.go on any input, well formed or not.
use gobac.Prelude.{ℕ, suc, ◌+◌, ◌/◌, ◌^◌, ◌≤◌, ◌<◌, ◌≡◌, refl, arith}
use gobac.Prelude.{true, false, not, Bool-cases, ◌&&◌, bit_and, [], ◌∷◌, length, ◌⊎◌, inl, inr}
use gobac.Prelude.{◌==◌}
use gobac.Prelude.Int.{ℤ, pos, negsuc}
use gobac.Types.Bytes.{Bytes, IsBytes, low_three, big_endian16-sum, big_endian32-sum}
use gobac.Types.Tag.{Tag, empty_tag, decode_marker, decode_extended}
use gobac.Types.Tag.{decode_length, decode_number, decode_tag}

abbrev pub FitsU32 : ℤ → Type 0
FitsU32 (pos n) = n < 2 ^ 32
FitsU32 (negsuc n) = ⊥

-- A header that was read: its length fits 32 bits, and it is not opening and closing at once.
pub record IsHeader (t : Tag) : Type 0 where
  pub number : t.tag_number < 256
  pub size : FitsU32 t.len_value
  pub bracket : (t.opening && t.closing) ≡ false

-- The reading is refused with the empty tag, or takes at least one octet and at most `room`.
abbrev pub Reads : ℕ → Tag × ℕ → Type 0
Reads room r = ((r.0 ≡ empty_tag) × (r.1 ≡ 0)) ⊎ (IsHeader r.0 × (1 ≤ r.1) × (r.1 ≤ room))

module _ (t : Tag) (byte : t.tag_number < 256) (plain : t.opening ≡ false) (index : ℕ)
    (first : 1 ≤ index) where
  decode_marker-Reads :
      (marker : ℕ) (rest : Bytes)
      → marker < 256
      → IsBytes rest
      → Reads (index + length rest) (decode_marker t marker rest index)
  unfolding decode_marker
  decode_marker-Reads marker [] m h = ground arith
  decode_marker-Reads marker (b0 ∷ []) m h = ground arith
  decode_marker-Reads marker (b0 ∷ b1 ∷ []) m (h0, (h1, h)) = ground (arith, big_endian16-sum b0 b1)
  decode_marker-Reads marker (b0 ∷ b1 ∷ b2 ∷ []) m (h0, (h1, h)) =
      ground (arith, big_endian16-sum b0 b1)
  decode_marker-Reads marker (b0 ∷ b1 ∷ b2 ∷ b3 ∷ rest) m (h0, (h1, (h2, (h3, h)))) =
      ground (arith, big_endian16-sum b0 b1, big_endian32-sum b0 b1 b2 b3)

decode_length-Reads :
    (t : Tag) (field : ℕ) (rest : Bytes) (index : ℕ)
    → t.tag_number < 256
    → t.opening ≡ false
    → t.closing ≡ false
    → t.len_value ≡ pos 0
    → field < 8
    → 1 ≤ index
    → IsBytes rest
    → (room : ℕ) → index + length rest ≤ room
    → Reads room (decode_length t field rest index)
unfolding decode_length decode_extended
decode_length-Reads t field [] index byte no_open no_close len small first h room fits =
    ground arith
decode_length-Reads t field (marker ∷ rest) index byte no_open no_close len small first (m, h) room
      fits =
    ground (
      arith,
      decode_marker-Reads (record t { extended = true }) byte no_open (index + 1) (omega arith)
          marker rest m h,
    )

decode_number-Reads :
    (t : Tag) (field : ℕ) (rest : Bytes)
    → t.opening ≡ false
    → t.closing ≡ false
    → t.len_value ≡ pos 0
    → field < 8
    → IsBytes rest
    → Reads (suc (length rest)) (decode_number field t rest)
unfolding decode_number
decode_number-Reads t field [] no_open no_close len small h = ground arith
decode_number-Reads t field (number ∷ rest) no_open no_close len small (n, h) =
    let t' : Tag = record t { tag_number = number; extended = true } in
    ground (
      arith,
      decode_length-Reads t' field rest 2 n no_open no_close len small (omega arith) h
          (suc (suc (length rest))) (omega arith),
    )

field : (first : ℕ) → bit_and first 0x07 < 8
field first = omega (arith, low_three first)

-- On any bytes `decode_tag` either refuses, returning the empty tag and 0, or reads a header of at
-- least one octet and at most the input's, with a tag number of a byte, a length of 32 bits, and
-- not marked both opening and closing.
pub decode_tag-Reads : (b : Bytes) → IsBytes b → Reads (length b) (decode_tag b)
unfolding decode_tag
decode_tag-Reads [] h = ground arith
decode_tag-Reads (first ∷ rest) (f, h) =
    let t : Tag = record empty_tag { context = not (bit_and first 0x08 == 0) } in
    let small =
      decode_length-Reads (record t { tag_number = first / 2 ^ 4 }) (bit_and first 0x07) in
    elim (Bool-cases (bit_and first 0xf0 == 0xf0)) [
      | inl wide ↦
          rw wide (decode_number-Reads t (bit_and first 0x07) rest refl refl refl (field first) h)
      | inr narrow ↦
          rw narrow (
            small rest 1 (omega arith) refl refl refl (field first) (omega arith) h _ (omega arith))
    ]
