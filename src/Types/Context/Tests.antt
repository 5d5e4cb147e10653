-- ===== src/Types/Context/Tests.antt =====
-- The tests of simulator/services.go on what the next octets are.
use gobac.Prelude.{
  ℕ, zero, suc, ◌^◌, ◌≤◌, ◌<◌, ◌≡◌, refl, ap, arith, [], ◌∷◌, ◌++◌, length, Bool, true, false, not,
}
use gobac.Prelude.{◌==◌, ◌||◌, none, some, if◌then◌else◌}
use gobac.Result.{ok}
use gobac.Types.Bytes.{Bytes}
use gobac.Types.Tag.{Tag, decode_tag}
use gobac.Types.Unsigned.{encode_var_uint}
use gobac.Types.Unsigned.RoundTrip.{encode_var_uint_shape}
use gobac.Types.Context.{
  write_context, write_constructed_tag, is_constructed_tag, size_if_bracket, decode_constructed_tag,
  try_decode_context_unsigned, tried, found, decode_context_unsigned, is_primitive,
}
use gobac.Types.Context.RoundTrip.{decode_context_unsigned-write_context}
use gobac.Types.Content.Grammar.{
  bracket_header, decode_tag-write_constructed_tag, write_constructed_tag_pos,
}
use gobac.Types.Property.Fields.{field_header, decode_tag-field, field_header_pos}

is_constructed_tag-behind :
    (bs : Bytes) (t : Tag) (r number : ℕ) (opening : Bool)
    → decode_tag bs ≡ (t, r)
    → 1 ≤ r
    → is_constructed_tag bs number opening ≡ size_if_bracket (t, r) number opening
unfolding is_constructed_tag
is_constructed_tag-behind [] t r number opening e h =
    unfold decode_tag in absurd (omega (arith, ap (λ (p : Tag × ℕ). p.1) e))
is_constructed_tag-behind (b0 ∷ bs) t r number opening e h = rw e

-- A context value is neither an opening nor a closing tag.
pub is_constructed_tag-write_context :
    (k number : ℕ) (opening : Bool) (value rest : Bytes)
    → k < 256
    → length value < 2 ^ 32
    → is_constructed_tag (write_context k value ++ rest) number opening ≡ ok 0
is_constructed_tag-write_context k number opening value rest byte fits =
    rw
      (is_constructed_tag-behind _ _ _ number opening (decode_tag-field k value rest byte fits)
        (field_header_pos k value rest byte fits))
      (other opening)
  where
    other : (opening : Bool) → size_if_bracket (field_header k value) number opening ≡ ok 0
    other true = ground (arith, field_header_pos k value rest byte fits)
    other false = ground (arith, field_header_pos k value rest byte fits)

pub is_constructed_tag-write_constructed_tag :
    (number : ℕ) (opening : Bool) (rest : Bytes)
    → number < 256
    → is_constructed_tag (write_constructed_tag number opening ++ rest) number opening
      ≡ ok (length (write_constructed_tag number opening))
is_constructed_tag-write_constructed_tag number opening rest byte =
    rw
      (is_constructed_tag-behind _ _ _ number opening
        (decode_tag-write_constructed_tag opening number rest byte)
        (write_constructed_tag_pos opening number))
      (same opening)
  where
    same :
        (opening : Bool)
        → size_if_bracket (bracket_header opening number) number opening
          ≡ ok (length (write_constructed_tag number opening))
    same true = ground (arith, write_constructed_tag_pos true number)
    same false = ground (arith, write_constructed_tag_pos false number)

-- An opening tag of another kind, or a closing one of any number.
pub is_constructed_tag-other :
    (number k : ℕ) (rest : Bytes)
    → number < 256
    → is_constructed_tag (write_constructed_tag number true ++ rest) k false ≡ ok 0
is_constructed_tag-other number k rest byte =
    rw
      (is_constructed_tag-behind _ _ _ k false
        (decode_tag-write_constructed_tag true number rest byte)
        (write_constructed_tag_pos true number))
      (ground (arith, write_constructed_tag_pos true number))

pub decode_constructed_tag-write_constructed_tag :
    (number : ℕ) (opening : Bool) (rest : Bytes)
    → number < 256
    → decode_constructed_tag (write_constructed_tag number opening ++ rest) number opening
      ≡ ok (length (write_constructed_tag number opening))
unfolding decode_constructed_tag
decode_constructed_tag-write_constructed_tag number opening rest byte =
    rw (is_constructed_tag-write_constructed_tag number opening rest byte)
      (found_pos _ (write_constructed_tag_pos opening number))
  where
    found_pos : (n : ℕ) → 1 ≤ n → found (ok n) ≡ ok n
    found_pos zero h = absurd (omega arith)
    found_pos (suc n) h = refl

try-behind :
    (bs : Bytes) (t : Tag) (r number : ℕ)
    → decode_tag bs ≡ (t, r)
    → 1 ≤ r
    → try_decode_context_unsigned bs number ≡ (
        if r == 0 || not (is_primitive t number)
        then none
        else tried (decode_context_unsigned bs number))
unfolding try_decode_context_unsigned
try-behind [] t r number e h =
    unfold decode_tag in absurd (omega (arith, ap (λ (p : Tag × ℕ). p.1) e))
try-behind (b0 ∷ bs) t r number e h = rw e

-- An optional number is found under its own tag, and under no other one.
pub try_decode-write_context :
    (k v : ℕ) (rest : Bytes)
    → k < 256
    → v < 2 ^ 32
    → try_decode_context_unsigned (write_context k (encode_var_uint v) ++ rest) k ≡ some (v, rest)
try_decode-write_context k v rest byte fits =
    let few : length (encode_var_uint v) < 2 ^ 32 = omega (arith, encode_var_uint_shape v) in
    rw
      (
        try-behind _ _ _ k (decode_tag-field k (encode_var_uint v) rest byte few)
            (field_header_pos k (encode_var_uint v) rest byte few),
        decode_context_unsigned-write_context k v rest byte fits,
      )
      (ground (arith, field_header_pos k (encode_var_uint v) rest byte few))

pub try_decode-other :
    (k number : ℕ) (value rest : Bytes)
    → k < 256
    → length value < 2 ^ 32
    → (k == number) ≡ false
    → try_decode_context_unsigned (write_context k value ++ rest) number ≡ none
try_decode-other k number value rest byte few h =
    rw
      (try-behind _ _ _ number (decode_tag-field k value rest byte few)
        (field_header_pos k value rest byte few))
      (ground arith)

pub try_decode-bracket :
    (k number : ℕ) (opening : Bool) (rest : Bytes)
    → k < 256
    → try_decode_context_unsigned (write_constructed_tag k opening ++ rest) number ≡ none
try_decode-bracket k number opening rest byte =
    rw
      (try-behind _ _ _ number (decode_tag-write_constructed_tag opening k rest byte)
        (write_constructed_tag_pos opening k))
      (none_of opening)
  where
    none_of :
        (opening : Bool)
        → (if (bracket_header opening k).1 == 0
              || not (is_primitive (bracket_header opening k).0 number)
            then none
            else tried (decode_context_unsigned (write_constructed_tag k opening ++ rest) number))
          ≡ none
    none_of true = ground arith
    none_of false = ground arith
