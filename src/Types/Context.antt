-- ===== src/Types/Context.antt =====
-- Values under a context tag: `writeContext` and `decodeContext` of simulator/services.go. The number of
-- octets consumed is given by the octets that are left.
pub mod RoundTrip
pub mod Tests
pub mod Termination
use gobac.Prelude.{
  Bool, true, false, zero, suc, Option, none, some, ℕ, ◌-◌, List, [], ◌∷◌, ◌++◌, length, take, drop,
  not, ◌&&◌, ◌||◌, ◌==◌, leb, if◌then◌else◌,
}
use gobac.Prelude.Int.{ℤ, pos, negsuc}
use gobac.Result.{
  Result, ok, err, truncated, malformed_tag, unexpected_tag, wrong_size, ◌>>=◌, ◌>>◌, check,
}
use gobac.Types.Bytes.{Bytes}
use gobac.Types.Tag.{Tag, empty_tag, is_context, encode_context_tag, decode_tag}
use gobac.Types.Tag.{encode_opening_tag, encode_closing_tag}
use gobac.Types.Unsigned.{encode_var_uint, decode_var_uint}

abbrev same_flag : Bool → Bool → Bool
same_flag true b = b
same_flag false b = not b

abbrev pub context_tag : ℕ → Bytes → Tag
context_tag number value = record empty_tag { tag_number = number; len_value = pos (length value) }

unfoldable pub write_context : ℕ → Bytes → Bytes
write_context number value = encode_context_tag (context_tag number value) ++ value

-- The value's octets behind the `r` octets of the header, and what is left.
unfoldable pub split_value : ℤ → ℕ → Bytes → Result (Bytes × Bytes)
split_value (negsuc n) r bs = err unexpected_tag
split_value (pos n) r bs = do
  check (leb n (length bs - r)) unexpected_tag
  ok (take n (drop r bs), drop n (drop r bs))

-- A context tag of that number which is neither opening nor closing.
abbrev pub is_primitive : Tag → ℕ → Bool
is_primitive t number = is_context t number && not (t.opening || t.closing)

abbrev pub decode_behind : Tag × ℕ → Bytes → ℕ → Result (Bytes × Bytes)
decode_behind (t, r) bs number = do
  check (not (r == 0) && is_primitive t number) unexpected_tag
  split_value t.len_value r bs

unfoldable pub decode_context : Bytes → ℕ → Result (Bytes × Bytes)
unfolding split_value
decode_context bs number = do
  check (not (length bs == 0)) truncated
  decode_behind (decode_tag bs) bs number

-- `decodeContextUnsigned`
unfoldable pub decode_context_unsigned : Bytes → ℕ → Result (ℕ × Bytes)
unfolding decode_context
decode_context_unsigned bs number = do
  (value, rest) ← decode_context bs number
  check (leb 1 (length value) && leb (length value) 4) wrong_size
  ok (decode_var_uint value, rest)

-- `writeConstructedTag`
unfoldable pub write_constructed_tag : ℕ → Bool → Bytes
write_constructed_tag number true = encode_opening_tag (record empty_tag { tag_number = number })
write_constructed_tag number false = encode_closing_tag (record empty_tag { tag_number = number })

-- `isConstructedTag`: the octets of the header, 0 when it is another tag.
abbrev pub size_if_bracket : Tag × ℕ → ℕ → Bool → Result ℕ
size_if_bracket (t, r) number opening =
    if r == 0
    then err malformed_tag
    else if not (is_context t number)
        || (not (same_flag t.opening opening) || same_flag t.closing opening)
    then ok 0
    else ok r

unfoldable pub is_constructed_tag : Bytes → ℕ → Bool → Result ℕ
is_constructed_tag [] number opening = err truncated
is_constructed_tag (b0 ∷ bs) number opening = size_if_bracket (decode_tag (b0 ∷ bs)) number opening

-- `decodeConstructedTag`
abbrev pub found : Result ℕ → Result ℕ
found (err e) = err unexpected_tag
found (ok zero) = err unexpected_tag
found (ok (suc n)) = ok (suc n)

unfoldable pub decode_constructed_tag : Bytes → ℕ → Bool → Result ℕ
unfolding is_constructed_tag
decode_constructed_tag bs number opening = found (is_constructed_tag bs number opening)

-- `tryDecodeContextUnsigned`, with the octets that are left.
abbrev pub tried : Result (ℕ × Bytes) → Option (ℕ × Bytes)
tried (err e) = none
tried (ok r) = some r

abbrev pub try_behind : Tag × ℕ → Bytes → ℕ → Option (ℕ × Bytes)
try_behind (t, r) bs number =
    if r == 0 || not (is_primitive t number)
    then none
    else tried (decode_context_unsigned bs number)

unfoldable pub try_decode_context_unsigned : Bytes → ℕ → Option (ℕ × Bytes)
unfolding decode_context_unsigned
try_decode_context_unsigned [] number = none
try_decode_context_unsigned (b0 ∷ bs) number = try_behind (decode_tag (b0 ∷ bs)) (b0 ∷ bs) number
