-- ===== src/Types/Context/Termination.antt =====
-- The octets that the readers of simulator/services.go leave.
use gobac.Prelude.{ℕ, zero, suc, ◌≤◌, ◌≡◌, refl, arith, [], ◌∷◌, length, drop, length-drop}
use gobac.Prelude.{Bool, false, not, ◌==◌, ◌||◌, Bool-cases, Option, none, some, inl, inr}
use gobac.Prelude.Int.{ℤ, pos, negsuc}
use gobac.Result.{Result}
use gobac.Result.Halts.{Halts, halting, halts_ok, halts_err, Halts-check}
use gobac.Types.Bytes.{Bytes}
use gobac.Types.Tag.{Tag, decode_tag}
use gobac.Types.Repeat.Termination.{Leaves, leaves_err, leaves_ok, Leaves-bind, Leaves-after}
use gobac.Types.Context.{
  split_value, decode_context, decode_context_unsigned, is_constructed_tag, decode_constructed_tag,
  try_decode_context_unsigned, decode_behind, tried, found, is_primitive,
}

split_value-Leaves :
    (len : ℤ) (r : ℕ) (bs : Bytes)
    → 1 ≤ length bs
    → 1 ≤ r
    → Leaves (length bs) (split_value len r bs)
unfolding split_value
split_value-Leaves (negsuc n) r bs h k = leaves_err _ refl
split_value-Leaves (pos n) r bs h k =
    Leaves-after (length bs) _ (Halts-check _ _ refl)
      (λ x. leaves_ok _ _ (omega (arith, length-drop n (drop r bs), length-drop r bs)))

decode_behind-Leaves :
    (t : Tag) (r number : ℕ) (bs : Bytes)
    → 1 ≤ length bs
    → Leaves (length bs) (decode_behind (t, r) bs number)
decode_behind-Leaves t zero number bs h = leaves_err _ refl
decode_behind-Leaves t (suc r) number bs h =
    Leaves-after (length bs) _ (Halts-check _ _ refl)
      (λ x. split_value-Leaves t.len_value (suc r) bs h (omega arith))

pub decode_context-Leaves :
    (bs : Bytes) (number : ℕ) → Leaves (length bs) (decode_context bs number)
unfolding decode_context
decode_context-Leaves [] number = leaves_err _ refl
decode_context-Leaves (b0 ∷ bs) number =
    let (t, r) = decode_tag (b0 ∷ bs) in
    rw (nonempty (length bs)) (decode_behind-Leaves t r number (b0 ∷ bs) (omega arith))
  where
    nonempty : (n : ℕ) → (suc n == 0) ≡ false
    nonempty n = ground arith

pub decode_context_unsigned-Leaves :
    (bs : Bytes) (number : ℕ) → Leaves (length bs) (decode_context_unsigned bs number)
unfolding decode_context_unsigned
decode_context_unsigned-Leaves bs number =
    Leaves-bind (length bs) _ (decode_context-Leaves bs number)
      (λ value rest h. Leaves-after (length bs) _ (Halts-check _ _ refl) (λ x. leaves_ok _ rest h))

-- What is left behind an optional number.
abbrev pub behind_optional : Option (ℕ × Bytes) → Bytes → Bytes
behind_optional none bs = bs
behind_optional (some (n, rest)) bs = rest

tried-Leaves :
    (bs : Bytes) {r : Result (ℕ × Bytes)}
    → Leaves (length bs) r
    → length (behind_optional (tried r) bs) ≤ length bs
tried-Leaves bs (leaves_err e p) = omega arith
tried-Leaves bs (leaves_ok a rest k) = omega arith

pub try_decode-le :
    (bs : Bytes) (number : ℕ)
    → length (behind_optional (try_decode_context_unsigned bs number) bs) ≤ length bs
unfolding try_decode_context_unsigned
try_decode-le [] number = omega arith
try_decode-le (b0 ∷ bs) number =
    let (t, r) = decode_tag (b0 ∷ bs) in
    elim (Bool-cases (r == 0 || not (is_primitive t number))) [
      | inl e ↦ rw e (omega arith)
      | inr e ↦ rw e (tried-Leaves (b0 ∷ bs) (decode_context_unsigned-Leaves (b0 ∷ bs) number))
    ]

pub is_constructed_tag-Halts :
    (bs : Bytes) (number : ℕ) (opening : Bool) → Halts (is_constructed_tag bs number opening)
unfolding is_constructed_tag
is_constructed_tag-Halts [] number opening = search halting
is_constructed_tag-Halts (b0 ∷ bs) number opening = search halting depth 12

found-Halts : {r : Result ℕ} → Halts r → Halts (found r)
found-Halts (halts_ok zero) = halts_err _ refl
found-Halts (halts_ok (suc n)) = halts_ok _
found-Halts (halts_err e h) = halts_err _ refl

pub decode_constructed_tag-Halts :
    (bs : Bytes) (number : ℕ) (opening : Bool) → Halts (decode_constructed_tag bs number opening)
unfolding decode_constructed_tag
decode_constructed_tag-Halts bs number opening =
    found-Halts (is_constructed_tag-Halts bs number opening)
