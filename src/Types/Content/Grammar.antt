-- ===== src/Types/Content/Grammar.antt =====
-- propertyValueBounds of bacnet/types/property.go on content whose brackets match.
use mathlib.Core.List.{append_assoc}
use native.Mathlib.Nat.{add-zero}
use gobac.Prelude.{ℕ, suc, ◌-◌, ◌+◌, ◌≤◌, ◌<◌, ◌≡◌, refl, ap, arith, List, [], ◌∷◌, ◌++◌, length}
use gobac.Prelude.{
  length-append, drop-append, drop-append-append, true, false, Bool, not, ◌||◌, ltb,
}
use gobac.Prelude.Int.{pos}
use gobac.Result.{ok}
use gobac.Types.Bytes.{Bytes}
use gobac.Types.Tag.{Tag, empty_tag, decode_tag}
use gobac.Types.Tag.RoundTrip.{decode_tag-encode_bracket, encode_bracket_pos}
use gobac.Types.Context.{write_constructed_tag}
use gobac.Types.Content.{
  bounds, onward, close, bounds_behind, bounds_round, value_bounds, fitting, announced,
}

-- A sequence of values and of groups between an opening and a closing tag of one number.
pub data Balanced : Bytes → Type 0 where
  empty : Balanced []
  item :
      (head payload more : Bytes) (t : Tag)
      → 1 ≤ length head
      → ((rest : Bytes) → decode_tag (head ++ rest) ≡ (t, length head))
      → (t.opening || t.closing) ≡ false
      → announced t ≡ pos (length payload)
      → Balanced more
      → Balanced (head ++ (payload ++ more))
  group :
      (number : ℕ) (inside more : Bytes)
      → number < 256
      → Balanced inside
      → Balanced more
      → Balanced (
          write_constructed_tag number true
          ++ (inside ++ (write_constructed_tag number false ++ more)))

-- The header of an opening or closing tag.
abbrev pub bracket_header : Bool → ℕ → Tag × ℕ
bracket_header opening number = (
  record {
    tag_number = number;
    len_value = pos 0;
    context = true;
    extended = ltb 14 number;
    opening = opening;
    closing = not opening;
  },
  length (write_constructed_tag number opening),
)

pub decode_tag-write_constructed_tag :
    (opening : Bool) (number : ℕ) (rest : Bytes)
    → number < 256
    → decode_tag (write_constructed_tag number opening ++ rest) ≡ bracket_header opening number
unfolding write_constructed_tag
decode_tag-write_constructed_tag true number rest byte =
    decode_tag-encode_bracket true (record empty_tag { tag_number = number }) rest byte
decode_tag-write_constructed_tag false number rest byte =
    decode_tag-encode_bracket false (record empty_tag { tag_number = number }) rest byte

pub write_constructed_tag_pos :
    (opening : Bool) (number : ℕ) → 1 ≤ length (write_constructed_tag number opening)
unfolding write_constructed_tag
write_constructed_tag_pos true number =
    encode_bracket_pos true (record empty_tag { tag_number = number })
write_constructed_tag_pos false number =
    encode_bracket_pos false (record empty_tag { tag_number = number })

bounds_round-behind :
    (b : Bytes) (t : Tag) (r : ℕ) (stack : List ℕ) (offset : ℕ)
    → decode_tag b ≡ (t, r)
    → 1 ≤ r
    → bounds_round stack offset b ≡ bounds_behind (t, r) stack offset b
unfolding bounds_round
bounds_round-behind [] t r stack offset e h =
    unfold decode_tag in absurd (omega (arith, ap (λ (p : Tag × ℕ). p.1) e))
bounds_round-behind (b0 ∷ b) t r stack offset e h = rw e

-- One round over each kind of tag.
round_item :
    (head payload rest : Bytes) (t : Tag) (stack : List ℕ) (offset : ℕ)
    → 1 ≤ length head
    → decode_tag (head ++ (payload ++ rest)) ≡ (t, length head)
    → (t.opening || t.closing) ≡ false
    → announced t ≡ pos (length payload)
    → bounds_round stack offset (head ++ (payload ++ rest))
      ≡ ok (onward stack (offset + (length head + length payload)) rest)
unfolding bounds_behind fitting
round_item head payload rest t stack offset h e plain size =
    rw (bounds_round-behind _ t (length head) stack offset e h) (
      ground (
        arith,
        length-append head (payload ++ rest),
        length-append payload rest,
        drop-append-append head payload rest,
      ))

round_opening :
    (number : ℕ) (rest : Bytes) (stack : List ℕ) (offset : ℕ)
    → number < 256
    → bounds_round stack offset (write_constructed_tag number true ++ rest)
      ≡ ok (onward (number ∷ stack) (offset + length (write_constructed_tag number true)) rest)
unfolding bounds_behind
round_opening number rest stack offset byte =
    let head = write_constructed_tag number true in
    rw
      (bounds_round-behind _ _ (length head) stack offset
        (decode_tag-write_constructed_tag true number rest byte)
        (write_constructed_tag_pos true number))
      (ground (arith, drop-append head rest, write_constructed_tag_pos true number))

round_closing :
    (number : ℕ) (rest : Bytes) (stack : List ℕ) (offset : ℕ)
    → number < 256
    → bounds_round (number ∷ stack) offset (write_constructed_tag number false ++ rest)
      ≡ close
          (number ∷ stack)
          number
          offset
          (offset + length (write_constructed_tag number false))
          rest
unfolding bounds_behind
round_closing number rest stack offset byte =
    let head = write_constructed_tag number false in
    rw
      (bounds_round-behind _ _ (length head) (number ∷ stack) offset
        (decode_tag-write_constructed_tag false number rest byte)
        (write_constructed_tag_pos false number))
      (ground (arith, drop-append head rest, write_constructed_tag_pos false number))

close_inner :
    (number top : ℕ) (stack : List ℕ) (start offset : ℕ) (bs : Bytes)
    → close (number ∷ top ∷ stack) number start offset bs ≡ ok (onward (top ∷ stack) offset bs)
unfolding close
close_inner number top stack start offset bs = ground arith

close_outer :
    (number start offset : ℕ) (bs : Bytes)
    → close (number ∷ []) number start offset bs ≡ ok (bounds start offset)
unfolding close
close_outer number start offset bs = ground arith

-- The fuel before the content, for the fuel that is left behind it.
rounds : {c : Bytes} → Balanced c → ℕ → ℕ
rounds empty fuel = fuel
rounds (item head payload more t h r p s d) fuel = suc (rounds d fuel)
rounds (group number inside more byte d e) fuel = suc (rounds d (suc (rounds e fuel)))

-- The search passes over the content.
passes :
    (c : Bytes) (d : Balanced c) (fuel top : ℕ) (stack : List ℕ) (offset : ℕ) (rest : Bytes)
    → value_bounds (rounds d fuel) (top ∷ stack) offset (c ++ rest)
      ≡ value_bounds fuel (top ∷ stack) (offset + length c) rest
unfolding rounds value_bounds
passes _ empty fuel top stack offset rest = rw (add-zero offset)
passes _ (item head payload more t h r p s d) fuel top stack offset rest =
    let place : offset + (length head + length payload) + length more
        ≡ offset + length (head ++ (payload ++ more)) =
      omega (arith, length-append head (payload ++ more), length-append payload more) in
    rw
      (
        append_assoc head (payload ++ more) rest,
        append_assoc payload more rest,
        round_item head payload (more ++ rest) t (top ∷ stack) offset h
            (r (payload ++ (more ++ rest))) p s,
        ← place,
      )
      (passes more d fuel top stack (offset + (length head + length payload)) rest)
passes _ (group number inside more byte d e) fuel top stack offset rest =
    let open_tag = write_constructed_tag number true in
    let close_tag = write_constructed_tag number false in
    let here : ℕ = offset + length open_tag + length inside + length close_tag in
    let place : here + length more ≡ offset + length (open_tag ++ (inside ++ (close_tag ++ more))) =
      omega (
        arith,
        length-append open_tag (inside ++ (close_tag ++ more)),
        length-append inside (close_tag ++ more),
        length-append close_tag more,
      ) in
    rw
      (
        append_assoc open_tag (inside ++ (close_tag ++ more)) rest,
        append_assoc inside (close_tag ++ more) rest,
        append_assoc close_tag more rest,
        round_opening number (inside ++ (close_tag ++ (more ++ rest))) (top ∷ stack) offset byte,
        passes inside d (suc (rounds e fuel)) number (top ∷ stack) (offset + length open_tag)
            (close_tag ++ (more ++ rest)),
        round_closing number (more ++ rest) (top ∷ stack) (offset + length open_tag + length inside)
            byte,
        ← place,
      )
      (rw
        (close_inner number top stack (offset + length open_tag + length inside) here
          (more ++ rest))
        (passes more e fuel top stack here rest))

-- Fuel for the octets of the content is fuel for its rounds.
rounds_split :
    (c : Bytes) (d : Balanced c) (fuel : ℕ)
    → length c ≤ fuel
    → (k : ℕ) × (fuel ≡ rounds d k) × (fuel ≤ k + length c)
unfolding rounds
rounds_split _ empty fuel h = (fuel, refl, omega arith)
rounds_split _ (item head payload more t pos_h r p s d) fuel h =
    let size = length-append head (payload ++ more) in
    let size' = length-append payload more in
    let (k, e, le) = rounds_split more d (fuel - 1) (omega (arith, size, size')) in
    (k, omega (arith, e, size, size'), omega (arith, le, size, size'))
rounds_split _ (group number inside more byte d d') fuel h =
    let open_tag = write_constructed_tag number true in
    let close_tag = write_constructed_tag number false in
    let size = length-append open_tag (inside ++ (close_tag ++ more)) in
    let size' = length-append inside (close_tag ++ more) in
    let size'' = length-append close_tag more in
    let some = write_constructed_tag_pos true number in
    let some' = write_constructed_tag_pos false number in
    let (k, e, le) = rounds_split inside d (fuel - 1) (omega (arith, some, size, size')) in
    let (k', e', le') =
      rounds_split more d' (k - 1) (omega (arith, le, some, some', size, size', size'')) in
    let same : k ≡ suc (rounds d' k') =
      omega (arith, e', le, some, some', size, size', size'', h) in
    (
      k',
      rw (← same) (omega (arith, e, some, size, h)),
      omega (arith, le, le', some, some', size, size', size''),
    )

-- On content whose brackets match, in front of the closing tag of the outer number, and with more
-- fuel than octets of content, `propertyValueBounds` returns the offsets before and behind that
-- closing tag, whatever follows it.
pub value_bounds-Balanced :
    (c rest : Bytes) (number fuel offset : ℕ)
    → Balanced c
    → number < 256
    → length c < fuel
    → value_bounds fuel (number ∷ []) offset (c ++ (write_constructed_tag number false ++ rest))
      ≡ ok (offset + length c, offset + length c + length (write_constructed_tag number false))
value_bounds-Balanced c rest number fuel offset d byte h =
    let close_tag = write_constructed_tag number false in
    let (k, e, le) = rounds_split c d fuel (omega arith) in
    let more : k ≡ suc (k - 1) = omega (arith, le) in
    rw (e, passes c d k number [] offset (close_tag ++ rest), more)
      (unfold value_bounds in
        rw (
          round_closing number rest [] (offset + length c) byte,
          close_outer number (offset + length c) (offset + length c + length close_tag) rest,
        ))
