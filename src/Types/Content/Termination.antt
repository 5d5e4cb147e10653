-- ===== src/Types/Content/Termination.antt =====
-- The fuel of propertyValueBounds and of the loop over the values, bacnet/types/property.go.
use gobac.Prelude.{
  ℕ, zero, suc, ◌-◌, ◌+◌, ◌≤◌, ◌<◌, ◌≡◌, refl, arith, List, [], ◌∷◌, length, drop, take,
  length-drop,
}
use gobac.Prelude.{false, ◌==◌, ◌||◌, Bool-cases, inl, inr}
use gobac.Prelude.Int.{ℤ, pos, negsuc}
use gobac.Result.{Error, Result, ok, err, is_fuel, ◌>>=◌}
use gobac.Result.Halts.{Halts, halting, halts_ok, halts_err, Halts-bind}
use gobac.Types.Bytes.{Bytes}
use gobac.Types.Tag.{Tag, decode_tag}
use gobac.Types.PropertyValue.{PropertyValue, unmarshal, payload_length}
use gobac.Types.PropertyValue.Fuel.{unmarshal-Halts}
use gobac.Types.Content.{
  Progress, bounds, onward, close, bounds_behind, bounds_round, value_bounds, fitting, Element,
  constructed, element, element_behind, next_element, read_values, Content, raw, announced, prepend,
}

-- A round that does not finish takes an octet at least.
data Moves (n : ℕ) : Result Progress → Type 0 where
  moves_err : (e : Error) → is_fuel e ≡ false → Moves n (err e)
  moves_bounds : (start stop : ℕ) → Moves n (ok (bounds start stop))
  moves_onward :
      (stack : List ℕ) (offset : ℕ) (rest : Bytes)
      → length rest < n
      → Moves n (ok (onward stack offset rest))

pub fitting-Halts : (len : ℤ) (room : ℕ) → Halts (fitting len room)
unfolding fitting
fitting-Halts (pos n) room = search halting
fitting-Halts (negsuc n) room = search halting

close-Moves :
    (stack : List ℕ) (number start offset n : ℕ) (bs : Bytes)
    → length bs < n
    → Moves n (close stack number start offset bs)
unfolding close
close-Moves [] number start offset n bs h = moves_err _ refl
close-Moves (top ∷ []) number start offset n bs h = elim (Bool-cases (top == number)) [
  | inl e ↦ rw e (moves_bounds _ _)
  | inr e ↦ rw e (moves_err _ refl)
]
close-Moves (top ∷ below ∷ stack) number start offset n bs h = elim (Bool-cases (top == number)) [
  | inl e ↦ rw e (moves_onward _ _ _ h)
  | inr e ↦ rw e (moves_err _ refl)
]

skip-Moves :
    (stack : List ℕ) (offset r : ℕ) (bs : Bytes) (n : Result ℕ)
    → 1 ≤ length bs
    → 1 ≤ r
    → Halts n
    → Moves (length bs) (n >>= λ k. ok (onward stack (offset + (r + k)) (drop (r + k) bs)))
skip-Moves stack offset r bs _ h k (halts_ok n) =
    moves_onward _ _ _ (omega (arith, length-drop (r + n) bs))
skip-Moves stack offset r bs _ h k (halts_err e p) = moves_err e p

bounds_behind-Moves :
    (t : Tag) (r : ℕ) (stack : List ℕ) (offset : ℕ) (bs : Bytes)
    → 1 ≤ length bs
    → Moves (length bs) (bounds_behind (t, r) stack offset bs)
unfolding bounds_behind
bounds_behind-Moves t r stack offset bs h = elim (Bool-cases (r == 0)) [
  | inl e ↦ rw e (moves_err _ refl)
  | inr e ↦
      let shorter : length (drop r bs) < length bs = ground (arith, length-drop r bs) in
      rw e elim (Bool-cases t.opening) [
        | inl o ↦ rw o (moves_onward _ _ _ shorter)
        | inr o ↦ rw o elim (Bool-cases t.closing) [
          | inl c ↦ rw c (close-Moves stack t.tag_number offset (offset + r) _ _ shorter)
          | inr c ↦ rw c (
              skip-Moves stack offset r bs _ h (ground arith)
                (fitting-Halts (announced t) (length bs - r)))
        ]
      ]
]

bounds_round-Moves :
    (stack : List ℕ) (offset : ℕ) (bs : Bytes) → Moves (length bs) (bounds_round stack offset bs)
unfolding bounds_round
bounds_round-Moves stack offset [] = moves_err _ refl
bounds_round-Moves stack offset (b0 ∷ bs) =
    let (t, r) = decode_tag (b0 ∷ bs) in
    bounds_behind-Moves t r stack offset (b0 ∷ bs) (omega arith)

abbrev next_bounds : ℕ → Progress → Result (ℕ × ℕ)
next_bounds fuel p = elim p [
  | bounds start stop ↦ ok (start, stop)
  | onward s o rest ↦ value_bounds fuel s o rest
]

-- With more fuel than octets the search for the closing tag ends by itself.
pub value_bounds-Halts :
    (fuel : ℕ) (stack : List ℕ) (offset : ℕ) (bs : Bytes)
    → length bs < fuel
    → Halts (value_bounds fuel stack offset bs)
unfolding value_bounds
value_bounds-Halts zero stack offset bs h = absurd (omega arith)
value_bounds-Halts (suc fuel) stack offset bs h =
    round_ends _ (bounds_round-Moves stack offset bs) (value_bounds-Halts fuel)
  where
    round_ends :
        (p : Result Progress)
        → Moves (length bs) p
        → ((s : List ℕ) (o : ℕ) (rest : Bytes)
            → length rest < fuel
            → Halts (value_bounds fuel s o rest))
        → Halts (p >>= next_bounds fuel)
    round_ends _ (moves_err e q) ih = halts_err e q
    round_ends _ (moves_bounds start stop) ih = halts_ok _
    round_ends _ (moves_onward s o rest k) ih = ih s o rest (omega arith)

-- An element takes an octet at least.
pub data Consumes : Result Element → Type 0 where
  consumes_err : (e : Error) → is_fuel e ≡ false → Consumes (err e)
  consumes_raw : Consumes (ok constructed)
  consumes_element : (v : PropertyValue) (n : ℕ) → 1 ≤ n → Consumes (ok (element v n))

consume_value :
    (r : ℕ) (bs : Bytes) (n : Result ℕ)
    → 1 ≤ r
    → Halts n
    → Consumes (n >>= λ k. unmarshal (take (r + k) bs) >>= λ v. ok (element v (r + k)))
consume_value r bs _ h (halts_ok k) = with_value _ (unmarshal-Halts (take (r + k) bs))
  where
    with_value : (v : Result PropertyValue) → Halts v → Consumes (v >>= λ x. ok (element x (r + k)))
    with_value _ (halts_ok v) = consumes_element v _ (omega arith)
    with_value _ (halts_err e p) = consumes_err e p
consume_value r bs _ h (halts_err e p) = consumes_err e p

element_behind-Consumes : (t : Tag) (r : ℕ) (bs : Bytes) → Consumes (element_behind (t, r) bs)
unfolding element_behind
element_behind-Consumes t r bs = elim (Bool-cases (r == 0)) [
  | inl e ↦ rw e (consumes_err _ refl)
  | inr e ↦ rw e elim (Bool-cases (t.context || t.opening || t.closing)) [
    | inl c ↦ rw c consumes_raw
    | inr c ↦
        rw c
          (consume_value r bs _ (ground arith) (fitting-Halts (payload_length t) (length bs - r)))
  ]
]

pub next_element-Consumes : (bs : Bytes) → Consumes (next_element bs)
unfolding next_element
next_element-Consumes [] = consumes_err _ refl
next_element-Consumes (b0 ∷ bs) =
    let (t, r) = decode_tag (b0 ∷ bs) in element_behind-Consumes t r (b0 ∷ bs)

abbrev next_values : ℕ → ℕ → Bytes → Element → Result Content
next_values fuel left bs e = elim e [
  | constructed ↦ ok raw
  | element v n ↦ read_values fuel (left - n) (drop n bs) >>= λ c. ok (prepend v c)
]

-- With more fuel than octets of content the loop over the values ends by itself.
pub read_values-Halts :
    (fuel left : ℕ) (bs : Bytes) → left < fuel → Halts (read_values fuel left bs)
unfolding read_values
read_values-Halts zero left bs h = absurd (omega arith)
read_values-Halts (suc fuel) zero bs h = halts_ok _
read_values-Halts (suc fuel) (suc left) bs h =
    round_ends _ (next_element-Consumes bs) (read_values-Halts fuel)
  where
    round_ends :
        (e : Result Element)
        → Consumes e
        → ((left' : ℕ) (rest : Bytes) → left' < fuel → Halts (read_values fuel left' rest))
        → Halts (e >>= next_values fuel (suc left) bs)
    round_ends _ (consumes_err e q) ih = halts_err e q
    round_ends _ consumes_raw ih = halts_ok _
    round_ends _ (consumes_element v n k) ih =
        Halts-bind _ (ih (suc left - n) (drop n bs) (omega arith)) (λ c. halts_ok _)
