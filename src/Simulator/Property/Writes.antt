-- ===== src/Simulator/Property/Writes.antt =====
-- Read and Write of a Property of simulator/model.go.
use gobac.Prelude.{ℕ, zero, suc, ◌-◌, ◌^◌, ◌≤◌, ◌<◌, ◌≡◌, refl, sym, ap, arith, ◌⊎◌, inl, inr}
use gobac.Prelude.{List, [], ◌∷◌, length, get_elem?}
use gobac.Prelude.{true, false, none, some}
use native.Mathlib.Decide.{dec_lt, ℕ_discrete}
use gobac.Types.GoValue.{uint32}
use gobac.Simulator.Errors.{Outcome, ok, err, ModelError, invalid_array_index}
use gobac.Simulator.Property.{Value, Property, is_commandable, effective_values, read, apply}
use gobac.Simulator.Property.{validate_write, validate_write_allowing_read_only, resolve_priority}
use gobac.Simulator.Property.{apply_validated, write, values_under}
use gobac.Simulator.Property.Priorities.{apply_validated-ok}

-- A write that fails changes nothing, and its validation fails with the same error.
pub write-err :
    (p p' : Property) (values : List Value) (priority : ℕ) (e : ModelError)
    → write p values priority ≡ (p', err e)
    → (p' ≡ p) × (validate_write p values priority ≡ err e)
unfolding write
write-err p p' values priority e h = invert (validate_write p values priority) h
  where
    invert : (r : Outcome ℕ) → apply_validated p values r ≡ (p', err e) → (p' ≡ p) × (r ≡ err e)
    invert (ok resolved) h =
        unfold apply_validated in cc (ap (λ (q : Property × Outcome (Unit {0})). q.1) h)
    invert (err e') h =
        let same : e' ≡ e = cc (ap (λ (q : Property × Outcome (Unit {0})). q.1) h) in
        (sym (ap (λ q. q.0) h), ap err same)

get_elem?-inside :
    (values : List Value) (i : ℕ) → i < length values → (v : Value) × (get_elem? values i ≡ some v)
get_elem?-inside [] i h = absurd (omega arith)
get_elem?-inside (v ∷ values) zero h = (v, refl)
get_elem?-inside (v ∷ values) (suc i) h = get_elem?-inside values i (omega arith)

-- What an array of at most 2^32 - 1 elements answers to an index.
-- What an index is answered with.
abbrev pub Answer : List Value → ℕ → Outcome (List Value) → Type 0
Answer values zero r = r ≡ ok (record { tag = 2; value = uint32 (length values) } ∷ [])
Answer values (suc i) r =
    ((i < length values) × ((v : Value) × (get_elem? values i ≡ some v) × (r ≡ ok (v ∷ []))))
    ⊎ ((length values ≤ i) × (r ≡ err invalid_array_index))

-- An array whose values are fewer than 2^32 - 1 answers every index of 32 bits but the last one: the
-- index 0 with the number of values, an index from 1 to that number with its value, and any other
-- index with an error; and the last index, which stands for the whole array, with all values.
pub read_array :
    (p : Property) (index : ℕ)
    → p.array ≡ true
    → length (effective_values p) < 2 ^ 32 - 1
    → index < 2 ^ 32
    → ((index ≡ 2 ^ 32 - 1) × (read p (some index) ≡ ok (effective_values p)))
      ⊎ (Answer (effective_values p) index (read p (some index)))
unfolding read
read_array p zero a few small = ground arith
read_array p (suc i) a few small = elim (dec_lt i (length (effective_values p))) [
  | yes inside ↦
      let (v, found) = get_elem?-inside (effective_values p) i inside in
      let at : get_elem? (effective_values p) (suc i - 1) ≡ some v =
        let same : suc i - 1 ≡ i = omega arith in rw same found in
      inr (inl (inside, (v, found, ground arith)))
  | no outside ↦ elim (ℕ_discrete (suc i) (2 ^ 32 - 1)) [
    | yes last ↦ inl (last, ground arith)
    | no before ↦ inr (inr (omega arith, ground arith))
  ]
]

validate_write-plain :
    (p : Property) (values : List Value) (priority resolved : ℕ)
    → is_commandable p ≡ false
    → validate_write p values priority ≡ ok resolved
    → priority ≡ 0
unfolding validate_write validate_write_allowing_read_only resolve_priority
validate_write-plain p values priority resolved c h = ground arith

effective_values-apply :
    (p : Property) (values : List Value) (priority : ℕ)
    → is_commandable p ≡ false
    → effective_values (apply p values priority) ≡ values
unfolding effective_values values_under apply
effective_values-apply p [] priority c = ground arith
effective_values-apply p (v ∷ rest) priority c = ground arith

-- A successful write to a property that takes no commands is one without a priority, and every value
-- written is read back.
pub read-write :
    (p p' : Property) (values : List Value) (priority : ℕ)
    → is_commandable p ≡ false
    → write p values priority ≡ (p', ok tt)
    → (priority ≡ 0) × (read p' none ≡ ok values)
unfolding read
read-write p p' values priority c h =
    let (resolved, valid, applied) =
      apply_validated-ok p p' values (validate_write p values priority) (unfold write in h) in
    (
      validate_write-plain p values priority resolved c valid,
      rw (← applied) (ap ok (effective_values-apply p values resolved c)),
    )
