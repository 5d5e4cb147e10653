-- ===== src/Simulator/Property/Priorities.antt =====
-- The command priorities: which slot a write goes to, and which value is in force.
use gobac.Prelude.{ℕ, zero, suc, ◌-◌, ◌≤◌, ◌<◌, ◌≡◌, ◌≢◌, refl, sym, ap, arith, inl, inr}
use gobac.Prelude.{List, [], ◌∷◌, length, set, get_elem?, take, length-set}
use gobac.Prelude.{Bool, true, false, ◌==◌, if◌then◌else◌, Option, none, some, Option-cases}
use gobac.Simulator.Errors.{Outcome, ok, err}
use gobac.Simulator.Property.{Value, Property, priority_slots, is_null, is_commandable}
use gobac.Simulator.Property.{first_set, effective_values, resolve_priority, apply}
use gobac.Simulator.Property.{validate_write_allowing_read_only}
use gobac.Simulator.Property.{validate_write, apply_validated, write}

-- A slot that holds a value.
abbrev pub any_set : List (Option Value) → Bool
any_set [] = false
any_set (none ∷ slots) = any_set slots
any_set (some v ∷ slots) = true

first_set-set :
    (slots : List (Option Value)) (i : ℕ) (v default : Value)
    → i < length slots
    → first_set (set slots i (some v)) default
      ≡ (if any_set (take i slots) then first_set slots default else v)
unfolding first_set
first_set-set [] i v default h = absurd (omega arith)
first_set-set (none ∷ slots) zero v default h = refl
first_set-set (some w ∷ slots) zero v default h = refl
first_set-set (none ∷ slots) (suc i) v default h = first_set-set slots i v default (omega arith)
first_set-set (some w ∷ slots) (suc i) v default h = refl

set-set_self :
    (slots : List (Option Value)) (i : ℕ) (o : Option Value) (x : Option Value)
    → get_elem? slots i ≡ some x
    → set (set slots i o) i x ≡ slots
set-set_self [] i o x h = refl
set-set_self (s ∷ slots) zero o x h = cc
set-set_self (s ∷ slots) (suc i) o x h = ap (λ t. s ∷ t) (set-set_self slots i o x h)

-- A command: a default, and a slot for each priority.
pub record IsCommand (p : Property) : Type 0 where
  pub commandable : is_commandable p ≡ true
  pub slots : length p.priorities ≡ priority_slots

-- The priority that a write names: none means the lowest.
abbrev pub target : ℕ → ℕ
target priority = if priority == 0 then priority_slots else priority

resolve_priority-target :
    (p : Property) (priority resolved : ℕ)
    → is_commandable p ≡ true
    → resolve_priority p priority ≡ ok resolved
    → (resolved ≡ target priority) × (1 ≤ resolved) × (resolved ≤ priority_slots) × (resolved ≢ 6)
unfolding resolve_priority
resolve_priority-target p priority resolved c h = ground arith

validate_write-target :
    (p : Property) (values : List Value) (priority resolved : ℕ)
    → is_commandable p ≡ true
    → validate_write p values priority ≡ ok resolved
    → (resolved ≡ target priority) × (1 ≤ resolved) × (resolved ≤ priority_slots) × (resolved ≢ 6)
unfolding validate_write validate_write_allowing_read_only
validate_write-target p values priority resolved c h =
    ground (arith, resolve_priority-target p priority resolved c)

pub apply_validated-ok :
    (p p' : Property) (values : List Value) (r : Outcome ℕ)
    → apply_validated p values r ≡ (p', ok tt)
    → (resolved : ℕ) × (r ≡ ok resolved) × (apply p values resolved ≡ p')
unfolding apply_validated
apply_validated-ok p p' values (ok resolved) h = (resolved, refl, ap (λ r. r.0) h)
apply_validated-ok p p' values (err e) h = cc (ap (λ (r : Property × Outcome (Unit {0})). r.1) h)

-- A successful write went to the slot of its priority, which is from 1 to 16 and not 6.
write-apply :
    (p p' : Property) (values : List Value) (priority : ℕ)
    → is_commandable p ≡ true
    → write p values priority ≡ (p', ok tt)
    → (apply p values (target priority) ≡ p')
      × (1 ≤ target priority)
      × (target priority ≤ priority_slots)
      × (target priority ≢ 6)
unfolding write
write-apply p p' values priority c h =
    let (resolved, valid, applied) =
      apply_validated-ok p p' values (validate_write p values priority) h in
    let (named, low, high, free) = validate_write-target p values priority resolved c valid in
    (rw (← named) applied, rw named at low, rw named at high, rw named at free)

effective-first_set :
    (p : Property) (default : Value)
    → p.relinquish_default ≡ some default
    → effective_values p ≡ first_set p.priorities default ∷ []
unfolding effective_values
effective-first_set p default h = rw h

-- What `apply` does to a command.
apply-command :
    (p : Property) (v : Value) (rest : List Value) (priority : ℕ)
    → is_commandable p ≡ true
    → apply p (v ∷ rest) priority ≡ record p {
      priorities = set p.priorities (priority - 1) (if is_null v then none else some v);
    }
unfolding apply
apply-command p v rest priority c = rw c

effective-set :
    (p : Property) (i : ℕ) (v : Value)
    → is_commandable p ≡ true
    → i < length p.priorities
    → effective_values (record p { priorities = set p.priorities i (some v) })
      ≡ (if any_set (take i p.priorities) then effective_values p else v ∷ [])
effective-set p i v c h = elim (Option-cases p.relinquish_default) [
  | inl e ↦ cc (e, c)
  | inr (default, e) ↦
      rw
        (
          effective-first_set (record p { priorities = set p.priorities i (some v) }) default e,
          effective-first_set p default e,
          first_set-set p.priorities i v default h,
        )
        (ground arith)
]

-- After a successful write of a value that is not NULL to a command with 16 slots, the value in force
-- is the one written, unless a slot of higher priority is set: then it is the one from before.
pub effective_values-write :
    (p p' : Property) (v : Value) (rest : List Value) (priority : ℕ)
    → IsCommand p
    → is_null v ≡ false
    → write p (v ∷ rest) priority ≡ (p', ok tt)
    → effective_values p'
      ≡ (if any_set (take (target priority - 1) p.priorities) then effective_values p else v ∷ [])
effective_values-write p p' v rest priority c set_value h =
    let (applied, low, high, free) = write-apply p p' (v ∷ rest) priority c.commandable h in
    rw (← applied, apply-command p v rest (target priority) c.commandable, set_value)
      (effective-set p (target priority - 1) v c.commandable (omega (arith, c.slots)))

-- On a command with 16 slots: a successful write at a priority whose slot was free, and then one of
-- NULL at the same priority, give back the property that was there.
pub relinquish-write :
    (p p' p'' : Property) (v null : Value) (rest rest' : List Value) (priority : ℕ)
    → IsCommand p
    → get_elem? p.priorities (target priority - 1) ≡ some none
    → is_null null ≡ true
    → write p (v ∷ rest) priority ≡ (p', ok tt)
    → write p' (null ∷ rest') priority ≡ (p'', ok tt)
    → p'' ≡ p
relinquish-write p p' p'' v null rest rest' priority c free n h k =
    let slot = target priority - 1 in
    let new = (if is_null v then none else some v) in
    let q = record p { priorities = set p.priorities slot new } in
    let (first, _, _, _) = write-apply p p' (v ∷ rest) priority c.commandable h in
    let written : q ≡ p' = rw (apply-command p v rest (target priority) c.commandable) at first in
    let (second, _, _, _) =
      write-apply q p'' (null ∷ rest') priority c.commandable (rw (← written) at k) in
    let cleared = rw (apply-command q null rest' (target priority) c.commandable, n) at second in
    rw (set-set_self p.priorities slot new none free) at (sym cleared)

-- `q` is `p` with other slots, as many as a command has.
abbrev pub SameCommand : Property → Property → Type 0
SameCommand p q = IsCommand q × (q ≡ record p { priorities = q.priorities })

apply-SameCommand :
    (p : Property) (values : List Value) (priority : ℕ)
    → IsCommand p
    → SameCommand p (apply p values priority)
unfolding apply
apply-SameCommand p [] priority c = rw c.commandable (c, refl)
apply-SameCommand p (v ∷ rest) priority c = rw c.commandable (
  record {
    commandable = c.commandable;
    slots =
        rw (length-set p.priorities (priority - 1) (if is_null v then none else some v)) c.slots;
  },
  refl,
)

-- A write, successful or not, leaves a command with 16 slots, and of its fields it changes at most the
-- slots.
pub write-SameCommand :
    (p : Property) (values : List Value) (priority : ℕ)
    → IsCommand p
    → SameCommand p (write p values priority).0
unfolding write
write-SameCommand p values priority c = either (validate_write p values priority)
  where
    either : (r : Outcome ℕ) → SameCommand p (apply_validated p values r).0
    either (ok resolved) = unfold apply_validated in apply-SameCommand p values resolved c
    either (err e) = unfold apply_validated in (c, refl)
