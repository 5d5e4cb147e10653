-- ===== src/Simulator/Changes.antt =====
-- covChanged of simulator/application.go: whether a present value changed enough for a notification.
use gobac.Prelude.{ℕ, List, ◌∷◌, length, Bool, true, false, not, ◌&&◌, ◌||◌, ◌==◌, if◌then◌else◌}
use gobac.Prelude.{Option, none, some}
use gobac.Prelude.Maps.{number_key, lookup}
use gobac.Prelude.Int.{ℤ, pos, negsuc}
use gobac.Result.{Result, ok, err, go_panic, ◌>>=◌}
use gobac.Types.Bytes.{bytes_eq}
use gobac.Types.Scalars.{CharacterString, Date, Time}
use gobac.Types.ObjectId.{ObjectId}
use gobac.Types.GoValue.{GoValue, nil, bool, uint32, int32, float32, real, float64, double, octets}
use gobac.Types.GoValue.{bit_string, text, character_string, date, time, object_id, object_ref}
use gobac.Types.GoValue.{Floats, same_ref, convert_float64, ObjectRef}
use gobac.Types.PropertyValue.{PropertyValue}
use gobac.Simulator.Errors
use gobac.Simulator.Property.{Value, Property}
use gobac.Simulator.Object.{Object, present_value}
use gobac.Simulator.Device.{Device, find_object}
use gobac.Simulator.Services.Convert.{to_property_value}

-- Go's comparisons of floats, on bit patterns: `x > 0`, `math.Abs(x - y) >= z`, and `==` in 32 and in
-- 64 bits.
pub record FloatTests : Type 0 where
  pub positive : ℕ → Bool
  pub apart : ℕ → ℕ → ℕ → Bool
  pub same32 : ℕ → ℕ → Bool
  pub same64 : ℕ → ℕ → Bool

abbrev same_bool : Bool → Bool → Bool
same_bool true b = b
same_bool false b = not b

abbrev same_integer : ℤ → ℤ → Bool
same_integer (pos m) (pos n) = m == n
same_integer (negsuc m) (negsuc n) = m == n
same_integer _ _ = false

abbrev same_text : CharacterString → CharacterString → Bool
same_text a b = bytes_eq a.value b.value && a.encoding == b.encoding

abbrev same_date : Date → Date → Bool
same_date a b = a.year == b.year && a.month == b.month && a.day == b.day && a.weekday == b.weekday

abbrev same_time : Time → Time → Bool
same_time a b =
    a.hour == b.hour && a.minute == b.minute && a.second == b.second && a.hundredths == b.hundredths

abbrev same_object_id : ObjectId → ObjectId → Bool
same_object_id a b =
    a.type == b.type
    && a.instance_low == b.instance_low
    && a.extended_instance == b.extended_instance

-- `reflect.DeepEqual`; a nil slice of octets is taken to be an empty one.
unfoldable pub deep_equal : FloatTests → GoValue → GoValue → Bool
deep_equal t nil nil = true
deep_equal t (bool a) (bool b) = same_bool a b
deep_equal t (uint32 a) (uint32 b) = a == b
deep_equal t (int32 a) (int32 b) = same_integer a b
deep_equal t (float32 a) (float32 b) = t.same32 a b
deep_equal t (real a) (real b) = t.same32 a b
deep_equal t (float64 a) (float64 b) = t.same64 a b
deep_equal t (double a) (double b) = t.same64 a b
deep_equal t (octets a) (octets b) = bytes_eq a b
deep_equal t (bit_string a) (bit_string b) = bytes_eq a b
deep_equal t (text a) (text b) = bytes_eq a b
deep_equal t (character_string a) (character_string b) = same_text a b
deep_equal t (date a) (date b) = same_date a b
deep_equal t (time a) (time b) = same_time a b
deep_equal t (object_id a) (object_id b) = same_object_id a b
deep_equal t (object_ref a) (object_ref b) = same_ref a b
deep_equal t _ _ = false

-- `IsNumeric` and `ReadAsFloat64`: the number of a numeric value. Asking the type of nil panics.
abbrev numeric : Floats → GoValue → Result (Option ℕ)
numeric f nil = err go_panic
numeric f v = ok (convert_float64 f v)

abbrev numeric_of : Floats → Result PropertyValue → Result (Option ℕ)
numeric_of f (err e) = ok none
numeric_of f (ok p) = numeric f p.value

-- The distance of two numbers reaches the increment; nothing is said of other values. The second value
-- is asked for its type only where the first is a number and both were converted.
abbrev far_if_numeric :
    FloatTests → Floats → ℕ → Option ℕ → Result PropertyValue → Result (Option Bool)
far_if_numeric t f increment none new = ok none
far_if_numeric t f increment (some old) new = do
  number ← numeric_of f new
  ok (elim number [ none ↦ none | some n ↦ some (t.apart n old increment) ])

abbrev far_values :
    FloatTests → Floats → ℕ → Result PropertyValue → Result PropertyValue → Result (Option Bool)
far_values t f increment (err e) new = ok none
far_values t f increment (ok p) (err e) = ok none
far_values t f increment (ok p) (ok q) = do
  old ← numeric f p.value
  far_if_numeric t f increment old (ok q)

abbrev far : FloatTests → Floats → ℕ → Value → Value → Result (Option Bool)
far t f increment a b =
    if t.positive increment
    then far_values t f increment (to_property_value a) (to_property_value b)
    else ok none

abbrev differs : FloatTests → Value → Value → Bool
differs t a b = not (a.tag == b.tag) || not (deep_equal t a.value b.value)

-- One round of the loop.
unfoldable pub value_changed : FloatTests → Floats → ℕ → Value → Value → Result Bool
unfolding deep_equal
value_changed t f increment a b = do
  distance ← far t f increment a b
  ok (elim distance [ none ↦ differs t a b | some reached ↦ reached ])

-- The loop; the lists have one length.
unfoldable pub values_changed : FloatTests → Floats → ℕ → List Value → List Value → Result Bool
unfolding value_changed
values_changed t f increment (a ∷ previous) (b ∷ current) = value_changed t f increment a b >>= λ c.
    elim c [ true ↦ ok true | false ↦ values_changed t f increment previous current ]
values_changed t f increment _ _ = ok false

-- The increment of the present value, 0.0 if there is none.
abbrev increment_of : Option Property → ℕ
increment_of none = 0
increment_of (some p) = p.cov_increment

abbrev changed_in :
    FloatTests → Floats → Errors.Outcome Object → List Value → List Value → Result Bool
changed_in t f (Errors.err e) previous current = ok false
changed_in t f (Errors.ok o) previous current =
    values_changed t f (increment_of (lookup present_value o.properties)) previous current

-- `covChanged`
unfoldable pub cov_changed :
    FloatTests → Floats → Device → ObjectRef → List Value → List Value → Result Bool
unfolding values_changed
cov_changed t f d object previous current =
    if not (length previous == length current)
    then ok true
    else changed_in t f (find_object d object) previous current
