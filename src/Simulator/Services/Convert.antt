-- ===== src/Simulator/Services/Convert.antt =====
-- toPropertyValue, fromPropertyValue and toBACnetObjectID of simulator/services.go.
use gobac.Prelude.{
  ℕ, List, [], ◌∷◌, ◌++◌, ◌≡◌, refl, arith, inl, inr, ◌==◌, if◌then◌else◌, Option, none, some,
}
use gobac.Result.{Result-cases, Result, ok, err, missing_value, ◌>>=◌}
use gobac.Types.ObjectId.{ObjectId, zero_object, set_instance_number}
use gobac.Types.GoValue.{GoValue, text, character_string, object_ref, object_id, ObjectRef, Floats}
use gobac.Types.Bytes.{Bytes}
use gobac.Types.Content.{marshal_values}
use gobac.Types.PropertyValue.{PropertyValue, marshal}
use gobac.Simulator.Property.{Value}
use gobac.Simulator.SubscribeRequest.{from_object_id}

-- `PropertyReference`: a property and, where there is one, an index.
pub record PropertyReference : Type 0 where
  pub id : ℕ
  pub array_index : Option ℕ

-- `toBACnetObjectID`
unfoldable pub to_object_id : ObjectRef → Result ObjectId
to_object_id r = set_instance_number (record zero_object { type = r.type }) r.instance_value

-- The encoding 0 is UTF-8.
abbrev as_character_string : GoValue → GoValue
as_character_string (text t) = character_string (record { value = t; encoding = 0 })
as_character_string v = v

abbrev as_object_id : GoValue → Result GoValue
as_object_id (object_ref r) = do o ← to_object_id r; ok (object_id o)
as_object_id v = ok v

unfoldable pub converted : ℕ → GoValue → Result GoValue
unfolding to_object_id
converted tag v =
    if tag == 7 then ok (as_character_string v) else if tag == 12 then as_object_id v else ok v

-- `toPropertyValue`
unfoldable pub to_property_value : Value → Result PropertyValue
unfolding converted
to_property_value v = do w ← converted v.tag v.value; ok (record { type = v.tag; value = w })

-- The loops that convert every value.
unfoldable pub to_property_values : List Value → Result (List PropertyValue)
to_property_values [] = ok []
to_property_values (v ∷ vs) = do w ← to_property_value v; ws ← to_property_values vs; ok (w ∷ ws)

-- The loops that convert and encode one value after the other.
unfoldable pub encode_values : Floats → List Value → Result Bytes
encode_values f [] = ok []
encode_values f (v ∷ vs) = do
  w ← to_property_value v
  b ← marshal f w
  more ← encode_values f vs
  ok (b ++ more)

abbrev plain_value : GoValue → GoValue
plain_value (character_string cs) = text cs.value
plain_value (object_id o) = object_ref (from_object_id o)
plain_value v = v

-- `fromPropertyValue` of a pointer that is not nil.
unfoldable pub from_property_value : PropertyValue → Value
from_property_value p = record { tag = p.type; value = plain_value p.value }

unfoldable pub from_pointers : List (Option PropertyValue) → Result (List Value)
from_pointers [] = ok []
from_pointers (none ∷ ps) = err missing_value
from_pointers (some p ∷ ps) = do vs ← from_pointers ps; ok (from_property_value p ∷ vs)

-- Where every value is converted, both ways of encoding them agree.
pub encode_values-convert :
    (f : Floats) (vs : List Value) (ps : List PropertyValue)
    → to_property_values vs ≡ ok ps
    → encode_values f vs ≡ marshal_values f ps
unfolding encode_values to_property_values marshal_values
encode_values-convert f [] ps h = ground arith
encode_values-convert f (v ∷ vs) ps h = elim (Result-cases (to_property_value v)) [
  | inr (_, e) ↦ absurd (ground arith)
  | inl (w, e) ↦ elim (Result-cases (to_property_values vs)) [
    | inr (_, e') ↦ absurd (ground arith)
    | inl (ws, e') ↦
        let same : ps ≡ w ∷ ws = ground arith in rw (same, e, encode_values-convert f vs ws e') refl
  ]
]
