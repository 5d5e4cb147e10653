-- ===== src/Pdu/Property.antt =====
-- The confirmed property services of the client: bacnet/pdu/read_property.go and
-- bacnet/pdu/write_property.go. The property of a ReadProperty request is never nil.
use gobac.Prelude.{ℕ, Bool, not, ◌&&◌, ◌==◌, ltb, if◌then◌else◌, length}
use gobac.Prelude.{[], ◌∷◌, ◌++◌, Option, none, some}
use gobac.Result.{Result, ok, err, missing_value, out_of_range, ◌>>=◌, ◌>>◌, check}
use gobac.Types.Bytes.{Bytes}
use gobac.Types.GoValue.{Floats}
use gobac.Types.Context.{write_context}
use gobac.Types.Property.{Property, zero_property, marshal_property, unmarshal_property}

pub record ReadPropertyPdu : Type 0 where
  pub property : Property
  pub require_value : Bool

-- `ReadPropertyPdu.MarshalBinary`
unfoldable pub marshal_read_property : Floats → ReadPropertyPdu → Result Bytes
marshal_read_property f p = marshal_property f p.property

-- `ReadPropertyPdu.UnmarshalBinary`; the receiver keeps `RequireValue`.
unfoldable pub unmarshal_read_property : ReadPropertyPdu → Bytes → Result ReadPropertyPdu
unmarshal_read_property p bs = do
  property ← unmarshal_property zero_property bs
  check (not (p.require_value && length property.values == 0)) missing_value
  ok (record p { property = property })

-- `priority` is a `uint8`, 0 for none.
pub record WriteProperty : Type 0 where
  pub property : Option Property
  pub priority : ℕ

abbrev pub priority_bytes : ℕ → Bytes
priority_bytes n = if ltb 0 n then write_context 4 (n ∷ []) else []

-- What `WriteProperty.MarshalBinary` does with a property.
unfoldable pub marshal_with_priority : Floats → Property → ℕ → Result Bytes
marshal_with_priority f p priority = do
  check (not (ltb 16 priority)) out_of_range
  bytes ← marshal_property f p
  ok (bytes ++ priority_bytes priority)

-- `WriteProperty.MarshalBinary`
unfoldable pub marshal_write_property : Floats → WriteProperty → Result Bytes
unfolding marshal_with_priority
marshal_write_property f p = elim p.property [
  | none ↦ err missing_value
  | some property ↦ marshal_with_priority f property p.priority
]
