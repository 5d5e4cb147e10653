-- ===== src/Pdu/SubscribeCov.antt =====
-- bacnet/pdu/cov_request.go: the client's encoder of a SubscribeCOV request.
pub mod Simulated
use gobac.Prelude.{
  ℕ, List, [], ◌∷◌, ◌++◌, Bool, true, false, ◌==◌, if◌then◌else◌, Option, none, some,
}
use gobac.Result.{Result, ok, err, missing_value}
use gobac.Types.Bytes.{Bytes}
use gobac.Types.ObjectId
use gobac.Types.ObjectId.{ObjectId}
use gobac.Types.Unsigned.{encode_var_uint}
use gobac.Types.Context.{write_context}

-- `ObjectId` is a pointer, and may be nil. `Timeout` is not consulted.
pub record SubscribeCov : Type 0 where
  pub process_identifier : ℕ
  pub process_identifier32 : ℕ
  pub object_id : Option ObjectId
  pub cancel : Bool
  pub timeout : ℕ
  pub issue_confirmed : Bool
  pub lifetime : ℕ
  pub has_lifetime : Bool

-- The wide identifier, or the narrow one where that is 0.
abbrev pub process_of : SubscribeCov → ℕ
process_of p = if p.process_identifier32 == 0 then p.process_identifier else p.process_identifier32

abbrev pub confirmed_octet : Bool → ℕ
confirmed_octet confirmed = if confirmed then 1 else 0

unfoldable pub lifetime_bytes : SubscribeCov → Bytes
lifetime_bytes p = if p.has_lifetime then write_context 3 (encode_var_uint p.lifetime) else []

-- What a request carries that does not cancel.
unfoldable pub option_bytes : SubscribeCov → Bytes
unfolding lifetime_bytes
option_bytes p =
    if p.cancel
    then []
    else write_context 2 (confirmed_octet p.issue_confirmed ∷ []) ++ lifetime_bytes p

unfoldable pub marshal_subscribe_cov : SubscribeCov → Result Bytes
unfolding option_bytes
marshal_subscribe_cov p = elim p.object_id [
  | none ↦ err missing_value
  | some o ↦ ok (
      write_context 0 (encode_var_uint (process_of p))
      ++ (write_context 1 (ObjectId.marshal o) ++ option_bytes p))
]
