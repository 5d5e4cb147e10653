-- ===== src/Simulator/Response.antt =====
-- bacnet/responder/response.go, and the endpoints of bacnet/transport/transport.go. Copies of byte slices
-- are the slices.
use gobac.Prelude.{ℕ, [], Bool, false, Option, none, some}
use gobac.Types.Bytes.{Bytes}

pub record Endpoint : Type 0 where
  pub ip : Bytes
  pub port : ℕ
  pub network : ℕ
  pub mac : Bytes

pub record Response : Type 0 where
  pub pdu_type : ℕ
  pub service_choice : ℕ
  pub payload : Bytes
  pub error_class : ℕ
  pub error_code : ℕ
  pub reject_reason : ℕ
  pub abort_reason : ℕ
  pub invoke_id : ℕ
  pub destination : Option Endpoint
  pub broadcast : Bool

-- A literal with the type of its PDU (pdu_type.go, in the high half of an octet) and the fields that Go
-- leaves at zero.
abbrev pub plain : ℕ → Response
plain type = record {
  pdu_type = type;
  service_choice = 0;
  payload = [];
  error_class = 0;
  error_code = 0;
  reject_reason = 0;
  abort_reason = 0;
  invoke_id = 0;
  destination = none;
  broadcast = false;
}

-- `SimpleACK`
abbrev pub simple_ack : Response
simple_ack = plain 0x20

-- `ComplexACK`
abbrev pub complex_ack : Bytes → Response
complex_ack payload = record (plain 0x30) { payload = payload }

-- `ErrorResponse`
abbrev pub error_response : ℕ → ℕ → Response
error_response class code = record (plain 0x50) { error_class = class; error_code = code }

-- `Reject`
abbrev pub reject : ℕ → Response
reject reason = record (plain 0x60) { reject_reason = reason }

-- `Unconfirmed`
abbrev pub unconfirmed : ℕ → Bytes → Response
unconfirmed choice payload = record (plain 0x10) { service_choice = choice; payload = payload }

-- `Confirmed`
abbrev pub confirmed : ℕ → ℕ → Bytes → Response
confirmed choice id payload = record (plain 0) {
  service_choice = choice;
  invoke_id = id;
  payload = payload;
}

-- `To`
abbrev pub to : Response → Endpoint → Response
to r e = record r { destination = some e }
