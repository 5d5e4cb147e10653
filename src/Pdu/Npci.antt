-- ===== src/Pdu/Npci.antt =====
-- bacnet/pdu/npci.go: the network layer header. `UnmarshalBinary` leaves a half filled receiver when
-- it fails; the result is then the error alone.
pub mod Control
pub mod RoundTrip
use gobac.Prelude.{ℕ, ◌+◌, ◌-◌, ◌*◌, ◌/◌, ◌%◌, ◌^◌, bit_and, bit_or, List, [], ◌∷◌, ◌++◌, length}
use gobac.Prelude.{Bool, true, false, not, ◌||◌, ◌==◌, leb, if◌then◌else◌, Option, none, some}
use gobac.Result.{
  Result, ok, err, truncated, unsupported, out_of_range, invalid_value, missing_value,
}
use gobac.Result.{◌>>=◌, ◌>>◌, check}
use gobac.Types.Bytes.{Bytes}
use gobac.Types.Unsigned.{marshal_uint16, unmarshal_uint16}
use gobac.Pdu.Reader.{read_byte, next}

-- A MAC address is there or nil. The two IP addresses are kept nil by the codec.
pub record Npci : Type 0 where
  pub protocol_version : ℕ
  pub network_layer_message : Bool
  pub is_confirmed : Bool
  pub expecting_reply : Bool
  pub priority : ℕ
  pub hop_count : ℕ
  pub control_octet : ℕ
  pub length_read : ℕ
  pub destination_net : ℕ
  pub destination_length : ℕ
  pub destination_mac : Option Bytes
  pub destination_ip : Option Bytes
  pub source_net : ℕ
  pub source_length : ℕ
  pub source_mac : Option Bytes
  pub source_ip : Option Bytes

abbrev max_mac_len : ℕ
max_mac_len = 7

-- `Reset`
abbrev pub initial : Npci
initial = record {
  protocol_version = 1;
  network_layer_message = false;
  is_confirmed = false;
  expecting_reply = false;
  priority = 0;
  hop_count = 255;
  control_octet = 0;
  length_read = 0;
  destination_net = 0;
  destination_length = 0;
  destination_mac = none;
  destination_ip = none;
  source_net = 0;
  source_length = 0;
  source_mac = none;
  source_ip = none;
}

abbrev pub mac_bytes : Option Bytes → Bytes
mac_bytes none = []
mac_bytes (some mac) = mac

-- The network, the length and the address of one end.
abbrev pub address_bytes : ℕ → Bytes → Bytes
address_bytes net mac = if net == 0 then [] else marshal_uint16 net ++ (length mac % 256) ∷ mac

-- The control octet, bit by bit in the order of the source.
unfoldable pub control_of : Bool → Bool → Bool → ℕ → ℕ
control_of destination source reply priority =
    let c5 : ℕ = if destination then bit_or 0 0x20 else 0 in
    let c3 : ℕ = if source then bit_or c5 0x08 else c5 in
    let c2 : ℕ = if reply then bit_or c3 0x04 else c3 in bit_or c2 (bit_and priority 0x03)

-- The octets behind the guards of `MarshalBinary`.
unfoldable pub encode : Npci → Bytes
encode n =
    n.protocol_version
    ∷ control_of (not (n.destination_net == 0)) (not (n.source_net == 0)) n.expecting_reply
        n.priority
    ∷ (address_bytes n.destination_net (mac_bytes n.destination_mac)
        ++ (address_bytes n.source_net (mac_bytes n.source_mac)
            ++ (if n.destination_net == 0 then [] else n.hop_count ∷ [])))

unfoldable pub marshal : Npci → Result Bytes
marshal n = do
  check (not n.network_layer_message) unsupported
  let destination = mac_bytes n.destination_mac
  check (leb (length destination) max_mac_len) out_of_range
  check (n.destination_length == 0 || n.destination_length == length destination) invalid_value
  let source = mac_bytes n.source_mac
  check (leb (length source) max_mac_len) out_of_range
  check (n.source_length == 0 || n.source_length == length source) invalid_value
  check (n.source_net == 0 || not (length source == 0)) missing_value
  ok (encode n)

-- What is read of one end, and the octets left.
pub record Address : Type 0 where
  pub net : ℕ
  pub size : ℕ
  pub mac : Option Bytes
  pub rest : Bytes

-- The address octets, where the length is not zero.
unfoldable pub read_mac : ℕ → ℕ → Bytes → Result Address
read_mac net size b =
    if size == 0 then ok (record { net = net; size = size; mac = none; rest = b }) else (do
      (mac, rest) ← next size b
      ok (record { net = net; size = size; mac = some mac; rest = rest }))

-- One end, if its control bit is set.
unfoldable pub read_address : Bool → Bytes → Result Address
unfolding read_mac
read_address false b = ok (record { net = 0; size = 0; mac = none; rest = b })
read_address true b = do
  (word, behind) ← next 2 b
  net ← unmarshal_uint16 word
  (size, addressed) ← read_byte behind
  read_mac net size addressed

-- The hop count is read where the destination network is not zero.
unfoldable pub read_hop_count : ℕ → Bytes → Result (ℕ × Bytes)
read_hop_count net b = if net == 0 then ok (255, b) else read_byte b

unfoldable pub unmarshal : Bytes → Result Npci
unmarshal b = do
  (version, b1) ← read_byte b
  check (version == 1) unsupported
  (control, b2) ← read_byte b1
  check (bit_and control 0x80 == 0) unsupported
  destination ← read_address (not (bit_and control 0x20 == 0)) b2
  source ← read_address (not (bit_and control 0x08 == 0)) destination.rest
  (hop_count, left) ← read_hop_count destination.net source.rest
  ok (record initial {
    protocol_version = version;
    control_octet = control;
    expecting_reply = not (bit_and control 0x04 == 0);
    priority = bit_and control 0x03;
    hop_count = hop_count;
    length_read = length b - length left;
    destination_net = destination.net;
    destination_length = destination.size;
    destination_mac = destination.mac;
    source_net = source.net;
    source_length = source.size;
    source_mac = source.mac;
  })
