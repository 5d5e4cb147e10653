-- ===== src/Pdu/Npci/RoundTrip.antt =====
-- MarshalBinary and UnmarshalBinary of bacnet/pdu/npci.go, one after the other.
use gobac.Prelude.{ℕ, ◌^◌, ◌≤◌, ◌<◌, ◌≡◌, ◌≢◌}
use gobac.Prelude.{false, ◌==◌, if◌then◌else◌, Option, none, some}
use gobac.Prelude.{[], ◌∷◌, ◌++◌, length}
use gobac.Types.Bytes.{Bytes}
use gobac.Pdu.Npci.{Npci, mac_bytes, address_bytes}

-- One end: the network has 16 bits, no address stands without a network, and an address has 1 to 7
-- octets, as many as its length says.
abbrev pub IsEnd : ℕ → ℕ → Option Bytes → Type 0
IsEnd net size none = (net < 2 ^ 16) × (size ≡ 0)
IsEnd net size (some mac) =
    (net < 2 ^ 16) × (net ≢ 0) × (1 ≤ length mac) × (length mac ≤ 7) × (size ≡ length mac)

-- A header that the codec carries whole. A source has an address, and without a destination the hop
-- count is 255.
pub record IsWellFormed (n : Npci) : Type 0 where
  pub version : n.protocol_version ≡ 1
  pub no_message : n.network_layer_message ≡ false
  pub unconfirmed : n.is_confirmed ≡ false
  pub urgency : n.priority < 4
  pub destination : IsEnd n.destination_net n.destination_length n.destination_mac
  pub source : IsEnd n.source_net n.source_length n.source_mac
  pub addressed : n.source_mac ≡ none → n.source_net ≡ 0
  pub hops : n.destination_net ≡ 0 → n.hop_count ≡ 255
  pub no_ip : (n.destination_ip ≡ none) × (n.source_ip ≡ none)

-- The octets behind the first two, in their three parts.
body : Npci → Bytes → Bytes
body n rest =
    address_bytes n.destination_net (mac_bytes n.destination_mac)
    ++ (address_bytes n.source_net (mac_bytes n.source_mac)
        ++ ((if n.destination_net == 0 then [] else n.hop_count ∷ []) ++ rest))
