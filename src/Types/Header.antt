-- ===== src/Types/Header.antt =====
-- bacnet/types/header.go: the BVLC header of a BACnet/IP frame. A receiver that `UnmarshalBinary`
-- leaves half filled when it fails is not modelled: the result is then the error alone.
pub mod RoundTrip
use gobac.Prelude.{ℕ, ◌-◌, List, [], ◌∷◌, ◌++◌, Bool, ◌||◌, ◌==◌, leb}
use gobac.Result.{Result, ok, err, empty_input, truncated, unsupported, out_of_range}
use gobac.Result.{◌>>=◌, ◌>>◌, check}
use gobac.Types.Bytes.{Bytes}
use gobac.Types.Unsigned.{marshal_uint16, unmarshal_uint16}

pub record Header : Type 0 where
  pub protocol_type : ℕ
  pub function : ℕ
  pub bvlc_length : ℕ
  pub nsdu_length : ℕ

abbrev pub bacnet_protocol : ℕ
bacnet_protocol = 0x81

abbrev pub original_unicast_npdu : ℕ
original_unicast_npdu = 10

abbrev pub original_broadcast_npdu : ℕ
original_broadcast_npdu = 11

unfoldable pub is_broadcast : Header → Bool
is_broadcast h = h.function == original_broadcast_npdu

unfoldable pub marshal : Header → Bytes
marshal h = bacnet_protocol ∷ h.function ∷ marshal_uint16 h.bvlc_length

-- `buff.Next(2)`, and the lengths.
unfoldable pub unmarshal_lengths : ℕ → ℕ → Bytes → Result Header
unmarshal_lengths protocol function (b0 ∷ b1 ∷ rest) = do
  length_value ← unmarshal_uint16 (b0 ∷ b1 ∷ [])
  check (leb 4 length_value) out_of_range
  ok (record {
    protocol_type = protocol;
    function = function;
    bvlc_length = length_value;
    nsdu_length = length_value - 4;
  })
unmarshal_lengths protocol function _ = err truncated

unfoldable pub unmarshal_function : ℕ → Bytes → Result Header
unfolding unmarshal_lengths
unmarshal_function protocol [] = err truncated
unmarshal_function protocol (function ∷ rest) = do
  check (function == original_unicast_npdu || function == original_broadcast_npdu) unsupported
  unmarshal_lengths protocol function rest

unfoldable pub unmarshal : Bytes → Result Header
unfolding unmarshal_function
unmarshal [] = err empty_input
unmarshal (protocol ∷ rest) = do
  check (protocol == bacnet_protocol) unsupported
  unmarshal_function protocol rest
