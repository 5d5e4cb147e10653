-- ===== src/Types/Header/RoundTrip.antt =====
-- The BVLC header on the wire.
use gobac.Prelude.{◌+◌, ◌/◌, ◌%◌, ◌^◌, ◌<◌, ◌≡◌, ◌⊎◌, arith}
use gobac.Prelude.{[], ◌∷◌, ◌++◌}
use gobac.Result.{ok}
use gobac.Types.Bytes.{Bytes, IsBytes}
use gobac.Types.Unsigned.{marshal_uint16}
use gobac.Types.Unsigned.RoundTrip.{unmarshal16-sum}
use gobac.Types.Header.{Header, bacnet_protocol, original_unicast_npdu, original_broadcast_npdu}
use gobac.Types.Header.{marshal, unmarshal}

-- A header of an original unicast or broadcast frame whose two lengths agree.
pub record IsHeader (h : Header) : Type 0 where
  pub protocol : h.protocol_type ≡ bacnet_protocol
  pub supported : (h.function ≡ original_unicast_npdu) ⊎ (h.function ≡ original_broadcast_npdu)
  pub fits : h.bvlc_length < 2 ^ 16
  pub lengths : h.bvlc_length ≡ h.nsdu_length + 4

-- A header of an original unicast or broadcast frame, with a length of 16 bits that is the length of
-- its payload and 4, is read back from what `MarshalBinary` wrote, whatever follows.
pub unmarshal-marshal_header :
    (h : Header) (rest : Bytes) → IsHeader h → unmarshal (marshal h ++ rest) ≡ ok h
unfolding unmarshal marshal marshal_uint16
unmarshal-marshal_header h rest v =
    ground (arith, unmarshal16-sum (h.bvlc_length / 2 ^ 8 % 256) (h.bvlc_length % 256))

-- What `UnmarshalBinary` accepts of any bytes is a header of an original unicast or broadcast frame,
-- with a length of 16 bits that is the length of its payload and 4, and the bytes begin with the
-- octets that `MarshalBinary` writes for it.
pub unmarshal_header_sound :
    (b : Bytes) (h : Header)
    → IsBytes b
    → unmarshal b ≡ ok h
    → IsHeader h × ((rest : Bytes) × (b ≡ marshal h ++ rest))
unfolding unmarshal marshal marshal_uint16
unmarshal_header_sound [] h bytes e = cc
unmarshal_header_sound (b0 ∷ []) h bytes e = ground arith
unmarshal_header_sound (b0 ∷ b1 ∷ []) h bytes e = ground arith
unmarshal_header_sound (b0 ∷ b1 ∷ b2 ∷ []) h bytes e = ground arith
unmarshal_header_sound (b0 ∷ b1 ∷ b2 ∷ b3 ∷ rest) h bytes e =
    (ground (arith, unmarshal16-sum b2 b3), (rest, ground (arith, unmarshal16-sum b2 b3)))
