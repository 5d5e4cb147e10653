-- ===== src/Simulator/Application/ReadMultiple/Answers.antt =====
-- handleReadPropertyMultiple of simulator/application.go between the client's codecs.
use gobac.Prelude.{suc, ◌≤◌, ◌≡◌, refl, ap, arith, List, [], ◌∷◌, length, map, All, length-map}
use gobac.Result.{ok}
use gobac.Types.Bytes.{Bytes}
use gobac.Types.GoValue.{Floats}
use gobac.Pdu.ReadMultiple.Request.{ReadAccessSpec, marshal_read_multiple}
use gobac.Pdu.ReadMultiple.Ack
use gobac.Pdu.ReadMultiple.Ack.{marshal_ack}
use gobac.Simulator.Device.{Device}
use gobac.Simulator.Response.{complex_ack}
use gobac.Simulator.Services.ReadMultiple.{ReadAccessSpecification, ReadAccessResult}
use gobac.Simulator.Services.ReadMultiple.Request.{
  IsSpec, received_spec, decode_read_property_multiple-marshal,
}
use gobac.Simulator.Services.ReadMultiple.Ack.{client_ack, encode_result-marshal_ack}
use gobac.Simulator.Application.ReadMultiple.{access_all, handle_read_property_multiple}

length-access_all :
    (d : Device) (ss : List ReadAccessSpecification) → length (access_all d ss) ≡ length ss
unfolding access_all
length-access_all d [] = refl
length-access_all d (s ∷ ss) = ap suc (length-access_all d ss)

-- A ReadPropertyMultiple request of the client, of at least one specification, each for an object in use with
-- at least one property, is answered by an acknowledgement with the octets that the client's own
-- encoder writes for the device's results on the expanded references, where each specification has a result, the
-- results can be converted and the encoder accepts them.
pub handle_read_property_multiple-marshal :
    (f : Floats) (d : Device) (ss : List ReadAccessSpec) (cs : List Ack.ReadAccessResult)
    (b : Bytes)
    → 1 ≤ length ss
    → All IsSpec ss
    → client_ack (access_all d (map received_spec ss)) ≡ ok cs
    → All (λ (a : ReadAccessResult). 1 ≤ length a.results) (access_all d (map received_spec ss))
    → marshal_ack f cs ≡ ok b
    → (request : Bytes) × (marshal_read_multiple ss ≡ ok request)
      × (handle_read_property_multiple f d request ≡ ok (complex_ack b))
unfolding handle_read_property_multiple
handle_read_property_multiple-marshal f d ss cs b some_spec specs converted some_results written =
    let (request, sent, decoded) = decode_read_property_multiple-marshal ss some_spec specs in
    let some_access : 1 ≤ length (access_all d (map received_spec ss)) =
      omega (
        arith,
        some_spec,
        length-access_all d (map received_spec ss),
        length-map ss received_spec,
      ) in
    let agree = encode_result-marshal_ack f _ cs converted some_access some_results in
    (request, sent, rw (decoded, agree, written) refl)
