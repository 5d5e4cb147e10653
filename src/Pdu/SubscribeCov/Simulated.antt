-- ===== src/Pdu/SubscribeCov/Simulated.antt =====
-- MarshalBinary of bacnet/pdu/cov_request.go, and decodeSubscribeCOV of simulator/services.go after it.
use gobac.Prelude.{ℕ, ◌^◌, ◌<◌, ◌≡◌, refl, arith, [], ◌∷◌, ◌++◌, length}
use gobac.Prelude.{not, ◌&&◌, Bool, Bool-cases, inl, inr, some, if◌then◌else◌}
use mathlib.Core.List.{append-nil}
use gobac.Result.{ok}
use gobac.Types.Bytes.{Bytes}
use gobac.Types.ObjectId
use gobac.Types.ObjectId.{ObjectId}
use gobac.Types.ObjectId.RoundTrip.{IsObjectId, unmarshal-marshal_object}
use gobac.Types.GoValue.{ObjectRef}
use gobac.Types.Unsigned.{encode_var_uint, marshal_uint32}
use gobac.Types.Unsigned.RoundTrip.{encode_var_uint_shape}
use gobac.Types.Context.{write_context}
use gobac.Types.Context.RoundTrip.{decode_tag-write_context, write_context-pos}
use gobac.Types.Context.RoundTrip.{
  decode_context-write_context, decode_context_unsigned-write_context,
}
use gobac.Pdu.SubscribeCov.{SubscribeCov, process_of, confirmed_octet, lifetime_bytes, option_bytes}
use gobac.Pdu.SubscribeCov.{marshal_subscribe_cov}
use gobac.Simulator.SubscribeRequest.{from_object_id}
use gobac.Simulator.SubscribeRequest.{decode_confirmed, decode_lifetime, decode_subscription}
use gobac.Simulator.SubscribeRequest.{decode_options, decode_subscribe_cov}

decode_confirmed-write :
    (confirmed : Bool) (rest : Bytes)
    → decode_confirmed (write_context 2 (confirmed_octet confirmed ∷ []) ++ rest)
      ≡ ok (confirmed, rest)
unfolding decode_confirmed
decode_confirmed-write confirmed rest =
    let value = confirmed_octet confirmed ∷ [] in
    let (t, r, header, some_octets, primitive) =
      decode_tag-write_context 2 value rest (omega arith) (omega arith) in
    rw (header, decode_context-write_context 2 value rest (omega arith) (omega arith))
      (ground (arith, Bool-cases confirmed))

decode_lifetime-bytes :
    (p : SubscribeCov)
    → p.lifetime < 2 ^ 32
    → decode_lifetime (lifetime_bytes p) ≡ ok (if p.has_lifetime then p.lifetime else 0, [])
unfolding decode_lifetime lifetime_bytes
decode_lifetime-bytes p small = elim (Bool-cases p.has_lifetime) [
  | inl has ↦
      let bytes = encode_var_uint p.lifetime in
      let (_, _, few) = encode_var_uint_shape p.lifetime in
      let some_octets =
        rw append-nil at (write_context-pos 3 bytes [] (omega arith) (omega (arith, few))) in
      let read =
        rw append-nil at
          (decode_context_unsigned-write_context 3 p.lifetime [] (omega arith) small) in
      rw (has, read) (ground (arith, some_octets))
  | inr lacks ↦ rw lacks refl
]

decode_options-bytes :
    (p : SubscribeCov) (process : ℕ) (object : ObjectRef)
    → p.lifetime < 2 ^ 32
    → decode_options process object (option_bytes p)
      ≡ ok (record {
        process_identifier = process;
        object = object;
        confirmed = not p.cancel && p.issue_confirmed;
        lifetime = if not p.cancel && p.has_lifetime then p.lifetime else 0;
        cancel = p.cancel;
      })
unfolding decode_options decode_subscription option_bytes
decode_options-bytes p process object small = elim (Bool-cases p.cancel) [
  | inl stop ↦ rw stop refl
  | inr go ↦
      let value = confirmed_octet p.issue_confirmed ∷ [] in
      let some_octets = write_context-pos 2 value (lifetime_bytes p) (omega arith) (omega arith) in
      rw
        (
          go,
          decode_confirmed-write p.issue_confirmed (lifetime_bytes p),
          decode_lifetime-bytes p small,
        )
        (ground (arith, some_octets))
]

length-marshal : (o : ObjectId) → length (ObjectId.marshal o) ≡ 4
unfolding ObjectId.marshal marshal_uint32
length-marshal o = refl

-- For an identifier in use, and a process identifier and a lifetime of 32 bits, `MarshalBinary` of a
-- SubscribeCOV request succeeds, and the simulator's decoder reads the request back from the octets:
-- the process identifier in use, the object, and, unless the request cancels, the confirmation flag and
-- the lifetime, which is 0 where none is given.
pub decode_subscribe_cov-marshal :
    (p : SubscribeCov) (o : ObjectId)
    → p.object_id ≡ some o
    → IsObjectId o
    → process_of p < 2 ^ 32
    → p.lifetime < 2 ^ 32
    → (bs : Bytes) × (marshal_subscribe_cov p ≡ ok bs)
      × (decode_subscribe_cov bs
          ≡ ok (record {
            process_identifier = process_of p;
            object = from_object_id o;
            confirmed = not p.cancel && p.issue_confirmed;
            lifetime = if not p.cancel && p.has_lifetime then p.lifetime else 0;
            cancel = p.cancel;
          }))
unfolding marshal_subscribe_cov decode_subscribe_cov
decode_subscribe_cov-marshal p o there used process lifetime =
    let size = length-marshal o in
    (
      write_context 0 (encode_var_uint (process_of p))
          ++ (write_context 1 (ObjectId.marshal o) ++ option_bytes p),
      rw there refl,
      rw
          (
            decode_context_unsigned-write_context 0 (process_of p)
                (write_context 1 (ObjectId.marshal o) ++ option_bytes p) (omega arith) process,
            decode_context-write_context 1 (ObjectId.marshal o) (option_bytes p) (omega arith)
                (omega (arith, size)),
            size,
            unmarshal-marshal_object ObjectId.zero_object o used,
            decode_options-bytes p (process_of p) (from_object_id o) lifetime,
          )
          refl,
    )
