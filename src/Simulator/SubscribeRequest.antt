-- ===== src/Simulator/SubscribeRequest.antt =====
-- `decodeSubscribeCOV` of simulator/services.go.
use gobac.Prelude.{ℕ, [], ◌∷◌, length, Bool, true, false, ◌&&◌, not, ◌==◌, if◌then◌else◌}
use gobac.Result.{Result, ok, err, wrong_size, invalid_value, ◌>>=◌, ◌>>◌, check}
use gobac.Types.Bytes.{Bytes}
use gobac.Types.Tag.{Tag, decode_tag}
use gobac.Types.ObjectId
use gobac.Types.ObjectId.{ObjectId, instance_number}
use gobac.Types.GoValue.{ObjectRef}
use gobac.Types.Context.{is_primitive, decode_context, decode_context_unsigned}

pub record SubscribeCovRequest : Type 0 where
  pub process_identifier : ℕ
  pub object : ObjectRef
  pub confirmed : Bool
  pub lifetime : ℕ
  pub cancel : Bool

-- `fromBACnetObjectID`
abbrev pub from_object_id : ObjectId → ObjectRef
from_object_id o = record { type = o.type; instance_value = instance_number o }

-- The flag's one octet, 0 or 1.
abbrev pub flag_of : Bytes → Result Bool
flag_of [] = err wrong_size
flag_of (b ∷ []) = if b == 0 then ok false else if b == 1 then ok true else err invalid_value
flag_of (b ∷ b' ∷ bs) = err wrong_size

-- Whether a header was read, of a context tag 2.
abbrev pub has_flag : Tag × ℕ → Bool
has_flag (t, r) = not (r == 0) && is_primitive t 2

abbrev pub read_flag : Bytes → Result (Bool × Bytes)
read_flag bs = do (value, rest) ← decode_context bs 2; flag ← flag_of value; ok (flag, rest)

unfoldable pub decode_confirmed : Bytes → Result (Bool × Bytes)
decode_confirmed bs = if has_flag (decode_tag bs) then read_flag bs else ok (false, bs)

unfoldable pub decode_lifetime : Bytes → Result (ℕ × Bytes)
decode_lifetime bs = if length bs == 0 then ok (0, []) else decode_context_unsigned bs 3

abbrev pub cancellation : ℕ → ObjectRef → SubscribeCovRequest
cancellation process object = record {
  process_identifier = process;
  object = object;
  confirmed = false;
  lifetime = 0;
  cancel = true;
}

unfoldable pub decode_subscription : ℕ → ObjectRef → Bytes → Result SubscribeCovRequest
unfolding decode_confirmed decode_lifetime
decode_subscription process object bs = do
  (confirmed, b3) ← decode_confirmed bs
  (lifetime, b4) ← decode_lifetime b3
  check (length b4 == 0) invalid_value
  ok (record {
    process_identifier = process;
    object = object;
    confirmed = confirmed;
    lifetime = lifetime;
    cancel = false;
  })

-- What follows the object identifier; nothing stands for a cancellation.
unfoldable pub decode_options : ℕ → ObjectRef → Bytes → Result SubscribeCovRequest
unfolding decode_subscription
decode_options process object bs =
    if length bs == 0
    then ok (cancellation process object)
    else decode_subscription process object bs

unfoldable pub decode_subscribe_cov : Bytes → Result SubscribeCovRequest
unfolding decode_options
decode_subscribe_cov bs = do
  (process, b1) ← decode_context_unsigned bs 0
  (object_bytes, b2) ← decode_context b1 1
  check (length object_bytes == 4) wrong_size
  o ← ObjectId.unmarshal ObjectId.zero_object object_bytes
  decode_options process (from_object_id o) b2
