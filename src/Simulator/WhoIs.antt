-- ===== src/Simulator/WhoIs.antt =====
-- `decodeWhoIs` of simulator/services.go, and whether `handleWhoIs` of simulator/application.go answers.
use gobac.Prelude.{ℕ, ◌^◌, ◌≤◌, ◌<◌, ◌≡◌, arith, [], ◌++◌, length, Bool, true, false, not}
use gobac.Prelude.{◌&&◌, ◌||◌, ◌==◌, ltb, leb, if◌then◌else◌, Option, none, some}
use gobac.Result.{Result, ok, err, out_of_range, ◌>>=◌, ◌>>◌, check}
use gobac.Types.Bytes.{Bytes}
use gobac.Types.Unsigned.{encode_var_uint}
use gobac.Types.Unsigned.RoundTrip.{encode_var_uint_shape}
use gobac.Types.Context.{write_context, decode_context_unsigned}
use gobac.Types.Context.RoundTrip.{decode_context_unsigned-write_context, write_context-pos}
use gobac.Simulator.Network.{max_object_instance}
use mathlib.Core.List.{append-nil}

unfoldable pub decode_limits : Bytes → Result (ℕ × ℕ)
decode_limits bs = do
  (low, rest) ← decode_context_unsigned bs 0
  check (leb low max_object_instance) out_of_range
  (high, behind) ← decode_context_unsigned rest 1
  check (leb high max_object_instance) out_of_range
  check (length behind == 0) out_of_range
  check (leb low high) out_of_range
  ok (low, high)

abbrev pub limits : Result (ℕ × ℕ) → Result (Option (ℕ × ℕ))
limits (ok range) = ok (some range)
limits (err e) = err e

-- No limits, or both.
unfoldable pub decode_who_is : Bytes → Result (Option (ℕ × ℕ))
unfolding decode_limits
decode_who_is bs = if length bs == 0 then ok none else limits (decode_limits bs)

abbrev pub answers : ℕ → Result (Option (ℕ × ℕ)) → Bool
answers id (err e) = false
answers id (ok none) = true
answers id (ok (some (low, high))) = not (ltb id low || ltb high id)

-- Whether the device of this number sends an I-Am.
unfoldable pub answers_who_is : ℕ → Bytes → Bool
unfolding decode_who_is
answers_who_is id bs = answers id (decode_who_is bs)

-- A request with two limits of 22 bits, in order, is answered by the devices whose numbers lie from the
-- low to the high limit, and by no other ones.
pub answers_who_is-range :
    (id low high : ℕ)
    → low ≤ high
    → high < 2 ^ 22
    → answers_who_is id
        (write_context 0 (encode_var_uint low) ++ write_context 1 (encode_var_uint high))
      ≡ (leb low id && leb id high)
unfolding answers_who_is decode_who_is decode_limits
answers_who_is-range id low high order small =
    let behind = write_context 1 (encode_var_uint high) in
    let (_, _, few) = encode_var_uint_shape low in
    let some_octets =
      write_context-pos 0 (encode_var_uint low) behind (omega arith) (omega (arith, few)) in
    let read_low = decode_context_unsigned-write_context 0 low behind (omega arith) (omega arith) in
    let read_high =
      rw append-nil at
        (decode_context_unsigned-write_context 1 high [] (omega arith) (omega arith)) in
    rw (read_low, read_high) (ground (arith, some_octets))
