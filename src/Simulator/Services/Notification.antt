-- ===== src/Simulator/Services/Notification.antt =====
-- encodeCOVNotification of simulator/services.go.
use gobac.Prelude.{ℕ, List, [], ◌∷◌, ◌++◌, true, false}
use gobac.Result.{Result, ok, ◌>>=◌}
use gobac.Types.Bytes.{Bytes}
use gobac.Types.Unsigned.{encode_var_uint}
use gobac.Types.ObjectId
use gobac.Types.GoValue.{Floats, ObjectRef}
use gobac.Types.Context.{write_context, write_constructed_tag}
use gobac.Simulator.Services.Convert.{to_object_id, encode_values}
use gobac.Simulator.Services.ReadMultiple.{PropertyResult, index_field}

-- A property with its values between the tags 2.
unfoldable pub encode_notified : Floats → PropertyResult → Result Bytes
encode_notified f p = do
  values ← encode_values f p.values
  ok (
      write_context 0 (encode_var_uint p.reference.id)
      ++ (index_field 1 p.reference.array_index
          ++ (write_constructed_tag 2 true ++ (values ++ write_constructed_tag 2 false))))

unfoldable pub encode_all_notified : Floats → List PropertyResult → Result Bytes
encode_all_notified f [] = ok []
encode_all_notified f (p ∷ ps) = do
  b ← encode_notified f p
  more ← encode_all_notified f ps
  ok (b ++ more)

unfoldable pub encode_cov_notification :
    Floats → ℕ → ℕ → ObjectRef → ℕ → List PropertyResult → Result Bytes
unfolding encode_all_notified
encode_cov_notification f process device_id object time_remaining properties = do
  device ← to_object_id (record { type = 8; instance_value = device_id })
  monitored ← to_object_id object
  list ← encode_all_notified f properties
  ok (
      write_context 0 (encode_var_uint process)
      ++ (write_context 1 (ObjectId.marshal device)
          ++ (write_context 2 (ObjectId.marshal monitored)
              ++ (write_context 3 (encode_var_uint time_remaining)
                  ++ (write_constructed_tag 4 true ++ (list ++ write_constructed_tag 4 false))))))
