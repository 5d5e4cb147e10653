-- ===== src/Pdu/TimeSync.antt =====
-- bacnet/pdu/time_sync.go.
use gobac.Prelude.{List, [], ◌∷◌, ◌≡◌, refl, ◌==◌, if◌then◌else◌}
use gobac.Result.{Result, ok, err, wrong_size, unexpected_tag, ◌>>=◌}
use gobac.Types.Bytes.{Bytes}
use gobac.Types.Scalars.{Date, Time}
use gobac.Types.Scalars.RoundTrip.{IsDate}
use gobac.Types.GoValue.{GoValue, Floats, date, time}
use gobac.Types.PropertyValue.{PropertyValue}
use gobac.Types.Content.{marshal_values}
use gobac.Pdu.ReadMultiple.Ack.{decode_values}
use gobac.Pdu.ReadMultiple.Values.{decode-marshal_values}

pub record TimeSyncPdu : Type 0 where
  pub date : Date
  pub time : Time

abbrev pub sent_values : TimeSyncPdu → List PropertyValue
sent_values p =
    record { type = 10; value = date p.date } ∷ record { type = 11; value = time p.time } ∷ []

-- `MarshalBinary`
unfoldable pub marshal_time_sync : Floats → TimeSyncPdu → Result Bytes
marshal_time_sync f p = marshal_values f (sent_values p)

abbrev as_date : PropertyValue → GoValue → Result Date
as_date v (date d) = if v.type == 10 then ok d else err unexpected_tag
as_date v _ = err unexpected_tag

abbrev as_time : PropertyValue → GoValue → Result Time
as_time v (time t) = if v.type == 11 then ok t else err unexpected_tag
as_time v _ = err unexpected_tag

abbrev date_and_time : List PropertyValue → Result TimeSyncPdu
date_and_time (a ∷ b ∷ []) = do
  d ← as_date a a.value
  t ← as_time b b.value
  ok (record { date = d; time = t })
date_and_time _ = err wrong_size

-- `UnmarshalBinary`
unfoldable pub unmarshal_time_sync : Bytes → Result TimeSyncPdu
unmarshal_time_sync bs = do vs ← decode_values bs; date_and_time vs

pub unmarshal-marshal_time_sync :
    (f : Floats) (p : TimeSyncPdu)
    → IsDate p.date
    → (b : Bytes) × (marshal_time_sync f p ≡ ok b) × (unmarshal_time_sync b ≡ ok p)
unfolding marshal_time_sync unmarshal_time_sync
unmarshal-marshal_time_sync f p h =
    let (b, e, read) = decode-marshal_values f (sent_values p) ((refl, h), (refl, tt)) in
    (b, e, rw read refl)
