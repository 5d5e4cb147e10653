-- ===== src/Simulator/Application/TimeSync.antt =====
-- handleTimeSync of simulator/application.go.
use gobac.Prelude.{List, [], ◌∷◌, ◌≡◌, refl, ◌∙◌, none, some, false}
use gobac.Prelude.Maps.{Key, number_key, lookup, insert, lookup-insert, same_refl}
use gobac.Result.{Result, ok, err}
use gobac.Types.Bytes.{Bytes}
use gobac.Types.Scalars.RoundTrip.{IsDate}
use gobac.Types.GoValue.{object_ref_key, ObjectRef, Floats, date, time}
use gobac.Pdu.TimeSync.{
  TimeSyncPdu, marshal_time_sync, unmarshal_time_sync, unmarshal-marshal_time_sync,
}
use gobac.Simulator.Errors
use gobac.Simulator.Property.{read, effective_values, values_under}
use gobac.Simulator.Object.{Object, device_type, local_date, local_time, scalar_property}
use gobac.Simulator.Device.{Device, find_object, read_property, set_local_time}
use gobac.Simulator.Application.{Application}

-- `decodeTimeSync` and what is done with its result; there is no response.
abbrev pub time_decoded : Application → Result TimeSyncPdu → Application
time_decoded a (err e) = a
time_decoded a (ok p) = record a { device = set_local_time a.device p.date p.time }

unfoldable pub handle_time_sync : Application → Bytes → Application
handle_time_sync a payload = time_decoded a (unmarshal_time_sync payload)

-- The device object of a device.
abbrev pub own_object : Device → ObjectRef
own_object d = record { type = device_type; instance_value = d.id }

lookup-inserted :
    {K : Type 0} {V : Type 0} ⦃key : Key K⦄ (k : K) (v : V) (m : List (K × V))
    → lookup k (insert k v m) ≡ some v
lookup-inserted k v m = lookup-insert k k v m ∙ rw (same_refl k) refl

local_times :
    (d : Device) (o : Object) (p : TimeSyncPdu)
    → lookup (own_object d) d.objects ≡ some o
    → let after : Device = set_local_time d p.date p.time in
      (read_property after (own_object d) local_date none
        ≡ Errors.ok (record { tag = 10; value = date p.date } ∷ []))
      × (read_property after (own_object d) local_time none
          ≡ Errors.ok (record { tag = 11; value = time p.time } ∷ []))
unfolding set_local_time read_property find_object scalar_property read effective_values
    values_under
local_times d o p h =
    let day = scalar_property local_date 10 (date p.date) false in
    let clock = scalar_property local_time 11 (time p.time) false in
    let dated = insert local_date day o.properties in
    let timed = insert local_time clock dated in
    let own = own_object d in
    let same = lookup-inserted own (record o { properties = timed }) d.objects in
    let at_time = lookup-inserted local_time clock dated in
    let at_date =
      lookup-insert local_time local_date clock dated
      ∙ lookup-inserted local_date day o.properties in
    (rw (h, same, at_date) refl, rw (h, same, at_time) refl)

-- The payload of a time synchronization with a date from 1900 to 2155 sets the local date and time of a device that
-- has its device object: both are read back from it.
pub handle_time_sync-marshal :
    (f : Floats) (a : Application) (o : Object) (p : TimeSyncPdu)
    → IsDate p.date
    → lookup (own_object a.device) a.device.objects ≡ some o
    → (b : Bytes) × (marshal_time_sync f p ≡ ok b)
      × (read_property (handle_time_sync a b).device (own_object a.device) local_date none
          ≡ Errors.ok (record { tag = 10; value = date p.date } ∷ []))
      × (read_property (handle_time_sync a b).device (own_object a.device) local_time none
          ≡ Errors.ok (record { tag = 11; value = time p.time } ∷ []))
unfolding handle_time_sync
handle_time_sync-marshal f a o p dated own =
    let (b, sent, decoded) = unmarshal-marshal_time_sync f p dated in
    let times = local_times a.device o p own in (b, sent, rw decoded times.0, rw decoded times.1)
