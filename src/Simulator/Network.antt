-- ===== src/Simulator/Network.antt =====
-- The network of simulator/model.go: devices by number. The pointer of a device is its value here, and a
-- device that is added is never nil.
use gobac.Prelude.{ℕ, ◌^◌, ◌≡◌, ◌≤◌, ◌<◌, refl, arith, List, ltb, ◌==◌, Bool-cases}
use gobac.Prelude.{Option, none, some, Option-cases, ◌⊎◌, inl, inr, if◌then◌else◌}
use gobac.Prelude.Maps.{number_key, lookup, insert, lookup-insert}
use gobac.Simulator.Errors.{Outcome, ok, err, unknown_device}
use gobac.Simulator.Device.{Device}

abbrev pub Network : Type 0
Network = List (ℕ × Device)

abbrev pub max_object_instance : ℕ
max_object_instance = 0x3f_ffff

pub data AddFailure : Type 0 where
  id_out_of_range duplicate_id : AddFailure

abbrev pub add_new : Network → Device → Option Device → Network × (AddFailure ⊎ Unit {0})
add_new n device (some other) = (n, inl duplicate_id)
add_new n device none = (insert device.id device n, inr tt)

-- `AddDevice`
unfoldable pub add_device : Network → Device → Network × (AddFailure ⊎ Unit {0})
add_device n device =
    if ltb max_object_instance device.id
    then (n, inl id_out_of_range)
    else add_new n device (lookup device.id n)

abbrev pub device_or_unknown : Option Device → Outcome Device
device_or_unknown none = err unknown_device
device_or_unknown (some d) = ok d

-- `Network.Device`
unfoldable pub find_device : Network → ℕ → Outcome Device
find_device n id = device_or_unknown (lookup id n)

-- Adding a device whose number has more than 22 bits, or a smaller one that is taken, fails with the
-- error of that case and leaves the network as it is. A device with a number of at most 22 bits that no device has
-- is accepted: it is found under its number, and every other number finds what it found.
pub find_device-add_device :
    (n : Network) (device : Device) (id : ℕ)
    → ((2 ^ 22 ≤ device.id) × (add_device n device ≡ (n, inl id_out_of_range)))
      ⊎ (((device.id < 2 ^ 22)
            × ((other : Device) × (find_device n device.id ≡ ok other))
            × (add_device n device ≡ (n, inl duplicate_id)))
          ⊎ ((device.id < 2 ^ 22)
              × (find_device n device.id ≡ err unknown_device)
              × ((add_device n device).1 ≡ inr tt)
              × (find_device (add_device n device).0 id
                  ≡ (if device.id == id then ok device else find_device n id))))
unfolding add_device find_device
find_device-add_device n device id = elim (Bool-cases (ltb max_object_instance device.id)) [
  | inl large ↦ inl (ground arith, rw large refl)
  | inr small ↦ elim (Option-cases (lookup device.id n)) [
    | inl free ↦ inr (
        inr (
          ground arith,
          rw free refl,
          rw (small, free) refl,
          rw (small, free, lookup-insert device.id id device n) (ground arith),
        ))
    | inr (other, there) ↦ inr (inl (ground arith, (other, rw there refl), rw (small, there) refl))
  ]
]
