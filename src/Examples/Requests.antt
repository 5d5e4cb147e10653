-- ===== src/Examples/Requests.antt =====
-- Runs of the simulator's requests, and their theorems at concrete values.
use gobac.Prelude.{
  inl, inr, ◌==◌, ◌≤◌, ℕ, ◌^◌, ◌<◌, ◌+◌, ◌≡◌, refl, arith, List, [], ◌∷◌, Bool, true, false, not,
  ◌&&◌, ltb,
}
use gobac.Prelude.{Member, ◌↔◌, none, some, ◌⊎◌, if◌then◌else◌}
use gobac.Prelude.Maps.{lookup, insert}
use gobac.Types.GoValue.{uint32, bool, ObjectRef, object_ref_key}
use gobac.Simulator.Errors.{ok, err, unknown_device, model_error_class_code}
use gobac.Simulator.Property.{Value, write, validate_write, validate_write_allowing_read_only}
use gobac.Simulator.Property.{validate_write_bypassing_writable, write_bypassing_writable}
use gobac.Simulator.Property.{
  validate_values, validate_range, resolve_priority, apply, apply_validated,
}
use gobac.Simulator.Object.{
  Object, out_of_service, scalar_property, synthesized_property, health_property,
}
use gobac.Simulator.Object.{out_of_service_property}
use gobac.Simulator.Device.{Device, find_object, write_property, write_synthesized_property}
use gobac.Simulator.Device.{validate_write_property, validate_synthesized_write}
use gobac.Simulator.WriteMultiple.{
  PropertyWrite, WriteAccessSpecification, WriteError, write_all, changed,
}
use gobac.Simulator.WriteMultiple.{failure, simple_ack, handle_write_property_multiple}
use gobac.Simulator.WriteMultiple.{
  validate_all, validate_properties, validate_one, write_properties,
}
use gobac.Simulator.WriteMultiple.{write_error}
use gobac.Simulator.WriteMultiple.Atomicity.{handle_write_property_multiple-atomic}
use gobac.Simulator.Subscriptions.{
  SubscriptionKey, Subscription, Registry, subscription_key, same_key,
}
use gobac.Simulator.Subscriptions.{
  subscribe, remove_expired, active, sorted, place, before, before_text,
}
use gobac.Types.Bytes.{bytes_eq}
use gobac.Simulator.Network.{
  Network, id_out_of_range, duplicate_id, add_device, find_device, find_device-add_device,
}
use gobac.Simulator.Subscriptions.Order.{IsAscending}
use gobac.Simulator.Subscriptions.Unique.{Lists, active_unique}
use gobac.Simulator.Subscriptions.Listed.{Lasts, Distinct, active-Member}
use gobac.Simulator.Subscriptions.Expiry.{IsRegistry, alive, find}
use gobac.Simulator.Subscriptions.Expiry.{subscribe-remove_expired, subscribe-IsRegistry}

abbrev unsigned : ℕ → Value
unsigned n = record { tag = 2; value = uint32 n }

-- An input whose present value clients may write only while it is out of service.
abbrev input : ObjectRef
input = record { type = 0; instance_value = 1 }

abbrev input_object : Bool → Object
input_object flag = record {
  id = input;
  name = [];
  properties = (85, scalar_property 85 2 (uint32 7) false) ∷ [];
  out_of_service_flag = flag;
}

abbrev device : Bool → Device
device flag = record {
  id = 1001;
  name = [];
  address = [];
  port = 47808;
  vendor_id = 0;
  model_name = [];
  objects = (input, input_object flag) ∷ [];
}

abbrev request_of : ℕ → Value → PropertyWrite
request_of id v = record { id = id; array_index = none; values = v ∷ []; priority = 0 }

abbrev two_writes : List WriteAccessSpecification
two_writes =
    record {
      object = input;
      properties =
          request_of out_of_service (record { tag = 1; value = bool false })
          ∷ request_of 85 (unsigned 9)
          ∷ [];
    }
    ∷ []

-- An object that is put back in service and written in one request: the request passes validation, the
-- first write is made, and the second one is then refused.
half_written : handle_write_property_multiple (device true) two_writes ≡ (
  device false,
  failure (record { class = 2; code = 40; object = input; property = 85; index = none }),
)
unfolding handle_write_property_multiple validate_all validate_properties validate_one write_all
    write_properties write_error model_error_class_code find_object lookup insert write_property
    validate_write_property write_synthesized_property validate_synthesized_write
    synthesized_property health_property out_of_service_property scalar_property write
    validate_write validate_write_allowing_read_only validate_write_bypassing_writable
    write_bypassing_writable validate_values validate_range resolve_priority apply apply_validated
half_written = refl

abbrev one_write : List WriteAccessSpecification
one_write = record { object = input; properties = request_of 85 (unsigned 9) ∷ [] } ∷ []

handle_write_property_multiple-atomic_example :
    ((e : WriteError) × (handle_write_property_multiple (device true) one_write
        ≡ (device true, failure e)))
    ⊎ ((handle_write_property_multiple (device true) one_write
          ≡ ((write_all (device true) one_write).0, simple_ack (changed [] one_write)))
        × ((write_all (device true) one_write).1 ≡ none))
handle_write_property_multiple-atomic_example =
    handle_write_property_multiple-atomic (device true) one_write (((λ e. omega arith), tt), tt)

abbrev panel : SubscriptionKey
panel = record { subscriber = 49 ∷ []; process_id = 4; object = input }

abbrev an_hour : Subscription
an_hour = record {
  key = panel;
  confirmed = false;
  lifetime = 3600;
  expires_at = 0;
  last_value = [];
}

abbrev registry : Registry
registry = subscribe 1000 an_hour []

registry-IsRegistry : IsRegistry registry
registry-IsRegistry = subscribe-IsRegistry 1000 an_hour [] tt

still_active : find panel (active 4599 registry).1 ≡ some (record an_hour { expires_at = 4600 })
unfolding find active subscribe insert remove_expired sorted place bytes_eq
still_active = refl

-- A second subscription, without an end, of a subscriber with a smaller text.
abbrev lasting : Subscription
lasting = record an_hour {
  key = record { subscriber = 48 ∷ 57 ∷ []; process_id = 7; object = input };
  lifetime = 0;
}

abbrev two_subscriptions : Registry
two_subscriptions = subscribe 1200 lasting registry

two_subscriptions-IsRegistry : IsRegistry two_subscriptions
two_subscriptions-IsRegistry = subscribe-IsRegistry 1200 lasting registry registry-IsRegistry

active-Member_example :
    (Member lasting (active 4600 two_subscriptions).1
      ↔ ((lookup lasting.key two_subscriptions ≡ some lasting) × Lasts 4600 lasting))
    × ((lookup lasting.key (active 4600 two_subscriptions).0 ≡ some lasting)
        ↔ ((lookup lasting.key two_subscriptions ≡ some lasting) × Lasts 4600 lasting))
    × Distinct (active 4600 two_subscriptions).1
active-Member_example = active-Member 4600 lasting two_subscriptions two_subscriptions-IsRegistry

subscribe-remove_expired_example :
    lookup panel (remove_expired 4600 (subscribe 1000 an_hour [])) ≡ (
      if same_key panel panel
      then (if ltb 0 3600 && not (ltb 4600 (1000 + 3600))
          then none
          else some (record an_hour { expires_at = if ltb 0 3600 then 1000 + 3600 else 0 }))
      else alive 4600 (lookup panel []))
subscribe-remove_expired_example =
    subscribe-remove_expired 1000 4600 an_hour panel [] registry-IsRegistry

abbrev both_listed : List Subscription
both_listed = lasting ∷ record an_hour { expires_at = 4600 } ∷ []

both_active : both_listed ≡ (active 1500 two_subscriptions).1
unfolding active subscribe insert remove_expired sorted place before before_text bytes_eq
both_active = refl

active_unique_example :
    (IsAscending both_listed × Lists 1500 two_subscriptions both_listed)
    ↔ (both_listed ≡ (active 1500 two_subscriptions).1)
active_unique_example =
    active_unique 1500 two_subscriptions both_listed two_subscriptions-IsRegistry

abbrev empty_network : Network
empty_network = []

find_device-add_device_example :
    ((2 ^ 22 ≤ 1001)
      × (add_device empty_network (device true) ≡ (empty_network, inl id_out_of_range)))
    ⊎ (((1001 < 2 ^ 22)
          × ((other : Device) × (find_device empty_network 1001 ≡ ok other))
          × (add_device empty_network (device true) ≡ (empty_network, inl duplicate_id)))
        ⊎ ((1001 < 2 ^ 22)
            × (find_device empty_network 1001 ≡ err unknown_device)
            × ((add_device empty_network (device true)).1 ≡ inr tt)
            × (find_device (add_device empty_network (device true)).0 7
                ≡ (if 1001 == 7 then ok (device true) else find_device empty_network 7))))
find_device-add_device_example = find_device-add_device empty_network (device true) 7
