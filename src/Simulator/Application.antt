-- ===== src/Simulator/Application.antt =====
-- The handlers of simulator/application.go on the state of an `Application`. The locks make each access
-- to the maps one step, and the handlers of one application run one after the other here. A reading of
-- the clock takes the next number of `clock`.
pub mod Notify
pub mod Handlers
pub mod TimeSync
pub mod WhoIs
pub mod ReadMultiple
pub mod Reads
pub mod Keys
pub mod Invariant
pub mod Reachable
pub mod Writes
use gobac.Prelude.{
  ℕ, suc, ◌+◌, ◌-◌, ◌*◌, ◌/◌, ◌%◌, ◌^◌, List, [], ◌∷◌, ◌++◌, Bool, true, false, not,
}
use gobac.Prelude.{◌&&◌, ◌==◌, ltb, if◌then◌else◌, Option, none, some}
use gobac.Prelude.Maps.{lookup, insert, remove}
use gobac.Result.{Error, Result, ok, err, priority_out_of_range, go_panic}
use gobac.Types.Bytes.{Bytes}
use gobac.Types.GoValue.{Floats, ObjectRef, same_ref}
use gobac.Simulator.Errors
use gobac.Simulator.Errors.{Outcome, ModelError, model_error_class_code, class_property}
use gobac.Simulator.Errors.{unknown_property}
use gobac.Simulator.Property.{Value}
use gobac.Simulator.Object.{Object, present_value}
use gobac.Simulator.Device.{Device, find_object, read_property, write_property}
use gobac.Simulator.Subscriptions
use gobac.Simulator.Subscriptions.{SubscriptionKey, Subscription, Registry, subscription_key}
use gobac.Simulator.Subscriptions.{same_key, active, update_last_value}
use gobac.Simulator.SubscribeRequest.{SubscribeCovRequest, decode_subscribe_cov}
use gobac.Simulator.Response.{Endpoint, Response, simple_ack, complex_ack, error_response, reject}
use gobac.Simulator.Response.{unconfirmed, confirmed, to}
use gobac.Simulator.Changes.{FloatTests, cov_changed}
use gobac.Simulator.Services.Convert.{PropertyReference}
use gobac.Simulator.Services.ReadProperty.{decode_read_property, encode_read_property_result}
use gobac.Simulator.Services.WriteProperty.{WriteRequest, decode_write_property}
use gobac.Simulator.Services.Notification.{encode_cov_notification}

-- `subscribers` has the endpoint of each subscription; `ticks` counts the readings of the clock.
pub record Application : Type 0 where
  pub device : Device
  pub registry : Registry
  pub subscribers : List (SubscriptionKey × Endpoint)
  pub invoke_id : ℕ
  pub ticks : ℕ

-- What the code takes from Go: the conversions and the tests of floats, the clock in nanoseconds, and
-- the text of an endpoint.
pub record Runtime : Type 0 where
  pub floats : Floats
  pub tests : FloatTests
  pub clock : ℕ → ℕ
  pub show : Endpoint → Bytes

-- A handler's responses or its error, with the state that it leaves.
abbrev pub Handled : Type 0
Handled = Application × Result (List Response)

-- reject_reason.go: an invalid tag, and a parameter out of range.
abbrev pub invalid_tag : ℕ
invalid_tag = 4

abbrev parameter_out_of_range : ℕ
parameter_out_of_range = 6

-- `modelError`
unfoldable pub model_error : ModelError → Response
model_error e = let (class, code) = model_error_class_code e in error_response class code

abbrev read_payload : Result Bytes → Response
read_payload (err e) = error_response class_property 47
read_payload (ok payload) = complex_ack payload

abbrev read_response : Floats → ObjectRef → PropertyReference → Outcome (List Value) → Response
read_response f object reference (Errors.err e) = model_error e
read_response f object reference (Errors.ok values) =
    read_payload (encode_read_property_result f object reference values)

abbrev read_decoded : Floats → Device → Result (ObjectRef × PropertyReference) → Response
read_decoded f d (err e) = reject invalid_tag
read_decoded f d (ok (object, reference)) =
    read_response f object reference (read_property d object reference.id reference.array_index)

-- `handleReadProperty`, which changes nothing and always has one response.
unfoldable pub handle_read_property : Floats → Device → Bytes → Response
handle_read_property f d payload = read_decoded f d (decode_read_property payload)
