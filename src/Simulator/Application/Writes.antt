-- ===== src/Simulator/Application/Writes.antt =====
-- handleWriteProperty of simulator/application.go on the requests of the client.
use gobac.Prelude.{ℕ, ◌≡◌, refl, ◌∙◌, arith, List, [], ◌∷◌, Bool, true, false}
use gobac.Prelude.{Option, none, some, Bool-cases, ◌⊎◌, inl, inr}
use gobac.Result.{Result, ok, err, Result-cases}
use gobac.Types.Bytes.{Bytes}
use gobac.Types.ObjectId.{ObjectId}
use gobac.Types.GoValue.{ObjectRef, same_ref}
use gobac.Types.PropertyValue.{PropertyValue}
use gobac.Types.Property.{Property}
use gobac.Simulator.Errors
use gobac.Simulator.Errors.{Outcome, class_property}
use gobac.Simulator.Property.{Value}
use gobac.Simulator.Device.{Device, write_property}
use gobac.Simulator.Response.{Endpoint, Response, simple_ack, error_response}
use gobac.Simulator.Subscriptions.{Subscription}
use gobac.Simulator.Services.WriteProperty.{WriteRequest}
use gobac.Simulator.Application.{Application, Runtime, Handled, model_error}
use gobac.Simulator.Application.Notify.{
  active_subscriptions, notification, record_value, notify_changed, notify_endpoint, notify_values,
  notify_one, notify_all, notifications,
}

-- Notifications leave the device as it is.
module _ (g : Runtime) where
  notification-device :
      (a : Application) (s : Subscription) (endpoint : Endpoint) (values : List Value)
      → (notification g a s endpoint values).0.device ≡ a.device
  unfolding notification
  notification-device a s endpoint values = ground arith

  notify_changed-device :
      (a : Application) (s : Subscription) (endpoint : Endpoint) (values : List Value)
      (c : Result Bool)
      → (notify_changed g a s endpoint values c).0.device ≡ a.device
  notify_changed-device a s endpoint values (err e) = refl
  notify_changed-device a s endpoint values (ok false) = refl
  notify_changed-device a s endpoint values (ok true) =
      recorded _ ∙ notification-device a s endpoint values
    where
      recorded :
          (r : Application × Result Response)
          → (record_value g s.key values r).0.device ≡ r.0.device
      recorded (b, err e) = refl
      recorded (b, ok n) = refl

  notify_endpoint-device :
      (a : Application) (s : Subscription) (values : List Value) (e : Option Endpoint)
      → (notify_endpoint g a s values e).0.device ≡ a.device
  notify_endpoint-device a s values none = refl
  notify_endpoint-device a s values (some endpoint) = notify_changed-device a s endpoint values _

  notify_values-device :
      (a : Application) (s : Subscription) (values : Outcome (List Value))
      → (notify_values g a s values).0.device ≡ a.device
  notify_values-device a s (Errors.err e) = refl
  notify_values-device a s (Errors.ok values) = notify_endpoint-device a s values _

  notify_one-device :
      (a : Application) (object : ObjectRef) (s : Subscription)
      → (notify_one g a object s).0.device ≡ a.device
  unfolding notify_one
  notify_one-device a object s = elim (Bool-cases (same_ref s.key.object object)) [
    | inl e ↦ rw e (notify_values-device a s _)
    | inr e ↦ rw e refl
  ]

  notify_all-device :
      (a : Application) (object : ObjectRef) (ss : List Subscription)
      → (notify_all g a object ss).0.device ≡ a.device
  unfolding notify_all
  notify_all-device a object [] = refl
  notify_all-device a object (s ∷ ss) =
      let one = notify_one-device a object s in
      elim (Result-cases (notify_one g a object s).1) [
        | inl (rs, e) ↦
            rw (e, notify_all) (notify_all-device (notify_one g a object s).0 object ss ∙ one)
        | inr (failure, e) ↦ rw (e, notify_all) one
      ]

  pub notifications-device :
      (a : Application) (object : ObjectRef) → (notifications g a object).0.device ≡ a.device
  unfolding notifications active_subscriptions
  notifications-device a object = notify_all-device (active_subscriptions g a).0 object _

-- What the service promises: the device after a request, and the refusal if there is one.
abbrev pub device_after : Device → WriteRequest → Option ℕ → Device
device_after d r (some index) = d
device_after d r none = (write_property d r.object r.reference.id r.values r.priority).0

abbrev refused : Outcome (Unit {0}) → Option Response
refused (Errors.err e) = some (model_error e)
refused (Errors.ok tt) = none

abbrev pub refusal : Device → WriteRequest → Option ℕ → Option Response
refusal d r (some index) = some (error_response class_property 42)
refusal d r none = refused (write_property d r.object r.reference.id r.values r.priority).1

-- A refusal is the one response, and changes nothing; otherwise the first response acknowledges, unless
-- the comparison of a subscriber's last value panics.
abbrev pub Answers : Application → Option Response → Handled → Type 0
Answers a (some response) h = h ≡ (a, ok (response ∷ []))
Answers a none h = ((rs : List Response) × (h.1 ≡ ok (simple_ack ∷ rs))) ⊎ ((e : _) × (h.1 ≡ err e))
