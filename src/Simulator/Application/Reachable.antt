-- ===== src/Simulator/Application/Reachable.antt =====
-- The states that the handlers of simulator/application.go reach from NewApplication.
use gobac.Prelude.{ℕ, refl, arith, List, [], ◌∷◌, Bool, true, false}
use gobac.Prelude.{Option, none, some, if◌then◌else◌}
use gobac.Prelude.Maps.{lookup}
use gobac.Result.{Result, ok, err}
use gobac.Types.Bytes.{Bytes}
use gobac.Types.GoValue.{ObjectRef}
use gobac.Simulator.Errors
use gobac.Simulator.Errors.{Outcome}
use gobac.Simulator.Property.{Value}
use gobac.Simulator.Object.{Object}
use gobac.Simulator.Device.{Device, write_property}
use gobac.Simulator.Response.{Endpoint, Response}
use gobac.Simulator.SubscribeRequest.{SubscribeCovRequest}
use gobac.Simulator.Subscriptions.{SubscriptionKey, subscription_key}
use gobac.Simulator.Subscriptions.Expiry.{subscribe-IsRegistry}
use gobac.Simulator.Services.WriteProperty.{WriteRequest}
use gobac.Simulator.Application.{Application, Runtime, Handled}
use gobac.Simulator.Application.Handlers.{
  after_ack, acknowledged, handle_write_property, write_decoded, write_plain, answer_write,
  unsubscribe, subscribe, first_notification, subscribe_values, subscribe_object, subscribe_decoded,
  handle_subscribe_cov,
}
use gobac.Pdu.TimeSync.{TimeSyncPdu, unmarshal_time_sync}
use gobac.Simulator.Application.TimeSync.{time_decoded, handle_time_sync}
use gobac.Simulator.Application.Invariant.{
  IsApplication, notification-IsApplication, active_subscriptions-IsApplication,
  notifications-IsApplication,
}
use gobac.Simulator.Application.Keys.{cancel-IsRegistry, remove-covered, insert-covered}

-- `NewApplication`, with a clock that was not read yet.
abbrev pub new_application : Device → Application
new_application d = record { device = d; registry = []; subscribers = []; invoke_id = 0; ticks = 0 }

-- A request that changes the state, with its source.
pub data Event : Type 0 where
  write_request : Bytes → Event
  subscribe_request : Endpoint → Bytes → Event
  time_request : Bytes → Event

module _ (g : Runtime) where
  unfoldable pub handle : Application → Event → Application
  unfolding handle_write_property handle_subscribe_cov handle_time_sync
  handle a (write_request payload) = (handle_write_property g a payload).0
  handle a (subscribe_request source payload) = (handle_subscribe_cov g a source payload).0
  handle a (time_request payload) = handle_time_sync a payload

  -- One request after the other.
  unfoldable pub run : Application → List Event → Application
  unfolding handle
  run a [] = a
  run a (e ∷ es) = run (handle a e) es

  after_ack-IsApplication : (r : Handled) → IsApplication r.0 → IsApplication (after_ack g r).0
  after_ack-IsApplication (a, err e) h = h
  after_ack-IsApplication (a, ok rs) h = h

  answer_write-IsApplication :
      (a : Application) (object : ObjectRef) (o : Outcome (Unit {0}))
      → IsApplication a
      → IsApplication (answer_write g a object o).0
  answer_write-IsApplication a object (Errors.err e) h = h
  answer_write-IsApplication a object (Errors.ok tt) h =
      after_ack-IsApplication _ (notifications-IsApplication g a object h)

  write_plain-IsApplication :
      (a : Application) (r : WriteRequest) (index : Option ℕ)
      → IsApplication a
      → IsApplication (write_plain g a r index).0
  write_plain-IsApplication a r (some index) h = h
  write_plain-IsApplication a r none h =
      let (d, outcome) = write_property a.device r.object r.reference.id r.values r.priority in
      answer_write-IsApplication (record a { device = d }) r.object outcome
        (record { registry = h.registry; covered = h.covered; octet = h.octet })

  write_decoded-IsApplication :
      (a : Application) (r : Result WriteRequest)
      → IsApplication a
      → IsApplication (write_decoded g a r).0
  write_decoded-IsApplication a (err e) h = h
  write_decoded-IsApplication a (ok r) h = write_plain-IsApplication a r _ h

  unsubscribe-IsApplication :
      (a : Application) (key : SubscriptionKey)
      → IsApplication a
      → IsApplication (unsubscribe g a key)
  unfolding unsubscribe
  unsubscribe-IsApplication a key h = record {
    registry = cancel-IsRegistry key a.registry h.registry;
    covered = λ k e. remove-covered key k a.registry a.subscribers (h.covered k) e;
    octet = h.octet;
  }

  subscribe-IsApplication :
      (a : Application) (key : SubscriptionKey) (source : Endpoint) (r : SubscribeCovRequest)
      (values : List Value)
      → IsApplication a
      → IsApplication (subscribe g a key source r values)
  unfolding subscribe
  subscribe-IsApplication a key source r values h = record {
    registry = subscribe-IsRegistry _ _ a.registry h.registry;
    covered = λ k e. insert-covered key k a.registry a.subscribers (h.covered k) source _ _ refl e;
    octet = h.octet;
  }

  acknowledged-IsApplication :
      (r : Application × Result Response) → IsApplication r.0 → IsApplication (acknowledged g r).0
  acknowledged-IsApplication (a, err e) h = h
  acknowledged-IsApplication (a, ok n) h = h

  first_notification-IsApplication :
      (a : Application) (key : SubscriptionKey) (source : Endpoint) (values : List Value)
      → IsApplication a
      → IsApplication (first_notification g a key source values).0
  first_notification-IsApplication a key source values h =
      acknowledged-IsApplication _
        (notification-IsApplication g _ _ source values (active_subscriptions-IsApplication g a h))

  if-IsApplication :
      (b : Bool) (x y : Handled)
      → IsApplication x.0
      → IsApplication y.0
      → IsApplication (if b then x else y).0
  if-IsApplication true x y h k = h
  if-IsApplication false x y h k = k

  subscribe_values-IsApplication :
      (a : Application) (source : Endpoint) (r : SubscribeCovRequest) (o : Outcome (List Value))
      → IsApplication a
      → IsApplication (subscribe_values g a source r o).0
  subscribe_values-IsApplication a source r (Errors.ok values) h =
      if-IsApplication r.cancel _ _ (unsubscribe-IsApplication a _ h) (
        first_notification-IsApplication _ _ source values
          (subscribe-IsApplication a _ source r values h))
  subscribe_values-IsApplication a source r (Errors.err Errors.unknown_property) h = h
  subscribe_values-IsApplication a source r (Errors.err e) h = h

  subscribe_object-IsApplication :
      (a : Application) (source : Endpoint) (r : SubscribeCovRequest) (o : Outcome Object)
      → IsApplication a
      → IsApplication (subscribe_object g a source r o).0
  subscribe_object-IsApplication a source r (Errors.err e) h = h
  subscribe_object-IsApplication a source r (Errors.ok o) h =
      subscribe_values-IsApplication a source r _ h

  subscribe_decoded-IsApplication :
      (a : Application) (source : Endpoint) (r : Result SubscribeCovRequest)
      → IsApplication a
      → IsApplication (subscribe_decoded g a source r).0
  subscribe_decoded-IsApplication a source (err e) h = h
  subscribe_decoded-IsApplication a source (ok r) h = subscribe_object-IsApplication a source r _ h

  time_decoded-IsApplication :
      (a : Application) (r : Result TimeSyncPdu)
      → IsApplication a
      → IsApplication (time_decoded a r)
  time_decoded-IsApplication a (err e) h = h
  time_decoded-IsApplication a (ok p) h = record {
    registry = h.registry;
    covered = h.covered;
    octet = h.octet;
  }

  handle-IsApplication :
      (a : Application) (e : Event) → IsApplication a → IsApplication (handle a e)
  unfolding handle
  handle-IsApplication a (write_request payload) h = write_decoded-IsApplication a _ h
  handle-IsApplication a (subscribe_request source payload) h =
      subscribe_decoded-IsApplication a source _ h
  handle-IsApplication a (time_request payload) h =
      time_decoded-IsApplication a (unmarshal_time_sync payload) h

  run-IsApplication :
      (a : Application) (es : List Event) → IsApplication a → IsApplication (run a es)
  unfolding run
  run-IsApplication a [] h = h
  run-IsApplication a (e ∷ es) h = run-IsApplication (handle a e) es (handle-IsApplication a e h)

  -- After any sequence of WriteProperty, SubscribeCOV and time synchronization requests to a new application, well formed or
  -- not, at any readings of the clock: the registry has each key once and under it a subscription of
  -- that key, every subscription in it has an endpoint to notify, and the invoke ID is an octet.
  pub new_application-IsApplication :
      (d : Device) (es : List Event) → IsApplication (run (new_application d) es)
  unfolding lookup
  new_application-IsApplication d es =
      run-IsApplication (new_application d) es
        (record { registry = tt; covered = λ k e. refl; octet = omega arith })
