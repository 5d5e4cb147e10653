-- ===== src/Simulator/Application/Handlers.antt =====
-- handleWriteProperty and handleSubscribeCOV of simulator/application.go.
use gobac.Prelude.{ℕ, ◌*◌, List, [], ◌∷◌, false}
use gobac.Prelude.{if◌then◌else◌, Option, none, some}
use gobac.Prelude.Maps.{insert, remove}
use gobac.Result.{Error, Result, ok, err, priority_out_of_range}
use gobac.Types.Bytes.{Bytes}
use gobac.Types.GoValue.{ObjectRef}
use gobac.Simulator.Errors
use gobac.Simulator.Errors.{Outcome, ModelError, class_property, unknown_property}
use gobac.Simulator.Property.{Value}
use gobac.Simulator.Object.{Object, present_value}
use gobac.Simulator.Device.{find_object, read_property, write_property}
use gobac.Simulator.Subscriptions
use gobac.Simulator.Subscriptions.{SubscriptionKey, Subscription, subscription_key}
use gobac.Simulator.Subscriptions.{same_key, active, update_last_value}
use gobac.Simulator.SubscribeRequest.{SubscribeCovRequest, decode_subscribe_cov}
use gobac.Simulator.Response.{Endpoint, Response, simple_ack, error_response, reject}
use gobac.Simulator.Services.WriteProperty.{WriteRequest, decode_write_property}
use gobac.Simulator.Application.{Application, Runtime, Handled, model_error, invalid_tag}
use gobac.Simulator.Application.Notify.{
  tick, now, second, active_subscriptions, notification, notifications,
}

-- The reason of a rejection.
abbrev pub reject_reason : Error → ℕ
reject_reason priority_out_of_range = 6
reject_reason _ = invalid_tag

-- `(&Subscription{Key: key})`, where none is active under the key.
abbrev empty_subscription : SubscriptionKey → Subscription
empty_subscription key = record {
  key = key;
  confirmed = false;
  lifetime = 0;
  expires_at = 0;
  last_value = [];
}

-- The loop of `subscription`.
abbrev pub first_with_key : List Subscription → SubscriptionKey → Subscription
first_with_key [] key = empty_subscription key
first_with_key (s ∷ ss) key =
    let rest = first_with_key ss key in if same_key s.key key then s else rest

module _ (g : Runtime) where
  abbrev pub after_ack : Handled → Handled
  after_ack (a, err e) = (a, err e)
  after_ack (a, ok rs) = (a, ok (simple_ack ∷ rs))

  abbrev pub answer_write : Application → ObjectRef → Outcome (Unit {0}) → Handled
  answer_write a object (Errors.err e) = (a, ok (model_error e ∷ []))
  answer_write a object (Errors.ok tt) = after_ack (notifications g a object)

  abbrev pub write_plain : Application → WriteRequest → Option ℕ → Handled
  write_plain a r (some index) = (a, ok (error_response class_property 42 ∷ []))
  write_plain a r none =
      let (d, outcome) = write_property a.device r.object r.reference.id r.values r.priority in
      answer_write (record a { device = d }) r.object outcome

  abbrev pub write_decoded : Application → Result WriteRequest → Handled
  write_decoded a (err e) = (a, ok (reject (reject_reason e) ∷ []))
  write_decoded a (ok r) = write_plain a r r.reference.array_index

  unfoldable pub handle_write_property : Application → Bytes → Handled
  handle_write_property a payload = write_decoded a (decode_write_property payload)

  unfoldable pub unsubscribe : Application → SubscriptionKey → Application
  unsubscribe a key = record a {
    registry = (Subscriptions.cancel key a.registry).0;
    subscribers = remove key a.subscribers;
  }

  -- The subscription is registered, then its endpoint.
  unfoldable pub subscribe :
      Application → SubscriptionKey → Endpoint → SubscribeCovRequest → List Value → Application
  subscribe a key source r values = record (tick g a) {
    registry =
        Subscriptions.subscribe (now g a)
          (record {
            key = key;
            confirmed = r.confirmed;
            lifetime = r.lifetime * second;
            expires_at = 0;
            last_value = values;
          })
          a.registry;
    subscribers = insert key source a.subscribers;
  }

  abbrev pub acknowledged : Application × Result Response → Handled
  acknowledged (a, err e) = (a, err e)
  acknowledged (a, ok n) = (a, ok (simple_ack ∷ n ∷ []))

  -- The first notification, with the values that were read.
  abbrev pub first_notification : Application → SubscriptionKey → Endpoint → List Value → Handled
  first_notification a key source values =
      let (b, ss) = active_subscriptions g a in
      acknowledged (notification g b (first_with_key ss key) source values)

  abbrev pub key_of : Endpoint → SubscribeCovRequest → SubscriptionKey
  key_of source r = record {
    subscriber = g.show source;
    process_id = r.process_identifier;
    object = r.object;
  }

  abbrev pub subscribe_values :
      Application → Endpoint → SubscribeCovRequest → Outcome (List Value) → Handled
  subscribe_values a source r (Errors.err unknown_property) =
      (a, ok (error_response class_property 44 ∷ []))
  subscribe_values a source r (Errors.err e) = (a, ok (model_error e ∷ []))
  subscribe_values a source r (Errors.ok values) =
      if r.cancel
      then (unsubscribe a (key_of source r), ok (simple_ack ∷ []))
      else first_notification (subscribe a (key_of source r) source r values) (key_of source r)
          source values

  abbrev pub subscribe_object :
      Application → Endpoint → SubscribeCovRequest → Outcome Object → Handled
  subscribe_object a source r (Errors.err e) = (a, ok (model_error e ∷ []))
  subscribe_object a source r (Errors.ok o) =
      subscribe_values a source r (read_property a.device r.object present_value none)

  abbrev pub subscribe_decoded : Application → Endpoint → Result SubscribeCovRequest → Handled
  subscribe_decoded a source (err e) = (a, ok (reject invalid_tag ∷ []))
  subscribe_decoded a source (ok r) = subscribe_object a source r (find_object a.device r.object)

  unfoldable pub handle_subscribe_cov : Application → Endpoint → Bytes → Handled
  unfolding subscribe unsubscribe
  handle_subscribe_cov a source payload = subscribe_decoded a source (decode_subscribe_cov payload)
