-- ===== src/Simulator/Application/Invariant.antt =====
-- What the handlers of simulator/application.go keep, from NewApplication on.
use gobac.Prelude.{ℕ, ◌≡◌, ◌<◌, arith, List, [], ◌∷◌, Bool, true, false}
use gobac.Prelude.{Option, none, some, inl, inr, Bool-cases, ◌==◌}
use gobac.Prelude.Maps.{lookup}
use gobac.Result.{Result, ok, err, Result-cases}
use gobac.Types.Bytes.{Bytes}
use gobac.Types.GoValue.{ObjectRef, same_ref}
use gobac.Simulator.Errors
use gobac.Simulator.Errors.{Outcome}
use gobac.Simulator.Property.{Value}
use gobac.Simulator.Response.{Endpoint, Response}
use gobac.Simulator.Subscriptions.{SubscriptionKey, Subscription, subscription_key, active}
use gobac.Simulator.Subscriptions.Expiry.{IsRegistry, remove_expired-IsRegistry}
use gobac.Simulator.Application.{Application, Runtime}
use gobac.Simulator.Application.Notify.{
  next_invoke_id, active_subscriptions, time_remaining, addressed, notification, record_value,
  notify_changed, notify_endpoint, notify_values, notify_one, notify_all, notifications,
}
use gobac.Simulator.Application.Keys.{
  prune-active, update_last_value-IsRegistry, update_last_value-none,
}

-- The registry has each key once, under it a subscription of that key, and for each key there is an
-- endpoint; the invoke ID is an octet.
pub record IsApplication (a : Application) : Type 0 where
  pub registry : IsRegistry a.registry
  pub covered : (k : SubscriptionKey) → lookup k a.subscribers ≡ none → lookup k a.registry ≡ none
  pub octet : a.invoke_id < 256

next_invoke_id-octet : (id : ℕ) → next_invoke_id id < 256
unfolding next_invoke_id
next_invoke_id-octet id = ground arith

module _ (g : Runtime) where
  pub active_subscriptions-IsApplication :
      (a : Application) → IsApplication a → IsApplication (active_subscriptions g a).0
  unfolding active_subscriptions active
  active_subscriptions-IsApplication a h = record {
    registry = remove_expired-IsRegistry (g.clock a.ticks) a.registry h.registry;
    covered =
        λ k e. prune-active (g.clock a.ticks) a.registry a.subscribers k h.registry (h.covered k) e;
    octet = h.octet;
  }

  time_remaining-IsApplication :
      (a : Application) (s : Subscription)
      → IsApplication a
      → IsApplication (time_remaining g a s).0
  time_remaining-IsApplication a s h = elim (Bool-cases (s.expires_at == 0)) [
    | inl e ↦ rw e h
    | inr e ↦ rw e (record { registry = h.registry; covered = h.covered; octet = h.octet })
  ]

  addressed-IsApplication :
      (a : Application) (s : Subscription) (endpoint : Endpoint) (r : Result Bytes)
      → IsApplication a
      → IsApplication (addressed g a s endpoint r).0
  addressed-IsApplication a s endpoint (err e) h = h
  addressed-IsApplication a s endpoint (ok payload) h = elim (Bool-cases s.confirmed) [
    | inl e ↦ rw e (record {
      registry = h.registry;
      covered = h.covered;
      octet = next_invoke_id-octet a.invoke_id;
    })
    | inr e ↦ rw e h
  ]

  pub notification-IsApplication :
      (a : Application) (s : Subscription) (endpoint : Endpoint) (values : List Value)
      → IsApplication a
      → IsApplication (notification g a s endpoint values).0
  unfolding notification
  notification-IsApplication a s endpoint values h =
      addressed-IsApplication (time_remaining g a s).0 s endpoint _
        (time_remaining-IsApplication a s h)

  record_value-IsApplication :
      (key : SubscriptionKey) (values : List Value) (r : Application × Result Response)
      → IsApplication r.0
      → IsApplication (record_value g key values r).0
  record_value-IsApplication key values (a, err e) h = h
  record_value-IsApplication key values (a, ok n) h = record {
    registry = update_last_value-IsRegistry (g.clock a.ticks) key values a.registry h.registry;
    covered = λ k e.
        update_last_value-none (g.clock a.ticks) key k values a.registry h.registry (h.covered k e);
    octet = h.octet;
  }

  notify_changed-IsApplication :
      (a : Application) (s : Subscription) (endpoint : Endpoint) (values : List Value)
      (c : Result Bool)
      → IsApplication a
      → IsApplication (notify_changed g a s endpoint values c).0
  notify_changed-IsApplication a s endpoint values (err e) h = h
  notify_changed-IsApplication a s endpoint values (ok false) h = h
  notify_changed-IsApplication a s endpoint values (ok true) h =
      record_value-IsApplication s.key values _ (notification-IsApplication a s endpoint values h)

  notify_endpoint-IsApplication :
      (a : Application) (s : Subscription) (values : List Value) (e : Option Endpoint)
      → IsApplication a
      → IsApplication (notify_endpoint g a s values e).0
  notify_endpoint-IsApplication a s values none h = h
  notify_endpoint-IsApplication a s values (some endpoint) h =
      notify_changed-IsApplication a s endpoint values _ h

  notify_values-IsApplication :
      (a : Application) (s : Subscription) (values : Outcome (List Value))
      → IsApplication a
      → IsApplication (notify_values g a s values).0
  notify_values-IsApplication a s (Errors.err e) h = h
  notify_values-IsApplication a s (Errors.ok values) h =
      notify_endpoint-IsApplication a s values _ h

  notify_one-IsApplication :
      (a : Application) (object : ObjectRef) (s : Subscription)
      → IsApplication a
      → IsApplication (notify_one g a object s).0
  unfolding notify_one
  notify_one-IsApplication a object s h = elim (Bool-cases (same_ref s.key.object object)) [
    | inl e ↦ rw e (notify_values-IsApplication a s _ h)
    | inr e ↦ rw e h
  ]

  notify_all-IsApplication :
      (a : Application) (object : ObjectRef) (ss : List Subscription)
      → IsApplication a
      → IsApplication (notify_all g a object ss).0
  unfolding notify_all
  notify_all-IsApplication a object [] h = h
  notify_all-IsApplication a object (s ∷ ss) h =
      let kept = notify_one-IsApplication a object s h in
      elim (Result-cases (notify_one g a object s).1) [
        | inl (rs, e) ↦
            rw (e, notify_all) (notify_all-IsApplication (notify_one g a object s).0 object ss kept)
        | inr (failure, e) ↦ rw (e, notify_all) kept
      ]

  pub notifications-IsApplication :
      (a : Application) (object : ObjectRef)
      → IsApplication a
      → IsApplication (notifications g a object).0
  unfolding notifications
  notifications-IsApplication a object h =
      notify_all-IsApplication (active_subscriptions g a).0 object _
        (active_subscriptions-IsApplication a h)
