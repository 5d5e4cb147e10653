-- ===== src/Simulator/Application/Notify.antt =====
-- The subscribers and the COV notifications of simulator/application.go: notifications, notification,
-- subscription, activeSubscriptions and nextInvokeID.
use gobac.Prelude.{ℕ, ◌+◌, ◌-◌, ◌/◌, ◌%◌, ◌^◌, List, [], ◌∷◌, ◌++◌, Bool, true, false}
use gobac.Prelude.{◌==◌, if◌then◌else◌, Option, none, some}
use gobac.Prelude.Maps.{lookup}
use gobac.Result.{Result, ok, err, ◌>>=◌}
use gobac.Types.Bytes.{Bytes}
use gobac.Types.GoValue.{ObjectRef, same_ref}
use gobac.Simulator.Errors
use gobac.Simulator.Errors.{Outcome, ModelError, class_property, unknown_property}
use gobac.Simulator.Property.{Value}
use gobac.Simulator.Object.{present_value}
use gobac.Simulator.Device.{read_property}
use gobac.Simulator.Subscriptions.{SubscriptionKey, Subscription, subscription_key}
use gobac.Simulator.Subscriptions.{same_key, active, update_last_value}
use gobac.Simulator.Response.{Endpoint, Response}
use gobac.Simulator.Response.{unconfirmed, confirmed, to}
use gobac.Simulator.Changes.{cov_changed}
use gobac.Simulator.Services.ReadMultiple.{PropertyResult}
use gobac.Simulator.Services.Notification.{encode_cov_notification}
use gobac.Simulator.Application.{Application, Runtime, Handled}

-- `subscription.ExpiresAt` is a time in nanoseconds.
abbrev pub second : ℕ
second = 1_000_000_000

abbrev pub known_key : List Subscription → SubscriptionKey → Bool
known_key [] key = false
known_key (s ∷ ss) key = let rest = known_key ss key in if same_key s.key key then true else rest

-- The subscribers whose keys are among the active ones.
unfoldable pub prune :
    List Subscription → List (SubscriptionKey × Endpoint) → List (SubscriptionKey × Endpoint)
prune ss [] = []
prune ss ((key, e) ∷ m) =
    let rest = prune ss m in if known_key ss key then (key, e) ∷ rest else rest

unfoldable pub next_invoke_id : ℕ → ℕ
next_invoke_id id = if (id + 1) % 256 == 0 then 1 else (id + 1) % 256

module _ (g : Runtime) where
  -- A reading of the clock.
  abbrev pub tick : Application → Application
  tick a = record a { ticks = a.ticks + 1 }

  abbrev pub now : Application → ℕ
  now a = g.clock a.ticks

  unfoldable pub active_subscriptions : Application → Application × List Subscription
  unfolding prune
  active_subscriptions a =
      let (registry, ss) = active (now a) a.registry in
      (record (tick a) { registry = registry; subscribers = prune ss a.subscribers }, ss)

  -- The whole seconds that remain, rounded up, as a `uint32`.
  abbrev pub seconds_left : ℕ → ℕ → ℕ
  seconds_left expires time = (expires - time + (second - 1)) / second % 2 ^ 32

  -- The clock is read where the subscription ends at all.
  abbrev pub time_remaining : Application → Subscription → Application × ℕ
  time_remaining a s =
      if s.expires_at == 0 then (a, 0) else (tick a, seconds_left s.expires_at (now a))

  abbrev pub notified : List Value → PropertyResult
  notified values = record {
    reference = record { id = present_value; array_index = none };
    values = values;
    error_class = 0;
    error_code = 0;
  }

  -- A confirmed notification takes the next invoke ID.
  abbrev pub addressed :
      Application → Subscription → Endpoint → Result Bytes → Application × Result Response
  addressed a s endpoint (err e) = (a, err e)
  addressed a s endpoint (ok payload) =
      if s.confirmed
      then (
        record a { invoke_id = next_invoke_id a.invoke_id },
        ok (to (confirmed 1 (next_invoke_id a.invoke_id) payload) endpoint),
      )
      else (a, ok (to (unconfirmed 2 payload) endpoint))

  unfoldable pub notification :
      Application → Subscription → Endpoint → List Value → Application × Result Response
  unfolding next_invoke_id
  notification a s endpoint values =
      let (b, left) = time_remaining a s in
      addressed b s endpoint (
        encode_cov_notification g.floats s.key.process_id a.device.id s.key.object left
          (notified values ∷ []))

  -- The last value is updated, at a reading of the clock, where a notification was made.
  abbrev pub record_value :
      SubscriptionKey → List Value → Application × Result Response → Application × List Response
  record_value key values (a, err e) = (a, [])
  record_value key values (a, ok r) =
      (record (tick a) { registry = (update_last_value (now a) key values a.registry).0 }, r ∷ [])

  abbrev pub notify_changed :
      Application
      → Subscription
      → Endpoint
      → List Value
      → Result Bool
      → Application × Result (List Response)
  notify_changed a s endpoint values (err e) = (a, err e)
  notify_changed a s endpoint values (ok false) = (a, ok [])
  notify_changed a s endpoint values (ok true) =
      let (b, responses) = record_value s.key values (notification a s endpoint values) in
      (b, ok responses)

  abbrev pub notify_endpoint :
      Application
      → Subscription
      → List Value
      → Option Endpoint
      → Application × Result (List Response)
  notify_endpoint a s values none = (a, ok [])
  notify_endpoint a s values (some endpoint) =
      notify_changed a s endpoint values
        (cov_changed g.tests g.floats a.device s.key.object s.last_value values)

  abbrev pub notify_values :
      Application → Subscription → Outcome (List Value) → Application × Result (List Response)
  notify_values a s (Errors.err e) = (a, ok [])
  notify_values a s (Errors.ok values) = notify_endpoint a s values (lookup s.key a.subscribers)

  -- One round of the loop over the active subscriptions. An error stands for a panic.
  unfoldable pub notify_one :
      Application → ObjectRef → Subscription → Application × Result (List Response)
  unfolding notification
  notify_one a object s =
      if same_ref s.key.object object
      then notify_values a s (read_property a.device object present_value none)
      else (a, ok [])

  abbrev pub joined : Result (List Response) → Result (List Response) → Result (List Response)
  joined (err e) later = err e
  joined (ok rs) later = later >>= λ more. ok (rs ++ more)

  unfoldable pub notify_all :
      Application → ObjectRef → List Subscription → Application × Result (List Response)
  unfolding notify_one
  notify_all a object [] = (a, ok [])
  notify_all a object (s ∷ ss) =
      let (b, first) = notify_one a object s in
      let (c, later) = notify_all b object ss in
      elim first [ err e ↦ (b, err e) | ok rs ↦ (c, joined (ok rs) later) ]

  unfoldable pub notifications : Application → ObjectRef → Handled
  unfolding active_subscriptions notify_all
  notifications a object = let (b, ss) = active_subscriptions a in notify_all b object ss
