-- ===== src/Simulator/Application/Keys.antt =====
-- What the registry of simulator/subscriptions.go and the subscribers of simulator/application.go find
-- after each operation on them.
use gobac.Prelude.{ℕ, ◌≡◌, refl, sym, ◌∙◌, arith, List, [], ◌∷◌, Bool, true, false}
use gobac.Prelude.{Option, none, some, Option-cases, inl, inr, if◌then◌else◌, Bool-cases}
use gobac.Prelude.Maps.{lookup, insert, remove, lookup-insert, lookup-remove}
use gobac.Simulator.Property.{Value}
use gobac.Simulator.Response.{Endpoint}
use gobac.Simulator.Subscriptions.{
  SubscriptionKey, Subscription, Registry, subscription_key, same_key, same_key_iff,
}
use gobac.Simulator.Subscriptions.{
  active, remove_expired, update_last_value, with_value, cancel, subscribe,
}
use gobac.Simulator.Subscriptions.Expiry.{
  IsRegistry, alive, find, find-active, lookup-remove_expired, remove_expired-IsRegistry,
  insert-IsRegistry, remove-IsRegistry, lookup-cancel, cancel-cases,
}
use gobac.Simulator.Application.Notify.{known_key, prune}

abbrev has {ℓ} : {A : Type ℓ} → Option A → Bool
has none = false
has (some a) = true

known_key-find :
    (ss : List Subscription) (key : SubscriptionKey) → known_key ss key ≡ has (find key ss)
unfolding find
known_key-find [] key = refl
known_key-find (s ∷ ss) key = ground (arith, known_key-find ss key)

pub lookup-prune :
    (ss : List Subscription) (key : SubscriptionKey) (m : List (SubscriptionKey × Endpoint))
    → lookup key (prune ss m) ≡ (if has (find key ss) then lookup key m else none)
unfolding prune lookup
lookup-prune ss key [] = ground arith
lookup-prune ss key ((j, e) ∷ m) =
    ground
      (arith, same_key_iff j key, known_key-find ss key, known_key-find ss j, lookup-prune ss key m)

-- A subscription is found under its own key.
lookup-own :
    (key : SubscriptionKey) (s : Subscription) (r : Registry)
    → IsRegistry r
    → lookup key r ≡ some s
    → s.key ≡ key
unfolding lookup
lookup-own key s [] h e = cc
lookup-own key s ((j, t) ∷ r) (own, fresh, h) e =
    ground (arith, same_key_iff j key, lookup-own key s r h)

alive-none : (now : ℕ) (o : Option Subscription) → o ≡ none → alive now o ≡ none
alive-none now o e = rw e refl

-- The subscribers that are kept cover the subscriptions that are active.
pub prune-active :
    (now : ℕ) (r : Registry) (m : List (SubscriptionKey × Endpoint)) (key : SubscriptionKey)
    → IsRegistry r
    → (lookup key m ≡ none → lookup key r ≡ none)
    → lookup key (prune (active now r).1 m) ≡ none
    → lookup key (active now r).0 ≡ none
prune-active now r m key h covered e =
    let (found, kept) = find-active now key r h in
    elim (Option-cases (find key (active now r).1)) [
      | inl missing ↦ kept ∙ sym found ∙ missing
      | inr (t, there) ↦
          kept
          ∙ alive-none now (lookup key r)
              (covered (rw there at (sym (lookup-prune (active now r).1 key m)) ∙ e))
    ]

-- The last value is updated under a key that is there.
with_value-IsRegistry :
    (r : Registry) (key : SubscriptionKey) (values : List Value)
    → IsRegistry r
    → IsRegistry (with_value r key values (lookup key r)).0
with_value-IsRegistry r key values h = elim (Option-cases (lookup key r)) [
  | inl missing ↦ rw missing h
  | inr (s, there) ↦
      rw there
        (insert-IsRegistry key (record s { last_value = values }) r (lookup-own key s r h there) h)
]

pub update_last_value-IsRegistry :
    (now : ℕ) (key : SubscriptionKey) (values : List Value) (r : Registry)
    → IsRegistry r
    → IsRegistry (update_last_value now key values r).0
unfolding update_last_value
update_last_value-IsRegistry now key values r h =
    with_value-IsRegistry (remove_expired now r) key values (remove_expired-IsRegistry now r h)

with_value-none :
    (r : Registry) (key other : SubscriptionKey) (values : List Value)
    → lookup other r ≡ none
    → lookup other (with_value r key values (lookup key r)).0 ≡ none
with_value-none r key other values e = elim (Option-cases (lookup key r)) [
  | inl missing ↦ rw missing e
  | inr (s, there) ↦
      rw (there, lookup-insert key other (record s { last_value = values }) r)
        (ground (arith, same_key_iff key other))
]

-- No key comes in by an update.
pub update_last_value-none :
    (now : ℕ) (key other : SubscriptionKey) (values : List Value) (r : Registry)
    → IsRegistry r
    → lookup other r ≡ none
    → lookup other (update_last_value now key values r).0 ≡ none
unfolding update_last_value
update_last_value-none now key other values r h e =
    with_value-none (remove_expired now r) key other values
      (lookup-remove_expired now other r h ∙ alive-none now (lookup other r) e)

pub cancel-IsRegistry :
    (key : SubscriptionKey) (r : Registry) → IsRegistry r → IsRegistry (cancel key r).0
cancel-IsRegistry key r h = elim (cancel-cases key r) [
  | inl (missing, same) ↦ rw same h
  | inr (there, removed) ↦ rw removed (remove-IsRegistry key r h)
]

-- The subscribers cover the registry after a cancellation and after a subscription.
module _ (key other : SubscriptionKey) (r : Registry) (m : List (SubscriptionKey × Endpoint))
    (covered : lookup other m ≡ none → lookup other r ≡ none) where
  pub remove-covered : lookup other (remove key m) ≡ none → lookup other (cancel key r).0 ≡ none
  remove-covered e =
      rw ((lookup-cancel key other r).0)
        (ground (arith, lookup-remove key other m, Bool-cases (same_key key other)))

  pub insert-covered :
      (endpoint : Endpoint) (now : ℕ) (s : Subscription)
      → s.key ≡ key
      → lookup other (insert key endpoint m) ≡ none
      → lookup other (subscribe now s r) ≡ none
  unfolding subscribe
  insert-covered endpoint now s own e =
      rw (lookup-insert s.key other _ r, own)
        (ground (arith, lookup-insert key other endpoint m, Bool-cases (same_key key other)))
