-- ===== src/Simulator/Subscriptions.antt =====
-- The registry of simulator/subscriptions.go and the clock of simulator/clock.go. A lock makes each
-- operation one step. A time is the number of nanoseconds since Go's zero time, and `now` is what the
-- clock gives to the operation.
pub mod Expiry
pub mod Listed
pub mod Order
pub mod Unique
use gobac.Prelude.{ℕ, ◌+◌, ◌≡◌, List, [], ◌∷◌, Bool, true, false, not, ◌&&◌, ltb, ◌==◌}
use gobac.Prelude.{if◌then◌else◌, Option, none, some, ◌↔◌, arith}
use gobac.Prelude.Maps.{Key, lookup, insert, remove}
use gobac.Types.Bytes.{Bytes, bytes_eq, bytes_eq_sound, bytes_eq_refl}
use gobac.Types.GoValue.{ObjectRef, same_ref, same_ref_iff}
use gobac.Simulator.Property.{Value}

pub record SubscriptionKey : Type 0 where
  pub subscriber : Bytes
  pub process_id : ℕ
  pub object : ObjectRef

-- A zero `expires_at` stands for no end. A `time.Duration` below zero counts as 0.
pub record Subscription : Type 0 where
  pub key : SubscriptionKey
  pub confirmed : Bool
  pub lifetime : ℕ
  pub expires_at : ℕ
  pub last_value : List Value

abbrev pub same_key : SubscriptionKey → SubscriptionKey → Bool
same_key a b =
    bytes_eq a.subscriber b.subscriber
    && (a.process_id == b.process_id)
    && same_ref a.object b.object

pub same_key_iff : (a b : SubscriptionKey) → (same_key a b ≡ true) ↔ (a ≡ b)
same_key_iff a b = (
  λ h. ground (arith, bytes_eq_sound a.subscriber b.subscriber, same_ref_iff a.object b.object),
  λ e. ground (arith, bytes_eq_refl a.subscriber, same_ref_iff a.object a.object),
)

instance abbrev pub subscription_key : Key SubscriptionKey
subscription_key = record { same = same_key; same_iff = same_key_iff }

abbrev pub Registry : Type 0
Registry = List (SubscriptionKey × Subscription)

-- `Subscribe`
unfoldable pub subscribe : ℕ → Subscription → Registry → Registry
subscribe now s r =
    let expires : ℕ = if ltb 0 s.lifetime then now + s.lifetime else 0 in
    insert s.key (record s { expires_at = expires }) r

-- `Cancel`
unfoldable pub cancel : SubscriptionKey → Registry → Registry × Bool
cancel key r = elim (lookup key r) [ none ↦ (r, false) | some s ↦ (remove key r, true) ]

abbrev pub is_expired : ℕ → Subscription → Bool
is_expired now s = not (s.expires_at == 0) && not (ltb now s.expires_at)

-- `removeExpiredLocked`
unfoldable pub remove_expired : ℕ → Registry → Registry
remove_expired now [] = []
remove_expired now ((key, s) ∷ r) =
    let rest = remove_expired now r in if is_expired now s then rest else (key, s) ∷ rest

unfoldable pub before_text : Bytes → Bytes → Bool
before_text [] [] = false
before_text [] (b ∷ bs) = true
before_text (a ∷ as') [] = false
before_text (a ∷ as') (b ∷ bs) = let rest = before_text as' bs in if a == b then rest else ltb a b

-- The order of `Active`.
unfoldable pub before : Subscription → Subscription → Bool
before a b =
    if not (bytes_eq a.key.subscriber b.key.subscriber)
    then before_text a.key.subscriber b.key.subscriber
    else if not (a.key.process_id == b.key.process_id)
    then ltb a.key.process_id b.key.process_id
    else if not (a.key.object.type == b.key.object.type)
    then ltb a.key.object.type b.key.object.type
    else ltb a.key.object.instance_value b.key.object.instance_value

unfoldable pub place : Subscription → List Subscription → List Subscription
place s [] = s ∷ []
place s (t ∷ rest) = let further = t ∷ place s rest in if before t s then further else s ∷ t ∷ rest

-- `sort.Slice` of the values of the map, whose keys differ.
unfoldable pub sorted : Registry → List Subscription
sorted [] = []
sorted ((key, s) ∷ r) = place s (sorted r)

-- `Active`
unfoldable pub active : ℕ → Registry → Registry × List Subscription
active now r = let kept = remove_expired now r in (kept, sorted kept)

abbrev pub with_value :
    Registry → SubscriptionKey → List Value → Option Subscription → Registry × Bool
with_value r key values none = (r, false)
with_value r key values (some s) = (insert key (record s { last_value = values }) r, true)

-- `UpdateLastValue`
unfoldable pub update_last_value : ℕ → SubscriptionKey → List Value → Registry → Registry × Bool
update_last_value now key values r =
    let kept = remove_expired now r in with_value kept key values (lookup key kept)
