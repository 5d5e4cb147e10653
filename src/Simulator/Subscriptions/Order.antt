-- ===== src/Simulator/Subscriptions/Order.antt =====
-- The order in which `Active` of simulator/subscriptions.go lists the subscriptions.
use gobac.Prelude.{ℕ, ◌<◌, ◌≡◌, ◌≢◌, refl, arith, List, [], ◌∷◌, true, false, All}
use gobac.Prelude.{Bool-cases, ◌⊎◌, inl, inr}
use gobac.Types.Bytes.{Bytes, bytes_eq_sound, bytes_eq_refl}
use gobac.Types.GoValue.{ObjectRef}
use gobac.Simulator.Subscriptions.{
  SubscriptionKey, Subscription, Registry, before_text, before, place, sorted, active,
  remove_expired,
}
use gobac.Simulator.Subscriptions.Expiry.{IsRegistry, remove_expired-IsRegistry}
use gobac.Simulator.Subscriptions.Listed.{fresh-All}

-- Go's order of strings: octet by octet, a prefix first.
abbrev pub TextLess : Bytes → Bytes → Type 0
TextLess [] [] = ⊥
TextLess [] (b ∷ bs) = Unit {0}
TextLess (a ∷ as') [] = ⊥
TextLess (a ∷ as') (b ∷ bs) = (a < b) ⊎ ((a ≡ b) × TextLess as' bs)

abbrev pub ObjectLess : ObjectRef → ObjectRef → Type 0
ObjectLess a b = (a.type < b.type) ⊎ ((a.type ≡ b.type) × (a.instance_value < b.instance_value))

-- By subscriber, then by process identifier, then by object type and instance.
abbrev pub KeyLess : SubscriptionKey → SubscriptionKey → Type 0
KeyLess a b =
    TextLess a.subscriber b.subscriber
    ⊎ ((a.subscriber ≡ b.subscriber)
        × ((a.process_id < b.process_id)
            ⊎ ((a.process_id ≡ b.process_id) × ObjectLess a.object b.object)))

before_text-TextLess : (a b : Bytes) → before_text a b ≡ true → TextLess a b
unfolding before_text
before_text-TextLess [] [] h = cc h
before_text-TextLess [] (b ∷ bs) h = tt
before_text-TextLess (a ∷ as') [] h = cc h
before_text-TextLess (a ∷ as') (b ∷ bs) h = ground (arith, before_text-TextLess as' bs)

before_text-total : (a b : Bytes) → before_text a b ≡ false → (a ≡ b) ⊎ TextLess b a
unfolding before_text
before_text-total [] [] h = inl refl
before_text-total [] (b ∷ bs) h = cc h
before_text-total (a ∷ as') [] h = inr tt
before_text-total (a ∷ as') (b ∷ bs) h = ground (arith, before_text-total as' bs)

before-KeyLess : (a b : Subscription) → before a b ≡ true → KeyLess a.key b.key
unfolding before
before-KeyLess a b h = ground (
  arith,
  before_text-TextLess a.key.subscriber b.key.subscriber,
  bytes_eq_sound a.key.subscriber b.key.subscriber,
)

before-total : (a b : Subscription) → before a b ≡ false → b.key ≢ a.key → KeyLess b.key a.key
unfolding before
before-total a b h differ = ground (
  arith,
  before_text-total a.key.subscriber b.key.subscriber,
  bytes_eq_sound a.key.subscriber b.key.subscriber,
  bytes_eq_refl a.key.subscriber,
)

-- Every subscription comes before the next one.
abbrev pub LeadsOff : Subscription → List Subscription → Type 0
LeadsOff s [] = Unit {0}
LeadsOff s (t ∷ rest) = KeyLess s.key t.key

abbrev pub IsAscending : List Subscription → Type 0
IsAscending [] = Unit {0}
IsAscending (s ∷ rest) = LeadsOff s rest × IsAscending rest

place-LeadsOff :
    (s t : Subscription) (rest : List Subscription)
    → KeyLess t.key s.key
    → LeadsOff t rest
    → LeadsOff t (place s rest)
unfolding place
place-LeadsOff s t [] h lead = h
place-LeadsOff s t (u ∷ rest) h lead = elim (Bool-cases (before u s)) [
  | inl further ↦ rw further lead
  | inr stop ↦ rw stop h
]

place-IsAscending :
    (s : Subscription) (list : List Subscription)
    → All (λ (t : Subscription). s.key ≢ t.key) list
    → IsAscending list
    → IsAscending (place s list)
unfolding place
place-IsAscending s [] new h = (tt, tt)
place-IsAscending s (t ∷ rest) (differ, new) (lead, h) = elim (Bool-cases (before t s)) [
  | inl further ↦
      rw further
        (place-LeadsOff s t rest (before-KeyLess t s further) lead, place-IsAscending s rest new h)
  | inr stop ↦ rw stop (before-total t s stop differ, (lead, h))
]

sorted-IsAscending : (r : Registry) → IsRegistry r → IsAscending (sorted r)
unfolding sorted
sorted-IsAscending [] h = tt
sorted-IsAscending ((j, s) ∷ r) (own, fresh, h) =
    place-IsAscending s (sorted r) (rw own (fresh-All j r h fresh)) (sorted-IsAscending r h)

-- The active subscriptions of a registry that has each key once are
-- listed in strictly ascending order: by the octets of the subscriber, for one subscriber by
-- process identifier, then by object type, then by instance.
pub active-IsAscending : (now : ℕ) (r : Registry) → IsRegistry r → IsAscending (active now r).1
unfolding active
active-IsAscending now r h =
    sorted-IsAscending (remove_expired now r) (remove_expired-IsRegistry now r h)
