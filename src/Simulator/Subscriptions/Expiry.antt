-- ===== src/Simulator/Subscriptions/Expiry.antt =====
-- Which subscriptions are active, and how long.
use gobac.Prelude.{ℕ, ◌+◌, ◌≡◌, ◌≢◌, refl, sym, ap, ◌∙◌, arith, List, [], ◌∷◌, true, false}
use gobac.Prelude.{
  Option, none, some, Option-cases, ◌⊎◌, ◌↔◌, inl, inr, if◌then◌else◌, not, ◌&&◌, ltb,
}
use gobac.Prelude.{Bool-cases}
use gobac.Prelude.Maps.{lookup, insert, remove, lookup-insert, lookup-remove}
use gobac.Simulator.Subscriptions.{
  SubscriptionKey, Subscription, Registry, subscription_key, same_key,
}
use gobac.Simulator.Subscriptions.{
  subscribe, cancel, is_expired, remove_expired, place, sorted, active,
}
use gobac.Simulator.Subscriptions.{same_key_iff}

-- A subscription that is there and has not expired.
abbrev pub alive : ℕ → Option Subscription → Option Subscription
alive now none = none
alive now (some s) = if is_expired now s then none else some s

-- Every key is there once, under its own subscription.
unfoldable pub Fresh : SubscriptionKey → Registry → Type 0
Fresh key r = lookup key r ≡ none

abbrev pub IsRegistry : Registry → Type 0
IsRegistry [] = Unit {0}
IsRegistry ((key, s) ∷ r) = (s.key ≡ key) × (lookup key r ≡ none) × IsRegistry r

pub lookup-remove_expired :
    (now : ℕ) (key : SubscriptionKey) (r : Registry)
    → IsRegistry r
    → lookup key (remove_expired now r) ≡ alive now (lookup key r)
unfolding lookup remove_expired
lookup-remove_expired now key [] h = refl
lookup-remove_expired now key ((j, s) ∷ r) (own, fresh, h) =
    ground (arith, same_key_iff j key, lookup-remove_expired now key r h)

-- In a registry that has each key once and under it a subscription of that key: a subscription is
-- the one that its key finds from the time of the request until its lifetime is over, or without end
-- where the lifetime is 0; other keys find what they found, unless it has expired.
pub subscribe-remove_expired :
    (start now : ℕ) (s : Subscription) (key : SubscriptionKey) (r : Registry)
    → IsRegistry (subscribe start s r)
    → lookup key (remove_expired now (subscribe start s r)) ≡ (
        if same_key s.key key
        then (if ltb 0 s.lifetime && not (ltb now (start + s.lifetime))
            then none
            else some
                (record s { expires_at = if ltb 0 s.lifetime then start + s.lifetime else 0 }))
        else alive now (lookup key r))
unfolding subscribe
subscribe-remove_expired start now s key r h =
    rw
      (
        lookup-remove_expired now key (subscribe start s r) h,
        lookup-insert s.key key
            (record s { expires_at = if ltb 0 s.lifetime then start + s.lifetime else 0 }) r,
      )
      (ground (arith, Bool-cases (same_key s.key key)))

lookup-insert_same :
    (key : SubscriptionKey) (s : Subscription) (r : Registry)
    → (other : SubscriptionKey) → key ≢ other
    → lookup other r ≡ none
    → lookup other (insert key s r) ≡ none
lookup-insert_same key s r other differ fresh =
    rw (lookup-insert key other s r) (ground (arith, same_key_iff key other))

pub insert-IsRegistry :
    (key : SubscriptionKey) (s : Subscription) (r : Registry)
    → s.key ≡ key
    → IsRegistry r
    → IsRegistry (insert key s r)
unfolding insert lookup
insert-IsRegistry key s [] own h = (own, refl, tt)
insert-IsRegistry key s ((j, t) ∷ r) own (its, fresh, h) = elim (Bool-cases (same_key j key)) [
  | inl same ↦ rw same (own ∙ sym ((same_key_iff j key).0 same), fresh, h)
  | inr other ↦ rw other (
    its,
    lookup-insert_same key s r j (λ e. ground (arith, same_key_iff j key)) fresh,
    insert-IsRegistry key s r own h,
  )
]

-- A subscription keeps the registry one.
pub subscribe-IsRegistry :
    (now : ℕ) (s : Subscription) (r : Registry) → IsRegistry r → IsRegistry (subscribe now s r)
unfolding subscribe
subscribe-IsRegistry now s r h = insert-IsRegistry s.key _ r refl h

pub remove_expired-IsRegistry :
    (now : ℕ) (r : Registry) → IsRegistry r → IsRegistry (remove_expired now r)
unfolding remove_expired
remove_expired-IsRegistry now [] h = tt
remove_expired-IsRegistry now ((j, s) ∷ r) (own, fresh, h) = elim (Bool-cases (is_expired now s)) [
  | inl old ↦ rw old (remove_expired-IsRegistry now r h)
  | inr young ↦
      rw young
        (own, rw (lookup-remove_expired now j r h, fresh) refl, remove_expired-IsRegistry now r h)
]

pub remove-IsRegistry :
    (key : SubscriptionKey) (r : Registry) → IsRegistry r → IsRegistry (remove key r)
unfolding remove
remove-IsRegistry key [] h = tt
remove-IsRegistry key ((j, s) ∷ r) (own, fresh, h) = elim (Bool-cases (same_key j key)) [
  | inl same ↦ rw same (remove-IsRegistry key r h)
  | inr other ↦
      rw other (own, rw (lookup-remove key j r, fresh) (ground arith), remove-IsRegistry key r h)
]

pub cancel-cases :
    (key : SubscriptionKey) (r : Registry)
    → ((lookup key r ≡ none) × (cancel key r ≡ (r, false)))
      ⊎ ((lookup key r ≢ none) × (cancel key r ≡ (remove key r, true)))
unfolding cancel
cancel-cases key r = elim (Option-cases (lookup key r)) [
  | inl missing ↦ inl (missing, rw (cancel, missing) refl)
  | inr (s, there) ↦ inr (λ e. cc (sym there ∙ e), rw (cancel, there) refl)
]

-- A cancelled subscription is found no more, and every other key finds what it found. The answer tells
-- whether there was one.
pub lookup-cancel :
    (key other : SubscriptionKey) (r : Registry)
    → (lookup other (cancel key r).0 ≡ (if same_key key other then none else lookup other r))
      × (((cancel key r).1 ≡ true) ↔ (lookup key r ≢ none))
lookup-cancel key other r = elim (cancel-cases key r) [
  | inl (missing, same) ↦
      rw same (ground (arith, same_key_iff key other), (λ e. cc e, λ there. absurd (there missing)))
  | inr (there, removed) ↦ rw removed (lookup-remove key other r, (λ e. there, λ e. refl))
]

unfoldable pub find : SubscriptionKey → List Subscription → Option Subscription
find key [] = none
find key (s ∷ rest) = if same_key s.key key then some s else find key rest

find-place :
    (key : SubscriptionKey) (s : Subscription) (list : List Subscription)
    → find s.key list ≡ none
    → find key (place s list) ≡ (if same_key s.key key then some s else find key list)
unfolding find place
find-place key s [] fresh = refl
find-place key s (t ∷ rest) fresh = ground (
  arith,
  same_key_iff t.key s.key,
  same_key_iff t.key key,
  same_key_iff s.key key,
  find-place key s rest,
)

find-sorted :
    (key : SubscriptionKey) (r : Registry) → IsRegistry r → find key (sorted r) ≡ lookup key r
unfolding find sorted lookup
find-sorted key [] h = refl
find-sorted key ((j, s) ∷ r) (own, fresh, h) =
    find-place key s (sorted r) (find-sorted s.key r h ∙ ap (λ k. lookup k r) own ∙ fresh)
    ∙ rw (find-sorted key r h, own) refl

-- In a registry that has each key once and under it a subscription of that key: the active
-- subscriptions are those that have not expired, and the registry keeps these and no other ones.
pub find-active :
    (now : ℕ) (key : SubscriptionKey) (r : Registry)
    → IsRegistry r
    → (find key (active now r).1 ≡ alive now (lookup key r))
      × (lookup key (active now r).0 ≡ alive now (lookup key r))
unfolding active
find-active now key r h =
    let kept = lookup-remove_expired now key r h in
    (find-sorted key (remove_expired now r) (remove_expired-IsRegistry now r h) ∙ kept, kept)
