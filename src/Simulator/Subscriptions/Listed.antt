-- ===== src/Simulator/Subscriptions/Listed.antt =====
-- Which subscriptions `Active` of simulator/subscriptions.go lists, and which ones the registry keeps.
use gobac.Prelude.{ℕ, ◌<◌, ◌≡◌, ◌≢◌, sym, ap, subst, ◌∙◌, arith, List, [], ◌∷◌, true, false, All}
use gobac.Prelude.{Option, none, some, Bool-cases, ◌⊎◌, ◌↔◌, inl, inr, if◌then◌else◌}
use gobac.Prelude.{Member, at_head, in_tail, Member-All}
use gobac.Prelude.Maps.{lookup}
use gobac.Simulator.Subscriptions.{
  SubscriptionKey, Subscription, Registry, subscription_key, same_key, same_key_iff, before,
  is_expired, remove_expired, place, sorted, active,
}
use gobac.Simulator.Subscriptions.Expiry.{
  IsRegistry, alive, lookup-remove_expired, remove_expired-IsRegistry,
}

-- Placing a subscription adds it and nothing else.
Member-place :
    (t s : Subscription) (list : List Subscription)
    → (t ≡ s) ⊎ Member t list
    → Member t (place s list)
unfolding place
Member-place t s [] (inl e) = at_head e
Member-place t s [] (inr m) = in_tail m
Member-place t s (u ∷ rest) m = elim (Bool-cases (before u s)) [
  | inr stop ↦ rw stop (ahead m)
  | inl further ↦ rw further (behind (λ k. Member-place t s rest k) m)
]
  where
    ahead : (t ≡ s) ⊎ Member t (u ∷ rest) → Member t (s ∷ u ∷ rest)
    ahead (inl e) = at_head e
    ahead (inr n) = in_tail n

    behind :
        ((t ≡ s) ⊎ Member t rest → Member t (place s rest))
        → (t ≡ s) ⊎ Member t (u ∷ rest)
        → Member t (u ∷ place s rest)
    behind deeper (inl e) = in_tail (deeper (inl e))
    behind deeper (inr (at_head e)) = at_head e
    behind deeper (inr (in_tail n)) = in_tail (deeper (inr n))

place-Member :
    (t s : Subscription) (list : List Subscription)
    → Member t (place s list)
    → (t ≡ s) ⊎ Member t list
unfolding place
place-Member t s [] (at_head e) = inl e
place-Member t s [] (in_tail m) = inr m
place-Member t s (u ∷ rest) m = elim (Bool-cases (before u s)) [
  | inr stop ↦ ahead (rw stop at m)
  | inl further ↦ behind (λ n. place-Member t s rest n) (rw further at m)
]
  where
    ahead : Member t (s ∷ u ∷ rest) → (t ≡ s) ⊎ Member t (u ∷ rest)
    ahead (at_head e) = inl e
    ahead (in_tail n) = inr n

    later : (t ≡ s) ⊎ Member t rest → (t ≡ s) ⊎ Member t (u ∷ rest)
    later (inl e) = inl e
    later (inr n) = inr (in_tail n)

    behind :
        (Member t (place s rest) → (t ≡ s) ⊎ Member t rest)
        → Member t (u ∷ place s rest)
        → (t ≡ s) ⊎ Member t (u ∷ rest)
    behind deeper (at_head e) = inr (at_head e)
    behind deeper (in_tail n) = later (deeper n)

some-injective : {A : Type 0} (a b : A) → (◌≡◌ {A = Option A} (some a) (some b)) → a ≡ b
some-injective a b e = ground arith

-- The list has the subscriptions of the registry.
lookup-sorted :
    (t : Subscription) (r : Registry) → IsRegistry r → Member t (sorted r) → lookup t.key r ≡ some t
unfolding sorted lookup
lookup-sorted t [] h m = elim m [ ]
lookup-sorted t ((j, u) ∷ r) (own, fresh, h) m =
    from (λ n. lookup-sorted t r h n) (place-Member t u (sorted r) m)
  where
    from :
        (Member t (sorted r) → lookup t.key r ≡ some t)
        → (t ≡ u) ⊎ Member t (sorted r)
        → (if same_key j t.key then some u else lookup t.key r) ≡ some t
    from deeper (inl e) =
        let same : same_key j t.key ≡ true =
          (same_key_iff j t.key).1 (sym own ∙ ap (λ s. s.key) (sym e)) in
        rw same (ap (λ s. some s) (sym e))
    from deeper (inr n) = elim (Bool-cases (same_key j t.key)) [
      | inl same ↦
          let moved = ap (λ k. lookup k r) ((same_key_iff j t.key).0 same) in
          absurd (cc (sym fresh ∙ moved ∙ deeper n))
      | inr other ↦ rw other (deeper n)
    ]

sorted-lookup :
    (t : Subscription) (key : SubscriptionKey) (r : Registry)
    → lookup key r ≡ some t
    → Member t (sorted r)
unfolding sorted lookup
sorted-lookup t key [] e = absurd (cc e)
sorted-lookup t key ((j, u) ∷ r) e = elim (Bool-cases (same_key j key)) [
  | inl same ↦ Member-place t u (sorted r) (inl (sym (some-injective u t (rw same at e))))
  | inr other ↦ Member-place t u (sorted r) (inr (sorted-lookup t key r (rw other at e)))
]

-- No later subscription has the key of an earlier one.
abbrev pub Distinct : List Subscription → Type 0
Distinct [] = Unit {0}
Distinct (s ∷ rest) = All (λ (t : Subscription). s.key ≢ t.key) rest × Distinct rest

place-All :
    (P : Subscription → Type 0) (s : Subscription) (list : List Subscription)
    → P s
    → All P list
    → All P (place s list)
unfolding place
place-All P s [] h hs = (h, tt)
place-All P s (t ∷ rest) h (ht, hs) = elim (Bool-cases (before t s)) [
  | inl further ↦ rw further (ht, place-All P s rest h hs)
  | inr stop ↦ rw stop (h, (ht, hs))
]

place-Distinct :
    (s : Subscription) (list : List Subscription)
    → All (λ (t : Subscription). s.key ≢ t.key) list
    → Distinct list
    → Distinct (place s list)
unfolding place
place-Distinct s [] new h = (tt, tt)
place-Distinct s (t ∷ rest) (differ, new) (lead, h) = elim (Bool-cases (before t s)) [
  | inl further ↦ rw further (
    place-All (λ (u : Subscription). t.key ≢ u.key) s rest (λ e. differ (sym e)) lead,
    place-Distinct s rest new h,
  )
  | inr stop ↦ rw stop ((differ, new), (lead, h))
]

pub fresh-All :
    (key : SubscriptionKey) (r : Registry)
    → IsRegistry r
    → lookup key r ≡ none
    → All (λ (t : Subscription). key ≢ t.key) (sorted r)
fresh-All key r h fresh =
    Member-All (λ (t : Subscription). key ≢ t.key) (sorted r)
      (λ t m e.
        let found = lookup-sorted t r h m in cc (sym fresh ∙ ap (λ k. lookup k r) e ∙ found))

sorted-Distinct : (r : Registry) → IsRegistry r → Distinct (sorted r)
unfolding sorted
sorted-Distinct [] h = tt
sorted-Distinct ((j, s) ∷ r) (own, fresh, h) =
    place-Distinct s (sorted r) (rw own (fresh-All j r h fresh)) (sorted-Distinct r h)

-- Without an end, or with one that is still to come.
abbrev pub Lasts : ℕ → Subscription → Type 0
Lasts now s = (s.expires_at ≡ 0) ⊎ (now < s.expires_at)

alive_iff :
    (now : ℕ) (o : Option Subscription) (s : Subscription)
    → (alive now o ≡ some s) ↔ ((o ≡ some s) × Lasts now s)
alive_iff now none s = (λ e. absurd (cc e), λ h. absurd (cc h.0))
alive_iff now (some t) s = elim (Bool-cases (is_expired now t)) [
  | inl old ↦ rw old (
    (λ e. absurd (cc e)),
    (λ h.
        let same = some-injective t s h.0 in
        absurd (over t old (subst (λ u. Lasts now u) (sym same) h.1))),
  )
  | inr young ↦
      rw young
        ((λ e. (e, subst (λ u. Lasts now u) (some-injective t s e) (still t young))), (λ h. h.0))
]
  where
    over : (u : Subscription) → is_expired now u ≡ true → ¬ Lasts now u
    over u old (inl e) = ground arith
    over u old (inr e) = ground arith

    still : (u : Subscription) → is_expired now u ≡ false → Lasts now u
    still u young = ground arith

-- In a registry that has each key once and under it a subscription of that key: a subscription is listed
-- as active exactly where its key finds it and it has no end or one after the present time, the registry
-- keeps exactly these subscriptions, and no two that are listed have the same key.
pub active-Member :
    (now : ℕ) (s : Subscription) (r : Registry)
    → IsRegistry r
    → (Member s (active now r).1 ↔ ((lookup s.key r ≡ some s) × Lasts now s))
      × ((lookup s.key (active now r).0 ≡ some s) ↔ ((lookup s.key r ≡ some s) × Lasts now s))
      × Distinct (active now r).1
unfolding active
active-Member now s r h =
    let kept = remove_expired-IsRegistry now r h in
    let found = lookup-remove_expired now s.key r h in
    let lasts = alive_iff now (lookup s.key r) s in
    (
      (
        (λ m. lasts.0 (sym found ∙ lookup-sorted s _ kept m)),
        (λ e. sorted-lookup s s.key _ (found ∙ lasts.1 e)),
      ),
      ((λ e. lasts.0 (sym found ∙ e)), (λ e. found ∙ lasts.1 e)),
      sorted-Distinct (remove_expired now r) kept,
    )
