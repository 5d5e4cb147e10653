-- ===== src/Simulator/Subscriptions/Unique.antt =====
-- What `Active` of simulator/subscriptions.go lists, apart from the algorithm that sorts.
use gobac.Prelude.{ℕ, ◌≡◌, refl, sym, ap₂, subst, arith, List, [], ◌∷◌, All, ◌↔◌, inl, inr}
use gobac.Prelude.{some, Member, at_head, in_tail, All-Member}
use gobac.Prelude.Maps.{lookup}
use gobac.Types.Bytes.{Bytes}
use gobac.Simulator.Subscriptions.{
  SubscriptionKey, Subscription, Registry, subscription_key, active,
}
use gobac.Simulator.Subscriptions.Expiry.{IsRegistry}
use gobac.Simulator.Subscriptions.Listed.{Lasts, active-Member}
use gobac.Simulator.Subscriptions.Order.{
  TextLess, KeyLess, LeadsOff, IsAscending, active-IsAscending,
}

TextLess-irrefl : (a : Bytes) → ¬ TextLess a a
TextLess-irrefl [] h = h
TextLess-irrefl (a ∷ as') (inl h) = omega arith
TextLess-irrefl (a ∷ as') (inr (e, h)) = TextLess-irrefl as' h

TextLess-trans : (a b c : Bytes) → TextLess a b → TextLess b c → TextLess a c
TextLess-trans [] [] c h k = absurd h
TextLess-trans (a ∷ as') [] c h k = absurd h
TextLess-trans [] (b ∷ bs) [] h k = k
TextLess-trans [] (b ∷ bs) (c ∷ cs) h k = tt
TextLess-trans (a ∷ as') (b ∷ bs) [] h k = k
TextLess-trans (a ∷ as') (b ∷ bs) (c ∷ cs) h k = ground (arith, TextLess-trans as' bs cs)

KeyLess-irrefl : (a : SubscriptionKey) → ¬ KeyLess a a
KeyLess-irrefl a h = ground (arith, TextLess-irrefl a.subscriber)

KeyLess-trans : (a b c : SubscriptionKey) → KeyLess a b → KeyLess b c → KeyLess a c
KeyLess-trans a b c h k = ground (arith, TextLess-trans a.subscriber b.subscriber c.subscriber)

-- The first of an ascending list comes before all others.
Before : Subscription → Subscription → Type 0
Before s t = KeyLess s.key t.key

LeadsOff-trans :
    (s t : Subscription) (rest : List Subscription)
    → KeyLess s.key t.key
    → LeadsOff t rest
    → LeadsOff s rest
LeadsOff-trans s t [] h lead = tt
LeadsOff-trans s t (u ∷ rest) h lead = KeyLess-trans s.key t.key u.key h lead

ascending-All :
    (s : Subscription) (list : List Subscription)
    → LeadsOff s list
    → IsAscending list
    → All (Before s) list
unfolding Before
ascending-All s [] lead h = tt
ascending-All s (t ∷ rest) lead (next, h) =
    (lead, ascending-All s rest (LeadsOff-trans s t rest lead next) h)

not-Member-head :
    (s : Subscription) (list : List Subscription) → All (Before s) list → ¬ Member s list
unfolding Before
not-Member-head s list h m = KeyLess-irrefl s.key (All-Member (Before s) s list h m)

-- Two ascending lists with the same members have the same first one and the same tail.
heads_same :
    (s t : Subscription) (l m : List Subscription)
    → All (Before s) l
    → All (Before t) m
    → Member s (t ∷ m)
    → Member t (s ∷ l)
    → s ≡ t
unfolding Before
heads_same s t l m hl hm (at_head e) k = e
heads_same s t l m hl hm (in_tail i) (at_head e) = sym e
heads_same s t l m hl hm (in_tail i) (in_tail j) = absurd (
    KeyLess-irrefl s.key (
      KeyLess-trans s.key t.key s.key (All-Member (Before s) t l hl j)
        (All-Member (Before t) s m hm i)))

tail-Member :
    (s u : Subscription) (l m : List Subscription)
    → All (Before s) l
    → Member u l
    → Member u (s ∷ m)
    → Member u m
tail-Member s u l m h i (in_tail j) = j
tail-Member s u l m h i (at_head e) = absurd (not-Member-head s l h (subst (λ v. Member v l) e i))

abbrev SameMembers : List Subscription → List Subscription → Type 0
SameMembers l m = (s : Subscription) → Member s l ↔ Member s m

ascending_same : (l m : List Subscription) → IsAscending l → IsAscending m → SameMembers l m → l ≡ m
ascending_same [] [] hl hm same = refl
ascending_same [] (t ∷ m) hl hm same = elim ((same t).1 (at_head refl)) [ ]
ascending_same (s ∷ l) [] hl hm same = elim ((same s).0 (at_head refl)) [ ]
ascending_same (s ∷ l) (t ∷ m) (lead, hl) (lead', hm) same =
    let all_l = ascending-All s l lead hl in
    let all_m = ascending-All t m lead' hm in
    let e =
      heads_same s t l m all_l all_m ((same s).0 (at_head refl)) ((same t).1 (at_head refl)) in
    let tails : SameMembers l m = λ u. (
      (λ i.
          tail-Member s u l m all_l i
            (subst (λ v. Member u (v ∷ m)) (sym e) ((same u).0 (in_tail i)))),
      (λ i. tail-Member t u m l all_m i (subst (λ v. Member u (v ∷ l)) e ((same u).1 (in_tail i)))),
    ) in
    ap₂ (λ v r. v ∷ r) e (ascending_same l m hl hm tails)

-- Exactly the subscriptions of the registry without an end, or with one after the present time.
abbrev pub Lists : ℕ → Registry → List Subscription → Type 0
Lists now r list = (s : Subscription) → Member s list ↔ ((lookup s.key r ≡ some s) × Lasts now s)

-- In a registry that has each key once and under it a subscription of that key, the list of the
-- active subscriptions is the one list that has exactly the subscriptions which have no end or one
-- after the present time, in strictly ascending order: by the octets of the subscriber, for one
-- subscriber by process identifier, then by object type, then by instance.
pub active_unique :
    (now : ℕ) (r : Registry) (list : List Subscription)
    → IsRegistry r
    → (IsAscending list × Lists now r list) ↔ (list ≡ (active now r).1)
active_unique now r list h =
    let lists : Lists now r (active now r).1 = λ s. (active-Member now s r h).0 in
    (
      (λ both.
          ascending_same list (active now r).1 both.0 (active-IsAscending now r h)
            (λ s. ((λ m. (lists s).1 ((both.1 s).0 m)), (λ m. (both.1 s).1 ((lists s).0 m))))),
      (λ e. subst (λ l. IsAscending l × Lists now r l) (sym e) (active-IsAscending now r h, lists)),
    )
