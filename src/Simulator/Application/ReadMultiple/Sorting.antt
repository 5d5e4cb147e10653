-- ===== src/Simulator/Application/ReadMultiple/Sorting.antt =====
-- The sorted identifiers of expandPropertyReferences of simulator/application.go.
use gobac.Prelude.{ℕ, ◌≤◌, List, [], ◌∷◌, ◌≡◌, arith, All}
use gobac.Prelude.{Member, at_head, in_tail}
use gobac.Prelude.{Bool-cases, ◌⊎◌, inl, inr, leb}
use gobac.Prelude.Maps.{number_key}
use gobac.Simulator.Application.ReadMultiple.{place, sort_ints}

place-All : (P : ℕ → Type 0) (n : ℕ) (ns : List ℕ) → P n → All P ns → All P (place n ns)
unfolding place
place-All P n [] h hs = (h, tt)
place-All P n (m ∷ ms) h (hm, hs) = elim (Bool-cases (leb n m)) [
  | inl e ↦ rw e (h, (hm, hs))
  | inr e ↦ rw e (hm, place-All P n ms h hs)
]

pub sort_ints-All : (P : ℕ → Type 0) (ns : List ℕ) → All P ns → All P (sort_ints ns)
unfolding sort_ints
sort_ints-All P [] h = tt
sort_ints-All P (n ∷ ns) (h, hs) = place-All P n (sort_ints ns) h (sort_ints-All P ns hs)

-- Sorting keeps every number.
Member-place : (k n : ℕ) (ns : List ℕ) → (k ≡ n) ⊎ Member k ns → Member k (place n ns)
unfolding place
Member-place k n [] (inl e) = at_head e
Member-place k n [] (inr i) = in_tail i
Member-place k n (m ∷ ms) h = elim (Bool-cases (leb n m)) [
  | inl stop ↦ rw stop (ahead h)
  | inr further ↦ rw further (behind (λ i. Member-place k n ms i) h)
]
  where
    ahead : (k ≡ n) ⊎ Member k (m ∷ ms) → Member k (n ∷ m ∷ ms)
    ahead (inl e) = at_head e
    ahead (inr i) = in_tail i

    behind :
        ((k ≡ n) ⊎ Member k ms → Member k (place n ms))
        → (k ≡ n) ⊎ Member k (m ∷ ms)
        → Member k (m ∷ place n ms)
    behind deeper (inl e) = in_tail (deeper (inl e))
    behind deeper (inr (at_head e)) = at_head e
    behind deeper (inr (in_tail i)) = in_tail (deeper (inr i))

pub Member-sort_ints : (k : ℕ) (ns : List ℕ) → Member k ns → Member k (sort_ints ns)
unfolding sort_ints
Member-sort_ints k [] i = i
Member-sort_ints k (n ∷ ns) (at_head e) = Member-place k n (sort_ints ns) (inl e)
Member-sort_ints k (n ∷ ns) (in_tail i) =
    Member-place k n (sort_ints ns) (inr (Member-sort_ints k ns i))

-- The identifiers ascend.
abbrev LeadsOff : ℕ → List ℕ → Type 0
LeadsOff n [] = Unit {0}
LeadsOff n (m ∷ ms) = n ≤ m

abbrev pub IsAscending : List ℕ → Type 0
IsAscending [] = Unit {0}
IsAscending (n ∷ ns) = LeadsOff n ns × IsAscending ns

place-LeadsOff : (n m : ℕ) (ms : List ℕ) → m ≤ n → LeadsOff m ms → LeadsOff m (place n ms)
unfolding place
place-LeadsOff n m [] h lead = h
place-LeadsOff n m (k ∷ ks) h lead = elim (Bool-cases (leb n k)) [
  | inl stop ↦ rw stop h
  | inr further ↦ rw further lead
]

place-IsAscending : (n : ℕ) (ms : List ℕ) → IsAscending ms → IsAscending (place n ms)
unfolding place
place-IsAscending n [] h = (tt, tt)
place-IsAscending n (m ∷ ms) (lead, h) = elim (Bool-cases (leb n m)) [
  | inl stop ↦ rw stop (ground arith, (lead, h))
  | inr further ↦ rw further (place-LeadsOff n m ms (ground arith) lead, place-IsAscending n ms h)
]

pub sort_ints-IsAscending : (ns : List ℕ) → IsAscending (sort_ints ns)
unfolding sort_ints
sort_ints-IsAscending [] = tt
sort_ints-IsAscending (n ∷ ns) = place-IsAscending n (sort_ints ns) (sort_ints-IsAscending ns)
