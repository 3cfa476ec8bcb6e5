-- ===== src/Engine/Pool/Occupied.antt =====
-- Counting the occupied slots.
use llm_worker.Base.{
  ℕ, zero, suc, ◌+◌, ◌≤◌, ◌<◌, ◌≡◌, refl, List, [], ◌∷◌, Option, none, some, get_elem?, set, length,
  Option-cases, ◌⊎◌, inr, arith,
}
use llm_worker.Engine.Host.{Host}
use llm_worker.Engine.Slot.{Slot}
use llm_worker.Engine.Pool.{State, occupied, slot_at}

module _ ⦃h : Host⦄ where
  -- What stands at an index, with an index out of range read as a free slot.
  abbrev pub entry : List (Option Slot) → ℕ → Option Slot
  entry slots i = elim (get_elem? slots i) [ none ↦ none | some e ↦ e ]

  pub occupied-set-none :
      (slots : List (Option Slot)) (i : ℕ) (slot : Slot)
      → entry slots i ≡ some slot
      → occupied (set slots i none) + 1 ≡ occupied slots
  occupied-set-none [] i slot e = ground arith
  occupied-set-none (none ∷ rest) zero slot e = ground arith
  occupied-set-none (some s ∷ rest) zero slot e = refl
  occupied-set-none (none ∷ rest) (suc i) slot e = occupied-set-none rest i slot e
  occupied-set-none (some s ∷ rest) (suc i) slot e = omega (arith, occupied-set-none rest i slot e)

  pub occupied-set-some :
      (slots : List (Option Slot)) (i : ℕ) (slot slot' : Slot)
      → entry slots i ≡ some slot
      → occupied (set slots i (some slot')) ≡ occupied slots
  occupied-set-some [] i slot slot' e = ground arith
  occupied-set-some (none ∷ rest) zero slot slot' e = ground arith
  occupied-set-some (some s ∷ rest) zero slot slot' e = refl
  occupied-set-some (none ∷ rest) (suc i) slot slot' e = occupied-set-some rest i slot slot' e
  occupied-set-some (some s ∷ rest) (suc i) slot slot' e =
      omega (arith, occupied-set-some rest i slot slot' e)

  pub occupied-fill :
      (slots : List (Option Slot)) (i : ℕ) (slot : Slot)
      → get_elem? slots i ≡ some none
      → occupied (set slots i (some slot)) ≡ occupied slots + 1
  occupied-fill [] i slot e = ground arith
  occupied-fill (none ∷ rest) zero slot e = refl
  occupied-fill (some s ∷ rest) zero slot e = ground arith
  occupied-fill (none ∷ rest) (suc i) slot e = occupied-fill rest i slot e
  occupied-fill (some s ∷ rest) (suc i) slot e = omega (arith, occupied-fill rest i slot e)

  pub occupied-le-length : (slots : List (Option Slot)) → occupied slots ≤ length slots
  occupied-le-length [] = omega arith
  occupied-le-length (none ∷ rest) = omega (arith, occupied-le-length rest)
  occupied-le-length (some s ∷ rest) = omega (arith, occupied-le-length rest)

  pub slot_at-cases :
      (st : State) (i : ℕ) → (slot_at st i ≡ none) ⊎ ((slot : Slot) × (slot_at st i ≡ some slot))
  slot_at-cases st i = Option-cases (slot_at st i)

  -- What stands at `i` after a write at `j`.
  pub entry-set-some :
      (slots : List (Option Slot)) (j i : ℕ) (x s : Slot)
      → entry (set slots j (some x)) i ≡ some s
      → ((i ≡ j) × (s ≡ x)) ⊎ (entry slots i ≡ some s)
  entry-set-some [] j i x s e = ground arith
  entry-set-some (y ∷ ys) zero zero x s e = ground arith
  entry-set-some (y ∷ ys) zero (suc i) x s e = inr e
  entry-set-some (y ∷ ys) (suc j) zero x s e = inr e
  entry-set-some (y ∷ ys) (suc j) (suc i) x s e = ground (arith, entry-set-some ys j i x s e)

  pub entry-set-none :
      (slots : List (Option Slot)) (j i : ℕ) (s : Slot)
      → entry (set slots j none) i ≡ some s
      → entry slots i ≡ some s
  entry-set-none [] j i s e = ground arith
  entry-set-none (y ∷ ys) zero zero s e = ground arith
  entry-set-none (y ∷ ys) zero (suc i) s e = e
  entry-set-none (y ∷ ys) (suc j) zero s e = e
  entry-set-none (y ∷ ys) (suc j) (suc i) s e = entry-set-none ys j i s e

  pub entry-set_self :
      (slots : List (Option Slot)) (i : ℕ) (old x : Slot)
      → entry slots i ≡ some old
      → entry (set slots i (some x)) i ≡ some x
  entry-set_self [] i old x e = ground arith
  entry-set_self (y ∷ ys) zero old x e = refl
  entry-set_self (y ∷ ys) (suc i) old x e = entry-set_self ys i old x e

  pub entry-set_twice :
      (slots : List (Option Slot)) (i j : ℕ) (x s : Slot)
      → entry (set (set slots i (some x)) i none) j ≡ some s
      → entry slots j ≡ some s
  entry-set_twice [] i j x s e = ground arith
  entry-set_twice (y ∷ ys) zero zero x s e = ground arith
  entry-set_twice (y ∷ ys) zero (suc j) x s e = e
  entry-set_twice (y ∷ ys) (suc i) zero x s e = e
  entry-set_twice (y ∷ ys) (suc i) (suc j) x s e = entry-set_twice ys i j x s e

  pub entry-in_range :
      (slots : List (Option Slot)) (i : ℕ) (slot : Slot)
      → entry slots i ≡ some slot
      → i < length slots
  entry-in_range [] i slot e = ground arith
  entry-in_range (s ∷ rest) zero slot e = omega arith
  entry-in_range (s ∷ rest) (suc i) slot e = omega (arith, entry-in_range rest i slot e)
