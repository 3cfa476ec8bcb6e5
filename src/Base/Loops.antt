-- ===== src/Base/Loops.antt =====
-- `for index in i..i + n` as a fold over a state, and its invariant rule.
use Prim.Native.Nat.{ℕ, zero, suc, ◌+◌}
use native.Mathlib.Nat.{add-zero, add-suc, suc-add}
use native.Mathlib.Numerals.{add-one}
use mathlib.Core.List.{List, [], ◌∷◌}

module _ {μ} {S : Type μ} where
  unfoldable pub for_range : ℕ → ℕ → (ℕ → S → S) → S → S
  for_range zero i body state = state
  for_range (suc left) i body state = for_range left (i + 1) body (body i state)

  -- `for x in xs`
  unfoldable pub for_each {κ} : {X : Type κ} → List X → (X → S → S) → S → S
  for_each [] body state = state
  for_each (x ∷ rest) body state = for_each rest body (body x state)

  -- The invariant may name the index that comes next.
  pub for_range_ind {κ} :
      (Inv : ℕ → S → Type κ) (body : ℕ → S → S)
      → ((j : ℕ) (t : S) → Inv j t → Inv (j + 1) (body j t))
      → (left i : ℕ) (state : S) → Inv i state
      → Inv (i + left) (for_range left i body state)
  unfolding for_range
  for_range_ind Inv body step zero i state now = rw add-zero now
  for_range_ind Inv body step (suc left) i state now =
      rw (add-suc i left, ← suc-add i left, ← add-one i)
        (for_range_ind Inv body step left (i + 1) (body i state) (step i state now))
