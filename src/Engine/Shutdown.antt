-- ===== src/Engine/Shutdown.antt =====
-- How much the loop has still to do: for each request, slot and owed event a bound on the moves that it
-- can cause.
pub mod Spends
pub mod Hands
pub mod Runs
pub mod Gathers
pub mod Steps
pub mod Flushes
pub mod Rounds
use llm_worker.Base.{
  ℕ, zero, suc, ◌+◌, ◌-◌, ◌*◌, ◌≡◌, ap, max, List, [], ◌∷◌, Option, none, some, set, get_elem?,
  length, arith,
}
use llm_worker.Engine.Types.{Event, Job}
use llm_worker.Engine.Host.{Host, sent}
use llm_worker.Engine.Slot.{Slot}
use llm_worker.Engine.Pool.{State}
use llm_worker.Engine.Pool.Occupied.{entry}
use llm_worker.Engine.Prefill.Fits.{asked}

module _ ⦃h : Host⦄ where
  -- Every caller reads in time: there is room for every event.
  abbrev pub AllRead : Type 0
  AllRead = (w : h.World) (c : ℕ) (e : Event) → (h.try_send w c e).0 ≡ sent

  abbrev pub held : Option Event → ℕ
  held none = 0
  held (some e) = 1

  -- The tokens that a slot may still get.
  abbrev pub remaining : Slot → ℕ
  remaining slot = max 2 slot.budget - slot.n_decoded

  abbrev pub weight : Slot → ℕ
  weight slot = 4 * remaining slot + held slot.pending

  abbrev pub load : List (Option Slot) → ℕ
  load [] = 0
  load (none ∷ rest) = load rest
  load (some slot ∷ rest) = weight slot + load rest

  abbrev pub cost : Job → ℕ
  cost job = 4 * max 2 (asked job)

  abbrev pub queue_cost : List Job → ℕ
  queue_cost [] = 0
  queue_cost (job ∷ jobs) = cost job + queue_cost jobs

  abbrev pub work : List Job → State → ℕ
  work jobs st = queue_cost jobs + load st.slots + length st.outbox

  pub load-set-none :
      (slots : List (Option Slot)) (i : ℕ) (old : Slot)
      → entry slots i ≡ some old
      → load (set slots i none) + weight old ≡ load slots
  load-set-none [] i old e = ground arith
  load-set-none (none ∷ rest) zero old e = ground arith
  load-set-none (some s ∷ rest) zero old e = swapped s old rest (cc e)
    where
      swapped :
          (s old : Slot) (rest : List (Option Slot))
          → s ≡ old
          → load rest + weight old ≡ weight s + load rest
      swapped s old rest same = omega (arith, ap weight same)
  load-set-none (none ∷ rest) (suc i) old e = load-set-none rest i old e
  load-set-none (some s ∷ rest) (suc i) old e = omega (arith, load-set-none rest i old e)

  pub load-set-some :
      (slots : List (Option Slot)) (i : ℕ) (old x : Slot)
      → entry slots i ≡ some old
      → load (set slots i (some x)) + weight old ≡ load slots + weight x
  load-set-some [] i old x e = ground arith
  load-set-some (none ∷ rest) zero old x e = ground arith
  load-set-some (some s ∷ rest) zero old x e = swapped s old x rest (cc e)
    where
      swapped :
          (s old x : Slot) (rest : List (Option Slot))
          → s ≡ old
          → (weight x + load rest) + weight old ≡ (weight s + load rest) + weight x
      swapped s old x rest same = omega (arith, ap weight same)
  load-set-some (none ∷ rest) (suc i) old x e = load-set-some rest i old x e
  load-set-some (some s ∷ rest) (suc i) old x e = omega (arith, load-set-some rest i old x e)

  pub load-fill :
      (slots : List (Option Slot)) (i : ℕ) (x : Slot)
      → get_elem? slots i ≡ some none
      → load (set slots i (some x)) ≡ load slots + weight x
  load-fill [] i x e = ground arith
  load-fill (none ∷ rest) zero x e = omega arith
  load-fill (some s ∷ rest) zero x e = ground arith
  load-fill (none ∷ rest) (suc i) x e = load-fill rest i x e
  load-fill (some s ∷ rest) (suc i) x e = omega (arith, load-fill rest i x e)
