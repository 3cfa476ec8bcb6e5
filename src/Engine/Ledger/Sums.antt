-- ===== src/Engine/Ledger/Sums.antt =====
-- Sums over the slots, the outbox and the accepted events.
use llm_worker.Base.{
  ℕ, zero, suc, ◌+◌, ◌≡◌, ◌≢◌, ap, sym, subst, List, [], ◌∷◌, ◌++◌, Option, none, some, get_elem?,
  set, arith,
}
use native.Mathlib.Decide.{ℕ_discrete}
use llm_worker.Engine.Types.{Event}
use llm_worker.Engine.Host.{Host, ChannelLaws, sent}
use llm_worker.Engine.Slot.{Slot}
use llm_worker.Engine.Pool.Occupied.{entry}
use llm_worker.Engine.Ledger.{terminal, tally, on, owed, due, holding}

pub tally-append : (xs ys : List Event) → tally (xs ++ ys) ≡ tally xs + tally ys
tally-append [] ys = omega arith
tally-append (x ∷ xs) ys = omega (arith, tally-append xs ys)

pub owed-append : (c : ℕ) (xs ys : List (ℕ × Event)) → owed c (xs ++ ys) ≡ owed c xs + owed c ys
owed-append c [] ys = omega arith
owed-append c ((d, e) ∷ xs) ys = omega (arith, owed-append c xs ys)

on_self : (c n : ℕ) → on c c n ≡ n
on_self c n = ground arith

on_other : (c d n : ℕ) → d ≢ c → on c d n ≡ 0
on_other c d n away = ground arith

module _ ⦃h : Host⦄ (c : ℕ) where
  pub holding-set-none :
      (slots : List (Option Slot)) (i : ℕ) (old : Slot)
      → entry slots i ≡ some old
      → holding c (set slots i none) + due c old ≡ holding c slots
  holding-set-none [] i old e = ground arith
  holding-set-none (none ∷ rest) zero old e = ground arith
  holding-set-none (some s ∷ rest) zero old e = ground arith
  holding-set-none (none ∷ rest) (suc i) old e = holding-set-none rest i old e
  holding-set-none (some s ∷ rest) (suc i) old e = omega (arith, holding-set-none rest i old e)

  pub holding-set-some :
      (slots : List (Option Slot)) (i : ℕ) (old x : Slot)
      → entry slots i ≡ some old
      → holding c (set slots i (some x)) + due c old ≡ holding c slots + due c x
  holding-set-some [] i old x e = ground arith
  holding-set-some (none ∷ rest) zero old x e = ground arith
  holding-set-some (some s ∷ rest) zero old x e = ground arith
  holding-set-some (none ∷ rest) (suc i) old x e = holding-set-some rest i old x e
  holding-set-some (some s ∷ rest) (suc i) old x e = omega (arith, holding-set-some rest i old x e)

  pub holding-fill :
      (slots : List (Option Slot)) (i : ℕ) (x : Slot)
      → get_elem? slots i ≡ some none
      → holding c (set slots i (some x)) ≡ holding c slots + due c x
  holding-fill [] i x e = ground arith
  holding-fill (none ∷ rest) zero x e = omega arith
  holding-fill (some s ∷ rest) zero x e = ground arith
  holding-fill (none ∷ rest) (suc i) x e = holding-fill rest i x e
  holding-fill (some s ∷ rest) (suc i) x e = omega (arith, holding-fill rest i x e)

  -- What an attempt to send does to the accepted events of channel `c`.
  module _ (laws : ChannelLaws h) where
    pub tally-sent :
        (w : h.World) (d : ℕ) (e : Event)
        → (h.try_send w d e).0 ≡ sent
        → tally (laws.received (h.try_send w d e).1 c)
          ≡ tally (laws.received w c) + on c d (terminal e)
    tally-sent w d e p = elim (ℕ_discrete d c) [
      | yes at ↦
          subst
            (λ k.
              tally (laws.received (h.try_send w d e).1 k)
              ≡ tally (laws.received w k) + on k d (terminal e))
            at
            (omega (
              arith,
              ap tally (laws.received_sent w d e p),
              tally-append (laws.received w d) (e ∷ []),
              on_self d (terminal e),
            ))
      | no away ↦ omega (
        arith,
        ap tally (laws.received_other w d c e (λ q. away (sym q))),
        on_other c d (terminal e) away,
      )
    ]

    pub tally-refused :
        (w : h.World) (d : ℕ) (e : Event)
        → (h.try_send w d e).0 ≢ sent
        → tally (laws.received (h.try_send w d e).1 c) ≡ tally (laws.received w c)
    tally-refused w d e p = elim (ℕ_discrete d c) [
      | yes at ↦
          subst (λ k. tally (laws.received (h.try_send w d e).1 k) ≡ tally (laws.received w k)) at
            (ap tally (laws.received_refused w d e p))
      | no away ↦ ap tally (laws.received_other w d c e (λ q. away (sym q)))
    ]
