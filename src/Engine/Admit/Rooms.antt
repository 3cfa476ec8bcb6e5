-- ===== src/Engine/Admit/Rooms.antt =====
-- What `gate` finds: a free slot, and the state of the engine at that moment.
use llm_worker.Base.{
  ◌⊎◌, inl, inr, ap, subst, sym, ◌∙◌, ℕ, suc, ◌+◌, ◌≡◌, refl, Bool, true, false, not, ◌&&◌,
  is_positive, Option, none, some, get_elem?, List, [], ◌∷◌, if◌then◌else◌, arith,
}
use native.Mathlib.Nat.{add-zero}
use llm_worker.Engine.Host.{Host}
use llm_worker.Engine.Slot.{Slot}
use llm_worker.Engine.Pool.{State}
use llm_worker.Engine.Prefill.{Runtime}
use llm_worker.Engine.Admit.{
  no_slot, Gate, throttled, room, gate, gate_at, position_none, is_idle, over_target,
}

pub Gate-cases :
    (g : Gate)
    → ((g ≡ no_slot) ⊎ (g ≡ throttled))
      ⊎ ((i : ℕ) × (idle : Bool) × (pace : Bool) × (g ≡ room i idle pace))
Gate-cases no_slot = inl (inl refl)
Gate-cases throttled = inl (inr refl)
Gate-cases (room i idle pace) = inr (i, idle, pace, refl)

module _ ⦃h : Host⦄ where
  position_none-free :
      (slots : List (Option Slot)) (k i : ℕ)
      → position_none slots k ≡ some i
      → (d : ℕ) × (i ≡ d + k) × (get_elem? slots d ≡ some none)
  unfolding position_none
  position_none-free [] k i e = ground arith
  position_none-free (none ∷ rest) k i e = (0, ground arith, refl)
  position_none-free (some s ∷ rest) k i e =
      let (d, at, free) = position_none-free rest (k + 1) i e in (suc d, ground arith, free)

  choose-room :
      (over : Bool) (j : ℕ) (idle' pace' : Bool) {i : ℕ} {idle pace : Bool}
      → (if over then throttled else room j idle' pace') ≡ room i idle pace
      → (j ≡ i) × (idle ≡ idle') × (pace ≡ pace') × (over ≡ false)
  choose-room true j idle' pace' e = ground arith
  choose-room false j idle' pace' e = ground arith

  gate_at-room :
      (rt : Runtime) (st : State) (o : Option ℕ) {i : ℕ} {idle pace : Bool}
      → gate_at rt st o ≡ room i idle pace
      → (o ≡ some i)
        × (idle ≡ is_idle st)
        × (pace ≡ (is_positive rt.target_step_us && not (is_idle st)))
        × (over_target rt st ≡ false)
  unfolding gate_at
  gate_at-room rt st none e = ground arith
  gate_at-room rt st (some j) e =
      let (same, at_idle, at_pace, under) = choose-room (over_target rt st) j _ _ e in
      (ap some same, at_idle, at_pace, under)

  -- What `gate` says of the engine when it lets a request in: the slot is the first free one.
  pub gate-room :
      (rt : Runtime) (st : State) {i : ℕ} {idle pace : Bool}
      → gate rt st ≡ room i idle pace
      → (position_none st.slots 0 ≡ some i)
        × (idle ≡ is_idle st)
        × (pace ≡ (is_positive rt.target_step_us && not (is_idle st)))
        × (over_target rt st ≡ false)
  unfolding gate
  gate-room rt st e = gate_at-room rt st _ e

  pub gate-free :
      (rt : Runtime) (st : State) {i : ℕ} {idle pace : Bool}
      → gate rt st ≡ room i idle pace
      → get_elem? st.slots i ≡ some none
  gate-free rt st e =
      let (d, at, free) = position_none-free st.slots 0 _ (gate-room rt st e).0 in
      subst (λ k. get_elem? st.slots k ≡ some none) (sym (at ∙ add-zero d)) free
