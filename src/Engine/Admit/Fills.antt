-- ===== src/Engine/Admit/Fills.antt =====
-- llm-engine/src/lib.rs: `admit` without a target, which is to leave no slot free while a request waits.
use llm_worker.Base.{
  ℕ, ◌+◌, ◌≡◌, ◌∙◌, refl, Bool, Bool-cases, true, false, is_positive, ◌⊎◌, inl, inr, List, [], ◌∷◌,
  length, Option, none, some, arith,
}
use llm_worker.Engine.Types.{Job}
use llm_worker.Engine.Host.{Host}
use llm_worker.Engine.Slot.{Slot}
use llm_worker.Engine.Pool.{State, active, occupied}
use llm_worker.Engine.Prefill.{Runtime}
use llm_worker.Engine.Admit.{
  no_slot, throttled, gate, gate_at, position_none, admit, take_job, is_idle, over_target,
}
use llm_worker.Engine.Admit.Rooms.{Gate-cases, gate-room}

module _ ⦃h : Host⦄ where
  position_none-full :
      (slots : List (Option Slot)) (k : ℕ)
      → position_none slots k ≡ none
      → occupied slots ≡ length slots
  unfolding position_none
  position_none-full [] k e = refl
  position_none-full (none ∷ rest) k e = ground arith
  position_none-full (some slot ∷ rest) k e = omega (arith, position_none-full rest (k + 1) e)

  gate_at-full : (rt : Runtime) (st : State) (o : Option ℕ) → gate_at rt st o ≡ no_slot → o ≡ none
  unfolding gate_at
  gate_at-full rt st none e = refl
  gate_at-full rt st (some i) e = elim (Bool-cases (over_target rt st)) [
    | inl over ↦ ground (arith, over, e)
    | inr under ↦ ground (arith, under, e)
  ]

  gate-full : (rt : Runtime) (st : State) → gate rt st ≡ no_slot → active st ≡ length st.slots
  unfolding gate
  gate-full rt st e = position_none-full st.slots 0 (gate_at-full rt st _ e)

  gate_at-over :
      (rt : Runtime) (st : State) (o : Option ℕ)
      → gate_at rt st o ≡ throttled
      → over_target rt st ≡ true
  unfolding gate_at
  gate_at-over rt st none e = ground arith
  gate_at-over rt st (some i) e = elim (Bool-cases (over_target rt st)) [
    | inl over ↦ over
    | inr under ↦ ground (arith, under, e)
  ]

  over_target_off :
      (rt : Runtime) (st : State)
      → is_positive rt.target_step_us ≡ false
      → over_target rt st ≡ false
  over_target_off rt st off = elim (Bool-cases (is_idle st)) [
    | inl idle ↦ rw idle refl
    | inr busy ↦ rw (busy, off) refl
  ]

  module _ (rt : Runtime) (off : is_positive rt.target_step_us ≡ false) where
    -- Without a target, `admit` ends when the queue has nothing more to give or when every slot is taken.
    pub admit-fills :
        (is_closed : Bool) (jobs : List Job) (st : State)
        → let (_, rest, st') = admit rt is_closed jobs st in
          (rest ≡ []) ⊎ (active st' ≡ length st'.slots)
    unfolding admit gate gate_at
    admit-fills is_closed [] st = inl refl
    admit-fills is_closed (job ∷ jobs) st = elim (Gate-cases (gate rt st)) [
      | inl (inl at) ↦ rw (at, admit) (inr (gate-full rt st at))
      | inl (inr at) ↦
          ground
            (arith, gate_at-over rt st (position_none st.slots 0) at, over_target_off rt st off)
      | inr (i, idle, pace, at) ↦
          let (_, _, at_pace, _) = gate-room rt st at in
          let free : pace ≡ false = at_pace ∙ rw off refl in
          rw (at, free, admit) (admit-fills is_closed jobs (take_job rt job i st).1)
    ]
