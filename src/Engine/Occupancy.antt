-- ===== src/Engine/Occupancy.antt =====
-- The `inflight` meter through a round of the loop.
use llm_worker.Base.{
  ℕ, suc, ◌≡◌, refl, Bool, Bool-cases, none, some, List, length, get_elem?, inl, inr, arith,
}
use llm_worker.Engine.Types.{Job, cancelled, end_of_generation}
use llm_worker.Engine.Host.{Host}
use llm_worker.Engine.Slot.{Slot, Flush, ready, stalled, abandoned, flush}
use llm_worker.Engine.Pool.{State, slot_at, retire, fail}
use llm_worker.Engine.Pool.Occupied.{slot_at-cases, occupied-set-some, occupied-fill}
use llm_worker.Engine.Pool.Release.{
  Balanced, Counts, Counts-after, Counts-Balanced, retire-Counts, fail-Counts,
}
use llm_worker.Engine.Prefill.{Runtime, Prefilled, running, finished, broken}
use llm_worker.Engine.Admit.{take_job, settle}
use llm_worker.Engine.Admit.Rooms.{gate-free}
use llm_worker.Engine.Step.{emit, write_slot}
use llm_worker.Engine.Step.Cases.{emit_cases, extended, extend_cases, stop_of}
use llm_worker.Engine.Serve.{after_flush, flush_slot, flush_occupied, deliver, round}
use llm_worker.Engine.Moves.{
  Move, outside, retires, fails, emits, flushes, delivers, takes, Moves_keep,
}
use llm_worker.Engine.Moves.Rounds.{round-Moves}

module _ ⦃h : Host⦄ where
  written-Counts :
      (queued : ℕ) (st : State) (i : ℕ) (old slot : Slot) (s' : State)
      → slot_at st i ≡ some old
      → Counts queued (write_slot st i slot) queued s'
      → Counts queued st queued s'
  written-Counts queued st i old slot s' e counts =
      Counts-after queued queued st (write_slot st i slot) s'
        (occupied-set-some st.slots i old slot e) refl counts

  emit-Counts :
      (queued : ℕ) (st : State) (i : ℕ) (old slot : Slot) (t : h.Token)
      → slot_at st i ≡ some old
      → Counts queued st queued (emit st i slot t)
  emit-Counts queued st i old slot t e =
      let wrote = λ (s : Slot). write_slot st i s in
      emit_cases (Counts queued st queued) st i slot t
        (written-Counts queued st i old slot (retire (wrote slot) i end_of_generation) e
          (retire-Counts queued (wrote slot) i end_of_generation))
        (λ error.
          written-Counts queued st i old slot (fail (wrote slot) i error) e
            (fail-Counts queued (wrote slot) i error))
        λ d text.
          let s = extended slot t d text in
          extend_cases (Counts queued st queued) st i slot t d text
            (λ _.
              written-Counts queued st i old s (retire (wrote s) i (stop_of slot)) e
                (retire-Counts queued (wrote s) i (stop_of slot)))
            (λ _. written-Counts queued st i old s (wrote s) e (inl (refl, refl)))

  flushed-Counts :
      (queued : ℕ) (st : State) (i : ℕ) (f : Flush) → Counts queued st queued (after_flush i st f)
  unfolding after_flush
  flushed-Counts queued st i ready = inl (refl, refl)
  flushed-Counts queued st i stalled = inl (refl, refl)
  flushed-Counts queued st i abandoned = retire-Counts queued st i cancelled

  flush_slot-Counts : (queued : ℕ) (st : State) (i : ℕ) → Counts queued st queued (flush_slot i st)
  unfolding flush_slot flush_occupied
  flush_slot-Counts queued st i = elim (slot_at-cases st i) [
    | inl e ↦ rw e (inl (refl, refl))
    | inr (slot, e) ↦
        let (outcome, slot', w) = flush slot st.world in
        let wrote : State = record (write_slot st i slot') { world = w } in
        rw e (
          Counts-after queued queued st wrote (after_flush i wrote outcome)
            (occupied-set-some st.slots i slot slot' e) refl
            (flushed-Counts queued wrote i outcome))
  ]

  settle-Counts :
      (queued : ℕ) (st : State) (job : Job) (i : ℕ) (result : Prefilled)
      → get_elem? st.slots i ≡ some none
      → Counts (suc queued) st queued (settle st job i result).1
  unfolding settle
  settle-Counts queued st job i (running slot) free =
      inl (omega (arith, occupied-fill st.slots i slot free), refl)
  settle-Counts queued st job i (finished stop prompt_tokens ms) free = inr (omega arith, refl)
  settle-Counts queued st job i (broken error) free = inr (omega arith, refl)

  take_job-Counts :
      (rt : Runtime) (queued : ℕ) (st : State) (job : Job) (i : ℕ)
      → get_elem? st.slots i ≡ some none
      → Counts (suc queued) st queued (take_job rt job i st).1
  unfolding take_job
  take_job-Counts rt queued st job i free = elim (Bool-cases (h.load_flag st.world job.cancel).0) [
    | inl gone ↦ rw (gone, take_job) (inr (omega arith, refl))
    | inr stays ↦ rw (stays, take_job) (settle-Counts queued _ job i _ free)
  ]

  pub Move-Counts :
      (rt : Runtime) (q q' : List Job) (s s' : State)
      → Move rt q s q' s'
      → Counts (length q) s (length q') s'
  unfolding deliver
  Move-Counts rt q q' s s' (outside b f w d _) = inl (refl, refl)
  Move-Counts rt q q' s s' (retires i stop) = retire-Counts (length q) s i stop
  Move-Counts rt q q' s s' (fails i error slot e _) = fail-Counts (length q) s i error
  Move-Counts rt q q' s s' (emits i slot f t e _) = emit-Counts (length q) s i slot _ t e
  Move-Counts rt q q' s s' (flushes i) = flush_slot-Counts (length q) s i
  Move-Counts rt q q' s s' delivers = inl (refl, refl)
  Move-Counts rt q q' s s' (takes job i idle pace e) =
      take_job-Counts rt (length q') s job i (gate-free rt s e)

  -- If the meter equals the requests that wait in the queue and those that have a slot, and the sum is
  -- within its word, then this is so after a round of the loop too, whatever the callers and the
  -- device do meanwhile.
  pub round-Balanced :
      (rt : Runtime) (was_closed no_senders : Bool) (jobs : List Job) (st : State)
      → Balanced (length jobs) st
      → let (_, _, rest, st') = round rt was_closed no_senders jobs st in Balanced (length rest) st'
  round-Balanced rt was_closed no_senders jobs st b =
      Moves_keep rt (λ q s. Balanced (length q) s)
        (λ q q' s s' move. Counts-Balanced (Move-Counts rt q q' s s' move))
        (round-Moves rt was_closed no_senders jobs st) b
