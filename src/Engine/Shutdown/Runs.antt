-- ===== src/Engine/Shutdown/Runs.antt =====
-- A run of moves: its work, its slots.
use llm_worker.Base.{
  ℕ, ◌^◌, ◌≤◌, ◌<◌, ◌≡◌, refl, ◌∙◌, Bool-cases, inl, inr, Text, List, none, some, length,
  length-set, arith,
}
use llm_worker.Engine.Types.{Job, Stop, cancelled, end_of_generation}
use llm_worker.Engine.Host.{Host}
use llm_worker.Engine.Slot.{Slot, Flush, ready, stalled, abandoned}
use llm_worker.Engine.Pool.{State, retire, fail}
use llm_worker.Engine.Pool.Occupied.{slot_at-cases}
use llm_worker.Engine.Pool.Release.{retire-none, retire-some, fail-none, fail-some}
use llm_worker.Engine.Prefill.{Runtime, Prefilled, running, finished, broken}
use llm_worker.Engine.Admit.{take_job, settle}
use llm_worker.Engine.Step.{emit}
use llm_worker.Engine.Step.Cases.{emit_cases, extend_cases, stop_of}
use llm_worker.Engine.Serve.{after_flush, flush_slot, flush_occupied, deliver}
use llm_worker.Engine.Window.{AllFit, Move-AllFit}
use llm_worker.Engine.Moves.{
  Move, Moves, Moves_keep, outside, retires, fails, emits, flushes, delivers, takes,
}
use llm_worker.Engine.Shutdown.{AllRead, work}
use llm_worker.Engine.Shutdown.Hands.{Move-work}

module _ ⦃h : Host⦄ (rt : Runtime) where
  pub length-retire :
      (st : State) (i : ℕ) (stop : Stop) → length (retire st i stop).slots ≡ length st.slots
  length-retire st i stop = elim (slot_at-cases st i) [
    | inl e ↦ rw (retire-none st i stop e)
    | inr (slot, at) ↦ rw (retire-some st i stop slot at) (length-set st.slots i none)
  ]

  pub length-fail :
      (st : State) (i : ℕ) (error : Text) → length (fail st i error).slots ≡ length st.slots
  length-fail st i error = elim (slot_at-cases st i) [
    | inl e ↦ rw (fail-none st i error e)
    | inr (slot, at) ↦ rw (fail-some st i error slot at) (length-set st.slots i none)
  ]

  length-emit :
      (st : State) (i : ℕ) (slot : Slot) (t : h.Token)
      → length (emit st i slot t).slots ≡ length st.slots
  length-emit st i slot t =
      emit_cases (λ s. length s.slots ≡ length st.slots) st i slot t
        (length-retire _ i end_of_generation ∙ length-set st.slots i (some slot))
        (λ error. length-fail _ i error ∙ length-set st.slots i (some slot))
        (λ d text.
          extend_cases (λ s. length s.slots ≡ length st.slots) st i slot t d text
            (λ _. length-retire _ i (stop_of slot) ∙ length-set st.slots i (some _))
            (λ _. length-set st.slots i (some _)))

  after_flush-length :
      (i : ℕ) (st : State) (f : Flush) → length (after_flush i st f).slots ≡ length st.slots
  unfolding after_flush
  after_flush-length i st ready = refl
  after_flush-length i st stalled = refl
  after_flush-length i st abandoned = length-retire st i cancelled

  length-flush_slot : (st : State) (i : ℕ) → length (flush_slot i st).slots ≡ length st.slots
  unfolding flush_slot flush_occupied
  length-flush_slot st i = elim (slot_at-cases st i) [
    | inl e ↦ rw e refl
    | inr (slot, at) ↦ rw at (after_flush-length i _ _ ∙ length-set st.slots i (some _))
  ]

  length-settle :
      (st : State) (job : Job) (i : ℕ) (result : Prefilled)
      → length (settle st job i result).1.slots ≡ length st.slots
  unfolding settle
  length-settle st job i (running slot) = length-set st.slots i (some slot)
  length-settle st job i (finished stop prompt_tokens ms) = refl
  length-settle st job i (broken error) = refl

  length-take_job :
      (st : State) (job : Job) (i : ℕ) → length (take_job rt job i st).1.slots ≡ length st.slots
  unfolding take_job
  length-take_job st job i = elim (Bool-cases (h.load_flag st.world job.cancel).0) [
    | inl gone ↦ rw (gone, take_job) refl
    | inr stays ↦ rw (stays, take_job) (length-settle _ job i _)
  ]

  Move-length :
      (q q' : List Job) (s s' : State) → Move rt q s q' s' → length s'.slots ≡ length s.slots
  unfolding deliver
  Move-length q q' s s' (outside b f w d quiet) = refl
  Move-length q q' s s' (retires i stop) = length-retire s i stop
  Move-length q q' s s' (fails i error slot at free) = length-fail s i error
  Move-length q q' s s' (emits i slot f t at free) = length-emit s i _ t
  Move-length q q' s s' (flushes i) = length-flush_slot s i
  Move-length q q' s s' delivers = refl
  Move-length q q' s s' (takes job i idle pace e) = length-take_job s job i

  -- What a run leaves: no more work, slots that fit, and as many places.
  pub record Lasts (q : List Job) (s : State) (q' : List Job) (s' : State) : Type 0 where
    pub less : work q' s' ≤ work q s
    pub fit : AllFit rt s'
    pub places : length s'.slots ≡ length s.slots

  pub Moves-Lasts :
      (small : rt.n_ctx < 2 ^ 32) (reads : AllRead) {q : List Job} {s : State} {q' : List Job}
      {s' : State}
      → Moves rt q s q' s'
      → AllFit rt s
      → Lasts q s q' s'
  Moves-Lasts small reads {q} {s} moves fit =
      Moves_keep rt (Lasts q s)
        (λ q₁ q₂ s₁ s₂ move before.
          let no_more = Move-work rt small reads q₁ q₂ s₁ s₂ move before.fit in
          record {
            less = omega (arith, before.less, no_more);
            fit = Move-AllFit rt small q₁ q₂ s₁ s₂ move before.fit;
            places = Move-length q₁ q₂ s₁ s₂ move ∙ before.places;
          })
        moves (record { less = omega arith; fit = fit; places = refl })
