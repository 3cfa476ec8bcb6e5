-- ===== src/Engine/Race.antt =====
-- llm-engine/src/lib.rs: the two steps of `Engine::submit` between those of the engine's thread. A caller
-- sends its job and then counts it, and the thread may take the job and finish it in between.
use llm_worker.Base.{
  ℕ, suc, ◌+◌, ◌^◌, ◌%◌, ◌<◌, ◌≡◌, increment, inl, inr, List, [], ◌∷◌, ◌++◌, length, length-append,
  arith,
}
use llm_worker.Engine.Types.{Job}
use llm_worker.Engine.Host.{Host}
use llm_worker.Engine.Moves.{Move}
use llm_worker.Engine.Occupancy.{Move-Counts}
use llm_worker.Engine.Pool.{State, active}
use llm_worker.Engine.Pool.Release.{Balanced}
use llm_worker.Engine.Prefill.{Runtime}

module _ ⦃h : Host⦄ (rt : Runtime) where
  -- `fetch_add` on the meter.
  unfoldable pub count : State → State
  count st = record st { inflight = increment st.inflight }

  -- One atomic step, with the callers that have sent their job and not counted it yet.
  pub data Atomic : ℕ → List Job → State → ℕ → List Job → State → Type 0 where
    sends :
        {u : ℕ} {q : List Job} {st : State} (job : Job) → Atomic u q st (suc u) (q ++ job ∷ []) st
    counts : {u : ℕ} {q : List Job} {st : State} → Atomic (suc u) q st u q (count st)
    engine :
        {u : ℕ} {q q' : List Job} {st st' : State} → Move rt q st q' st' → Atomic u q st u q' st'

  pub data Interleaved (u : ℕ) (q : List Job) (st : State) : ℕ → List Job → State → Type 0 where
    start : Interleaved u q st u q st
    then_step :
        {u₁ u₂ : ℕ} {q₁ q₂ : List Job} {s₁ s₂ : State}
        → Interleaved u q st u₁ q₁ s₁
        → Atomic u₁ q₁ s₁ u₂ q₂ s₂
        → Interleaved u q st u₂ q₂ s₂

  -- Up to the wrap-around, the meter lacks the callers that have not counted.
  pub record Lacking (u : ℕ) (q : List Job) (st : State) : Type 0 where
    pub level : (st.inflight + u) % 2 ^ 64 ≡ (length q + active st) % 2 ^ 64
    pub word : st.inflight < 2 ^ 64

  Atomic-Lacking :
      {u u' : ℕ} {q q' : List Job} {st st' : State}
      → Atomic u q st u' q' st'
      → Lacking u q st
      → Lacking u' q' st'
  unfolding count
  Atomic-Lacking {q} (sends job) l = omega (arith, length-append q (job ∷ []), l.level, l.word)
  Atomic-Lacking counts l = omega (arith, l.level, l.word)
  Atomic-Lacking (engine {q} {q'} {st} {st'} move) l = elim (Move-Counts rt q q' st st' move) [
    | inl (same, kept) ↦ omega (arith, l.level, l.word, same, kept)
    | inr (less, taken) ↦ omega (arith, l.level, l.word, less, taken)
  ]

  Interleaved-Lacking :
      {u : ℕ} {q : List Job} {st : State} {u' : ℕ} {q' : List Job} {st' : State}
      → Interleaved u q st u' q' st'
      → Lacking u q st
      → Lacking u' q' st'
  Interleaved-Lacking start l = l
  Interleaved-Lacking (then_step run step) l = Atomic-Lacking step (Interleaved-Lacking run l)

  Balanced-Lacking : (q : List Job) (st : State) → Balanced (length q) st → Lacking 0 q st
  Balanced-Lacking q st b = omega (arith, b)

  -- The meter starts equal to the requests that wait and those that have a slot, and callers and the engine's
  -- thread take their steps in any order. Whenever every caller that sent a job has counted it, the meter is
  -- equal to them again, if they are as many as a word holds.
  pub settled-Balanced :
      (q q' : List Job) (st st' : State)
      → Interleaved 0 q st 0 q' st'
      → Balanced (length q) st
      → length q' + active st' < 2 ^ 64
      → Balanced (length q') st'
  settled-Balanced q q' st st' run b small =
      let l = Interleaved-Lacking run (Balanced-Lacking q st b) in
      omega (arith, l.level, l.word, small)
