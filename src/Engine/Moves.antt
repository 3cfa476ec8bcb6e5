-- ===== src/Engine/Moves.antt =====
-- The engine loop seen as a transition system: the bodies of its loops are the moves.
pub mod Ready
pub mod Steps
pub mod Rounds
use llm_worker.Base.{ℕ, ◌+◌, ◌≡◌, u32, Text, Bool, List, ◌∷◌, none, some}
use llm_worker.Engine.Types.{Job, Stop}
use llm_worker.Engine.Host.{Host, Quiet}
use llm_worker.Engine.Slot.{Slot}
use llm_worker.Engine.Pool.{State, slot_at, retire, fail}
use llm_worker.Engine.Prefill.{Runtime}
use llm_worker.Engine.Admit.{gate, room, take_job}
use llm_worker.Engine.Step.{emit}
use llm_worker.Engine.Serve.{flush_slot, deliver}

module _ ⦃h : Host⦄ (rt : Runtime) where
  -- A move from a state with the requests `q` in the queue to one with `q'`.
  pub data Move : List Job → State → List Job → State → Type 0 where
    -- The world, the batch and the meters that no invariant reads.
    outside :
        {q : List Job} {st : State} (b : h.Batch) (s : h.Float) (w : h.World) (d : ℕ)
        → Quiet st.world w
        → Move q st q (record st { batch = b; step_us = s; world = w; decoding = d })
    retires : {q : List Job} {st : State} (i : ℕ) (stop : Stop) → Move q st q (retire st i stop)
    -- Only a slot that owes its caller nothing fails.
    fails :
        {q : List Job} {st : State} (i : ℕ) (error : Text) (slot : Slot)
        → slot_at st i ≡ some slot
        → slot.pending ≡ none
        → Move q st q (fail st i error)
    -- A decoded slot, moved on by one position, gets its next token.
    emits :
        {q : List Job} {st : State} (i : ℕ) (slot : Slot) (s : h.Sampler) (t : h.Token)
        → slot_at st i ≡ some slot
        → slot.pending ≡ none
        → Move q st q (emit st i (record slot { n_cur = u32 (slot.n_cur + 1); sampler = s }) t)
    flushes : {q : List Job} {st : State} (i : ℕ) → Move q st q (flush_slot i st)
    delivers : {q : List Job} {st : State} → Move q st q (deliver st)
    takes :
        {q : List Job} {st : State} (job : Job) (i : ℕ) (idle pace : Bool)
        → gate rt st ≡ room i idle pace
        → Move (job ∷ q) st q (take_job rt job i st).1

  pub data Moves (q : List Job) (st : State) : List Job → State → Type 0 where
    here : Moves q st q st
    next :
        {q₁ q₂ : List Job} {s₁ s₂ : State} → Moves q st q₁ s₁ → Move q₁ s₁ q₂ s₂ → Moves q st q₂ s₂

  pub Moves-trans :
      {q q₁ : List Job} {st s₁ : State} {q₂ : List Job} {s₂ : State}
      → Moves q st q₁ s₁
      → Moves q₁ s₁ q₂ s₂
      → Moves q st q₂ s₂
  Moves-trans m here = m
  Moves-trans m (next n move) = next (Moves-trans m n) move

  -- What every move keeps, every run keeps.
  pub Moves_keep {κ} :
      (P : List Job → State → Type κ)
      → ((q q' : List Job) (s s' : State) → Move q s q' s' → P q s → P q' s')
      → {q : List Job} {s : State} {q' : List Job} {s' : State} → Moves q s q' s'
      → P q s
      → P q' s'
  Moves_keep P keep here p = p
  Moves_keep P keep (next m move) p = keep _ _ _ _ move (Moves_keep P keep m p)
