-- ===== src/Engine/Moves/Rounds.antt =====
-- A round of the engine loop is a sequence of moves.
use llm_worker.Base.{
  Bool, true, Bool-cases, ◌&&◌, ◌==◌, length, List, [], ◌∷◌, inl, inr, for_range_ind,
}
use llm_worker.Engine.Types.{Job}
use llm_worker.Engine.Host.{Host, same}
use llm_worker.Engine.Pool.{State, active}
use llm_worker.Engine.Prefill.{Runtime}
use llm_worker.Engine.Admit.{
  Verdict, waiting, open_queue, closed_queue, gate, admit, take_job, is_empty,
}
use llm_worker.Engine.Admit.Rooms.{Gate-cases}
use llm_worker.Engine.Serve.{flush_slot, flush_all, finish_round, conclude, round}
use llm_worker.Engine.Moves.{Moves, here, next, outside, flushes, delivers, takes}
use llm_worker.Engine.Moves.Steps.{step-Moves}

module _ ⦃h : Host⦄ (rt : Runtime) where
  pub flush_all-Moves :
      (q : List Job) (origin st : State)
      → Moves rt q origin q st
      → Moves rt q origin q (flush_all st)
  unfolding flush_all
  flush_all-Moves q origin st m =
      for_range_ind (λ _ s. Moves rt q origin q s) flush_slot (λ i s n. next n (flushes i))
        (length st.slots) 0 st m

  pub admit-Moves :
      (q : List Job) (origin : State) (no_senders : Bool) (jobs : List Job) (st : State)
      → Moves rt q origin jobs st
      → Moves rt q origin (admit rt no_senders jobs st).1 (admit rt no_senders jobs st).2
  unfolding admit
  admit-Moves q origin no_senders [] st m = m
  admit-Moves q origin no_senders (job ∷ jobs) st m = elim (Gate-cases (gate rt st)) [
    | inl (inl e) ↦ rw (e, admit) m
    | inl (inr e) ↦ rw (e, admit) m
    | inr (i, idle, pace, e) ↦
        let m' = next m (takes job i idle pace e) in
        let rest = admit-Moves q origin no_senders jobs (take_job rt job i st).1 m' in
        elim (Bool-cases (pace && (take_job rt job i st).0)) [
          | inl paced ↦ rw (e, admit, paced) m'
          | inr more ↦ rw (e, admit, more) rest
        ]
  ]

  finish_round-Moves :
      (q₀ q : List Job) (origin : State) (was_closed : Bool) (st : State)
      → Moves rt q₀ origin q st
      → Moves rt q₀ origin q (finish_round was_closed st).1
  unfolding finish_round
  finish_round-Moves q₀ q origin was_closed st m =
      let m' = next m (outside st.batch st.step_us st.world (active st) same) in
      elim (Bool-cases (was_closed && (active st == 0 && is_empty st.outbox))) [
        | inl e ↦ rw e m'
        | inr e ↦ rw e (step-Moves rt q₀ q origin _ m')
      ]

  pub conclude-Moves :
      (q : List Job) (origin : State) (was_closed : Bool) (verdict : Verdict) (rest : List Job)
      (st : State)
      → Moves rt q origin rest st
      → Moves rt q origin
          (conclude was_closed (verdict, rest, st)).2
          (conclude was_closed (verdict, rest, st)).3
  unfolding conclude
  conclude-Moves q origin was_closed waiting rest st m = m
  conclude-Moves q origin was_closed open_queue rest st m =
      finish_round-Moves q rest origin was_closed st m
  conclude-Moves q origin was_closed closed_queue rest st m =
      finish_round-Moves q rest origin true st m

  -- A round is a sequence of moves, which takes from the queue what it does not give back.
  pub round-Moves :
      (was_closed no_senders : Bool) (jobs : List Job) (st : State)
      → Moves rt jobs st
          (round rt was_closed no_senders jobs st).2
          (round rt was_closed no_senders jobs st).3
  unfolding round
  round-Moves was_closed no_senders jobs st =
      conclude-Moves jobs st was_closed _ _ _
        (admit-Moves jobs st no_senders jobs _ (flush_all-Moves jobs st _ (next here delivers)))
