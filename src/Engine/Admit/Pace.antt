-- ===== src/Engine/Admit/Pace.antt =====
-- How many requests one call of `admit` takes.
use llm_worker.Base.{
  ℕ, ◌+◌, ◌≤◌, ◌≡◌, refl, ◌∙◌, Bool, Bool-cases, true, false, is_positive, ◌⊎◌, inl, inr, List, [],
  ◌∷◌, ◌++◌, none, some, get_elem?, if◌then◌else◌, arith,
}
use llm_worker.Engine.Types.{Event, Job}
use llm_worker.Engine.Host.{Host}
use llm_worker.Engine.Pool.{State, active}
use llm_worker.Engine.Pool.Occupied.{occupied-fill}
use llm_worker.Engine.Prefill.{Runtime, Prefilled, running, finished, broken}
use llm_worker.Engine.Admit.{gate, admit, take_job, settle, is_idle, is_empty}
use llm_worker.Engine.Admit.Rooms.{Gate-cases, gate-room, gate-free}

module _ ⦃h : Host⦄ (rt : Runtime) where
  -- What a request does to the slots: it has one now, or its answer is owed already.
  abbrev Taken : State → Bool × State → Type 0
  Taken st (is_running, st') =
      ((is_running ≡ true) × (active st' ≡ active st + 1))
      ⊎ ((is_running ≡ false) × (active st' ≡ active st) × (is_empty st'.outbox ≡ false))

  not_empty : (events : List (ℕ × Event)) (e : ℕ × Event) → is_empty (events ++ e ∷ []) ≡ false
  not_empty [] e = refl
  not_empty (first ∷ rest) e = refl

  settle-Taken :
      (st : State) (job : Job) (i : ℕ) (result : Prefilled)
      → get_elem? st.slots i ≡ some none
      → Taken st (settle st job i result)
  unfolding settle
  settle-Taken st job i (running slot) free = inl (refl, occupied-fill st.slots i slot free)
  settle-Taken st job i (finished stop prompt_tokens ms) free =
      inr (refl, refl, not_empty st.outbox _)
  settle-Taken st job i (broken error) free = inr (refl, refl, not_empty st.outbox _)

  take_job-Taken :
      (st : State) (job : Job) (i : ℕ)
      → get_elem? st.slots i ≡ some none
      → Taken st (take_job rt job i st)
  unfolding take_job
  take_job-Taken st job i free = elim (Bool-cases (h.load_flag st.world job.cancel).0) [
    | inl gone ↦ rw (gone, take_job) (inr (refl, refl, not_empty st.outbox _))
    | inr stays ↦ rw (stays, take_job) (settle-Taken _ job i _ free)
  ]

  -- After a request was taken the engine is not idle.
  Taken-busy : (st : State) (taken : Bool × State) → Taken st taken → is_idle taken.1 ≡ false
  Taken-busy st (is_running, st') (inl (_, more)) = rw more (ground arith)
  Taken-busy st (is_running, st') (inr (_, _, owed)) = rw owed (ground arith)

  Taken-grows :
      (st : State) (taken : Bool × State) → Taken st taken → active taken.1 ≤ active st + 1
  Taken-grows st (is_running, st') (inl (_, more)) = omega (arith, more)
  Taken-grows st (is_running, st') (inr (_, same, _)) = omega (arith, same)

  at_most_one :
      (is_closed : Bool) (jobs : List Job) (st : State)
      → is_positive rt.target_step_us ≡ true
      → is_idle st ≡ false
      → active (admit rt is_closed jobs st).2 ≤ active st + 1
  unfolding admit
  at_most_one is_closed [] st on busy = omega arith
  at_most_one is_closed (job ∷ jobs) st on busy = elim (Gate-cases (gate rt st)) [
    | inl (inl at) ↦ rw (at, admit) (omega arith)
    | inl (inr at) ↦ rw (at, admit) (omega arith)
    | inr (i, idle, pace, at) ↦
        let (_, _, at_pace, _) = gate-room rt st at in
        let paced : pace ≡ true = at_pace ∙ rw (on, busy) refl in
        let taken = take_job-Taken st job i (gate-free rt st at) in
        let still = Taken-busy st (take_job rt job i st) taken in
        elim taken [
          | inl (runs, more) ↦ rw (at, paced, runs, admit) (omega (arith, more))
          | inr (ends, same, _) ↦
              rw (at, paced, ends, admit)
                (omega (arith, same, at_most_one is_closed jobs (take_job rt job i st).1 on still))
        ]
  ]

  at_most_two :
      (is_closed : Bool) (jobs : List Job) (st : State)
      → is_positive rt.target_step_us ≡ true
      → is_idle st ≡ true
      → active (admit rt is_closed jobs st).2 ≤ active st + 2
  unfolding admit
  at_most_two is_closed [] st on at_rest = omega arith
  at_most_two is_closed (job ∷ jobs) st on at_rest = elim (Gate-cases (gate rt st)) [
    | inl (inl at) ↦ rw (at, admit) (omega arith)
    | inl (inr at) ↦ rw (at, admit) (omega arith)
    | inr (i, idle, pace, at) ↦
        let (_, _, at_pace, _) = gate-room rt st at in
        let free : pace ≡ false = at_pace ∙ rw (on, at_rest) refl in
        let taken = take_job-Taken st job i (gate-free rt st at) in
        let rest =
          at_most_one is_closed jobs (take_job rt job i st).1 on
            (Taken-busy st (take_job rt job i st) taken) in
        rw (at, free, admit) (omega (arith, rest, Taken-grows st (take_job rt job i st) taken))
  ]

  -- With a target set, a call of `admit` adds at most one generation to those that run, and at most two
  -- when the engine was idle, however many requests wait.
  pub admit-paced :
      (is_closed : Bool) (jobs : List Job) (st : State)
      → is_positive rt.target_step_us ≡ true
      → active (admit rt is_closed jobs st).2 ≤ active st + (if is_idle st then 2 else 1)
  unfolding admit
  admit-paced is_closed jobs st on = elim (Bool-cases (is_idle st)) [
    | inl idle ↦ rw idle (at_most_two is_closed jobs st on idle)
    | inr busy ↦ rw busy (at_most_one is_closed jobs st on busy)
  ]
