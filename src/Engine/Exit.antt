-- ===== src/Engine/Exit.antt =====
-- When the loop is left, and what is left undone then: nothing.
use llm_worker.Base.{
  ℕ, ◌≡◌, ◌≢◌, refl, sym, subst, ◌==◌, Bool, true, false, Bool-cases, ◌&&◌, List, [], ◌∷◌, inl, inr,
  arith,
}
use llm_worker.Engine.Types.{Event, Job}
use llm_worker.Engine.Host.{Host}
use llm_worker.Engine.Pool.{State, active}
use llm_worker.Engine.Prefill.{Runtime}
use llm_worker.Engine.Admit.{
  Verdict, open_queue, closed_queue, waiting, Gate, no_slot, throttled, room, admit, gate, drained,
  is_empty, take_job,
}
use llm_worker.Engine.Step.{Step, decoded, idle}
use llm_worker.Engine.Serve.{left, round, round_of, conclude, finish_round, deliver, flush_all}
use llm_worker.Engine.Admit.Rooms.{Gate-cases}

-- The senders are gone and the queue is empty.
abbrev pub Emptied : Bool → List Job → Type 0
Emptied no_senders rest = (no_senders ≡ true) × (rest ≡ [])

module _ ⦃h : Host⦄ where
  round_of-left : (s : Step) → round_of s ≢ left
  round_of-left decoded = λ e. cc
  round_of-left idle = λ e. cc

  all_done :
      (a : Bool) (n : ℕ) (events : List (ℕ × Event))
      → (a && (n == 0 && is_empty events)) ≡ true
      → (a ≡ true) × (n ≡ 0) × (events ≡ [])
  all_done true n [] e = ground arith
  all_done true n (x ∷ xs) e = ground arith
  all_done false n events e = cc

  -- The loop is left only with no slot taken, nothing to deliver, and the queue closed.
  pub finish_round-left :
      (was_closed : Bool) (st : State)
      → (finish_round was_closed st).0 ≡ left
      → (was_closed ≡ true)
        × (active (finish_round was_closed st).1 ≡ 0)
        × ((finish_round was_closed st).1.outbox ≡ [])
  unfolding finish_round
  finish_round-left was_closed st e =
      elim (Bool-cases (was_closed && (active st == 0 && is_empty st.outbox))) [
        | inl done ↦ rw done (all_done was_closed (active st) st.outbox done)
        | inr busy ↦ absurd (round_of-left _ (rw busy at e))
      ]

  drained-closed :
      (is_closed : Bool) (g : Gate) → drained is_closed g ≡ closed_queue → is_closed ≡ true
  drained-closed true g e = refl
  drained-closed false no_slot e = cc
  drained-closed false throttled e = cc
  drained-closed false (room i true pace) e = cc
  drained-closed false (room i false pace) e = cc

  -- `admit` reports the queue closed only after it took every request.
  pub admit-closed :
      (rt : Runtime) (no_senders : Bool) (jobs : List Job) (st : State)
      → (admit rt no_senders jobs st).0 ≡ closed_queue
      → (no_senders ≡ true) × ((admit rt no_senders jobs st).1 ≡ [])
  unfolding admit
  admit-closed rt no_senders [] st e = (drained-closed no_senders (gate rt st) e, refl)
  admit-closed rt no_senders (job ∷ jobs) st e = elim (Gate-cases (gate rt st)) [
    | inl (inl g) ↦ cc (rw (g, admit) at e)
    | inl (inr g) ↦ cc (rw (g, admit) at e)
    | inr (i, was_idle, pace, g) ↦
        let st' = (take_job rt job i st).1 in
        let ran = (take_job rt job i st).0 in
        elim (Bool-cases (pace && ran)) [
          | inl paced ↦ cc (rw (g, admit, paced) at e)
          | inr more ↦
              rw (g, admit, more) (admit-closed rt no_senders jobs st' (rw (g, admit, more) at e))
        ]
  ]

  pub record Ended (rest : List Job) (st : State) : Type 0 where
    pub no_requests : rest ≡ []
    pub no_slots : active st ≡ 0
    pub no_events : st.outbox ≡ []

  conclude-closed :
      (was_closed no_senders : Bool) (verdict : Verdict) (rest : List Job) (st : State)
      → (verdict ≡ closed_queue → Emptied no_senders rest)
      → (was_closed ≡ true → Emptied no_senders rest)
      → (conclude was_closed (verdict, rest, st)).1 ≡ true
      → Emptied no_senders (conclude was_closed (verdict, rest, st)).2
  unfolding conclude
  conclude-closed was_closed no_senders waiting rest st by_admit before e = before e
  conclude-closed was_closed no_senders open_queue rest st by_admit before e = before e
  conclude-closed was_closed no_senders closed_queue rest st by_admit before e = by_admit refl

  conclude-left :
      (was_closed : Bool) (verdict : Verdict) (rest : List Job) (st : State)
      → (conclude was_closed (verdict, rest, st)).0 ≡ left
      → let r = conclude was_closed (verdict, rest, st) in
        (r.1 ≡ true) × (active r.3 ≡ 0) × (r.3.outbox ≡ [])
  unfolding conclude
  conclude-left was_closed waiting rest st e = cc
  conclude-left was_closed open_queue rest st e = finish_round-left was_closed st e
  conclude-left was_closed closed_queue rest st e = finish_round-left true st e

  admit-nil : (rt : Runtime) (no_senders : Bool) (st : State) → (admit rt no_senders [] st).1 ≡ []
  unfolding admit
  admit-nil rt no_senders st = refl

  -- A round that finds the queue closed has emptied it.
  pub round-closed :
      (rt : Runtime) (was_closed no_senders : Bool) (jobs : List Job) (st : State)
      → (was_closed ≡ true → Emptied no_senders jobs)
      → let r = round rt was_closed no_senders jobs st in r.1 ≡ true → Emptied no_senders r.2
  unfolding round
  round-closed rt was_closed no_senders jobs st before e =
      conclude-closed was_closed no_senders _ _
        (admit rt no_senders jobs (flush_all (deliver st))).2
        (λ v. admit-closed rt no_senders jobs _ v)
        (λ gone. (
          (before gone).0,
          subst (λ l. (admit rt no_senders l (flush_all (deliver st))).1 ≡ []) (sym (before gone).1)
              (admit-nil rt no_senders _),
        ))
        e

  pub round-left :
      (rt : Runtime) (was_closed no_senders : Bool) (jobs : List Job) (st : State)
      → (was_closed ≡ true → Emptied no_senders jobs)
      → let r = round rt was_closed no_senders jobs st in
        r.0 ≡ left → (no_senders ≡ true) × Ended r.2 r.3
  unfolding round
  round-left rt was_closed no_senders jobs st before e =
      let (verdict, left_over, st') = admit rt no_senders jobs (flush_all (deliver st)) in
      let (gone, slots, events) = conclude-left was_closed verdict left_over st' e in
      let (senders, rest) = round-closed rt was_closed no_senders jobs st before gone in
      (senders, record { no_requests = rest; no_slots = slots; no_events = events })
