-- ===== src/Engine/Starved.antt =====
-- An engine with a target for its steps whose last step was too long, when all slots are free again
-- and one caller that still has its receiver does not read what is left for it.
use llm_worker.Base.{
  ℕ, zero, suc, ◌≡◌, refl, sym, ap, ◌∙◌, ◌==◌, ◌⊎◌, inl, inr, is_positive, increment, Bool, true,
  false, ◌&&◌, List, [], ◌∷◌, ◌++◌, append-nil, append_assoc, length, Option, none, some,
  for_range_ind,
}
use llm_worker.Engine.Types.{Event, Job}
use llm_worker.Engine.Host.{Host, full}
use llm_worker.Engine.Pool.{State, active, slot_at}
use llm_worker.Engine.Prefill.{Runtime}
use llm_worker.Engine.Admit.{
  no_slot, throttled, gate, gate_at, position_none, is_empty, admit, open_queue, over_target,
}
use llm_worker.Engine.Step.{step, gather_all, gather, gather_slot, decode_rows, idle}
use llm_worker.Engine.Serve.{
  retain, deliver, flush_all, flush_slot, flush_occupied, finish_round, conclude, round, arrive,
  serve, slept,
}

module _ ⦃h : Host⦄ where
  -- Every event of the outbox is for channel `c`.
  abbrev pub OnlyFor : ℕ → List (ℕ × Event) → Type 0
  OnlyFor c [] = Unit {0}
  OnlyFor c ((d, e) ∷ rest) = (d ≡ c) × OnlyFor c rest

  -- The caller of channel `c` never makes room.
  abbrev pub Unread : ℕ → Type 0
  Unread c = (w : h.World) (e : Event) → (h.try_send w c e).0 ≡ full

  pub record Starved (rt : Runtime) (c : ℕ) (st : State) : Type 0 where
    pub free : (i : ℕ) → slot_at st i ≡ none
    pub vacant : active st ≡ 0
    pub owed : is_empty st.outbox ≡ false
    pub only : OnlyFor c st.outbox
    pub slow : h.f64_ge st.step_us (h.f64_of rt.target_step_us) ≡ true

  retain-OnlyFor :
      (c : ℕ)
      → Unread c
      → (outbox : List (ℕ × Event)) (w : h.World) → OnlyFor c outbox
      → (retain outbox w).0 ≡ outbox
  unfolding retain
  retain-OnlyFor c unread [] w only = refl
  retain-OnlyFor c unread ((d, e) ∷ rest) w (same, only) =
      let stays : (h.try_send w d e).0 ≡ full = rw same (unread w e) in
      let (outcome, w₁) = h.try_send w d e in
      rw (stays, retain) (ap (λ kept. (d, e) ∷ kept) (retain-OnlyFor c unread rest w₁ only))

  and_false : (b : Bool) → (b && false) ≡ false
  and_false true = refl
  and_false false = refl

  module _ (rt : Runtime) (c : ℕ) where
    deliver-Starved : (st : State) → Unread c → Starved rt c st → Starved rt c (deliver st)
    unfolding deliver
    deliver-Starved st unread s =
        let same = retain-OnlyFor c unread st.outbox st.world s.only in
        record {
          free = s.free;
          vacant = s.vacant;
          owed = rw same s.owed;
          only = rw same s.only;
          slow = s.slow;
        }

    flush_all-Starved : (st : State) → Starved rt c st → flush_all st ≡ st
    unfolding flush_all flush_slot flush_occupied
    flush_all-Starved st s =
        for_range_ind (λ j t. t ≡ st) flush_slot
          (λ j t same. ap (flush_slot j) same ∙ ap (flush_occupied j st) (s.free j))
          (length st.slots) 0 st refl

    over_target-Starved :
        (st : State)
        → is_positive rt.target_step_us ≡ true
        → Starved rt c st
        → over_target rt st ≡ true
    over_target-Starved st on s = rw (s.owed, s.vacant, on, s.slow) refl

    gate_at-over :
        (st : State) (o : Option ℕ)
        → over_target rt st ≡ true
        → (gate_at rt st o ≡ no_slot) ⊎ (gate_at rt st o ≡ throttled)
    unfolding gate_at
    gate_at-over st none over = inl refl
    gate_at-over st (some i) over = inr (rw (over, gate_at) refl)

    -- No request is taken.
    admit-over :
        (st : State) (no_senders : Bool) (jobs : List Job)
        → over_target rt st ≡ true
        → admit rt no_senders jobs st ≡ (open_queue, jobs, st)
    unfolding admit gate
    admit-over st no_senders [] over = elim (gate_at-over st (position_none st.slots 0) over) [
      | inl e ↦ rw (e, admit) refl
      | inr e ↦ rw (e, admit) refl
    ]
    admit-over st no_senders (job ∷ jobs) over =
        elim (gate_at-over st (position_none st.slots 0) over) [
          | inl e ↦ rw (e, admit) refl
          | inr e ↦ rw (e, admit) refl
        ]

    abbrev cleared : State → State
    cleared st = record st { batch = h.clear st.batch }

    gather_all-Starved : (st : State) → Starved rt c st → gather_all st ≡ (cleared st, [])
    unfolding gather_all gather gather_slot
    gather_all-Starved st s =
        for_range_ind (λ j t. t ≡ (cleared st, [])) gather
          (λ j t same. ap (gather j) same ∙ ap (gather_slot j (cleared st) []) (s.free j))
          (length st.slots) 0 (cleared st, []) refl

    step-Starved : (st : State) → Starved rt c st → step st ≡ (idle, cleared st)
    unfolding step decode_rows
    step-Starved st s = ap (λ (t, rows). decode_rows t rows) (gather_all-Starved st s)

    finish_round-Starved :
        (closed : Bool) (st : State)
        → Starved rt c st
        → ((finish_round closed st).0 ≡ slept) × Starved rt c (finish_round closed st).1
    unfolding finish_round
    finish_round-Starved closed st s =
        let st' : State = record st { decoding = active st } in
        let s' : Starved rt c st' = record {
          free = s.free;
          vacant = s.vacant;
          owed = s.owed;
          only = s.only;
          slow = s.slow;
        } in
        let stays : (closed && (active st == 0 && is_empty st.outbox)) ≡ false =
          rw (s.owed, s.vacant) (and_false closed) in
        rw (stays, finish_round, step-Starved st' s')
          (
            refl,
            record {
              free = s.free;
              vacant = s.vacant;
              owed = s.owed;
              only = s.only;
              slow = s.slow;
            },
          )

    round-Starved :
        (was_closed no_senders : Bool) (jobs : List Job) (st : State)
        → Unread c
        → is_positive rt.target_step_us ≡ true
        → Starved rt c st
        → let r = round rt was_closed no_senders jobs st in
          (r.0 ≡ slept) × (r.1 ≡ was_closed) × (r.2 ≡ jobs) × Starved rt c r.3
    unfolding round conclude
    round-Starved was_closed no_senders jobs st unread on s =
        let st₁ = deliver st in
        let s₁ = deliver-Starved st unread s in
        let taken =
          ap (admit rt no_senders jobs) (flush_all-Starved st₁ s₁)
          ∙ admit-over st₁ no_senders jobs (over_target-Starved st₁ on s₁) in
        let (sleeps, s₂) = finish_round-Starved was_closed st₁ s₁ in
        rw taken (sleeps, refl, refl, s₂)

    arrive-Starved : (n : ℕ) (st : State) → Starved rt c st → Starved rt c (arrive n st)
    arrive-Starved zero st s = s
    arrive-Starved (suc n) st s =
        arrive-Starved n (record st { inflight = increment st.inflight })
          (record { free = s.free; vacant = s.vacant; owed = s.owed; only = s.only; slow = s.slow })

    abbrev pub all_new : List (List Job × Bool) → List Job
    all_new [] = []
    all_new ((new, no_senders) ∷ later) = new ++ all_new later

    serve-slept :
        (new : List Job) (no_senders : Bool) (later : List (List Job × Bool)) (was_closed : Bool)
        (jobs : List Job) (st : State)
        → let r = round rt was_closed no_senders (jobs ++ new) (arrive (length new) st) in
          r.0 ≡ slept
          → serve rt ((new, no_senders) ∷ later) was_closed jobs st ≡ serve rt later r.1 r.2 r.3
    unfolding serve
    serve-slept new no_senders later was_closed jobs st e = rw (e, serve) refl

    -- Under a target for the steps, with the last step over it, all slots free, and an outbox that
    -- holds events only for a caller that never makes room for one: whatever arrives and for as long
    -- as it runs, the loop takes no request, so that every one of them is still in the queue in the
    -- order it came, and it is not left, also when the last sender is gone.
    pub serve-Starved :
        (later : List (List Job × Bool)) (was_closed : Bool) (jobs : List Job) (st : State)
        → Unread c
        → is_positive rt.target_step_us ≡ true
        → Starved rt c st
        → let r = serve rt later was_closed jobs st in
          (r.0 ≡ false) × (r.1 ≡ jobs ++ all_new later) × Starved rt c r.2
    unfolding serve
    serve-Starved [] was_closed jobs st unread on s = (refl, sym (append-nil jobs), s)
    serve-Starved ((new, no_senders) ∷ later) was_closed jobs st unread on s =
        let st₁ = arrive (length new) st in
        let (sleeps, same, queue, s₁) =
          round-Starved was_closed no_senders (jobs ++ new) st₁ unread on
            (arrive-Starved (length new) st s) in
        let r = round rt was_closed no_senders (jobs ++ new) st₁ in
        let (stays, waiting, s₂) = serve-Starved later r.1 r.2 r.3 unread on s₁ in
        rw (serve-slept new no_senders later was_closed jobs st sleeps) (
          stays,
          waiting ∙ ap (λ q. q ++ all_new later) queue ∙ append_assoc jobs new (all_new later),
          s₂,
        )
