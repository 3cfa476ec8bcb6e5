-- ===== src/Engine/Ledger/Kept.antt =====
-- Every move keeps the ledger of a channel whose caller listens.
use llm_worker.Base.{
  ℕ, ◌+◌, ◌≡◌, ◌≢◌, refl, ap, subst, ◌∙◌, ◌==◌, ==_iff, Bool-cases, List, [], ◌∷◌, none, some,
  get_elem?, inl, inr, arith,
}
use llm_worker.Engine.Types.{Event, Job, done, failed, cancelled}
use llm_worker.Engine.Host.{
  Host, ChannelLaws, Sent, sent, full, closed, Sent-cases, same, flag, clears,
}
use llm_worker.Engine.Slot.{Slot, Flush, ready, stalled, abandoned, flush}
use llm_worker.Engine.Slot.Cases.{flush_cases}
use llm_worker.Engine.Pool.{State}
use llm_worker.Engine.Pool.Occupied.{slot_at-cases}
use llm_worker.Engine.Prefill.{Runtime, Prefilled, running, finished, broken}
use llm_worker.Engine.Prefill.Quiet.{prefill-Quiet}
use llm_worker.Engine.Prefill.Serves.{Serves, Holds, prefill-Serves}
use llm_worker.Engine.Admit.{take_job, settle}
use llm_worker.Engine.Admit.Rooms.{gate-free}
use llm_worker.Engine.Serve.{after_flush, flush_slot, flush_occupied, deliver, retain}
use llm_worker.Engine.Ledger.{tally, on, owed, due, ledger, IsOpen, pending_tally}
use llm_worker.Engine.Ledger.Sums.{
  tally-sent, tally-refused, owed-append, holding-set-some, holding-fill,
}
use llm_worker.Engine.Moves.{Move, outside, retires, fails, emits, flushes, delivers, takes}
use llm_worker.Engine.Ledger.Ends.{retire-ledger, fail-ledger, emit-ledger, tally-Quiet}

module _ ⦃h : Host⦄ (laws : ChannelLaws h) (c : ℕ) where
  after_flush-ledger :
      (q : List Job) (i : ℕ) (st : State) (f : Flush)
      → ledger laws c q (after_flush i st f) ≡ ledger laws c q st
  unfolding after_flush
  after_flush-ledger q i st ready = refl
  after_flush-ledger q i st stalled = refl
  after_flush-ledger q i st abandoned = retire-ledger laws c q st i cancelled

  -- The debt of the slot with what its channel has accepted.
  abbrev settled : Slot → h.World → ℕ
  settled slot w = due c slot + tally (laws.received w c)

  not_sent : {o : Sent} → o ≡ full → o ≢ sent
  not_sent e = λ p. cc

  not_sent_closed : {o : Sent} → o ≡ closed → o ≢ sent
  not_sent_closed e = λ p. cc

  flush-settled :
      (slot : Slot) (w : h.World)
      → IsOpen c
      → settled (flush slot w).1 (flush slot w).2 ≡ settled slot w
  flush-settled slot w listens =
      flush_cases (λ r. settled r.1 r.2 ≡ settled slot w) slot w (λ _. refl)
        (λ e held p. ground (arith, tally-sent c laws w slot.job.events e p))
        (λ e f since v held p quiet _. ground (
          arith,
          tally-refused c laws w slot.job.events e (not_sent p),
          tally-Quiet laws c (h.try_send w slot.job.events e).1 v quiet,
        ))
        λ e held p. elim (Bool-cases (slot.job.events == c)) [
          | inl at ↦ absurd (
              listens w e
                (subst (λ d. (h.try_send w d e).0 ≡ closed) ((==_iff slot.job.events c).0 at) p))
          | inr away ↦ ground (arith, tally-refused c laws w slot.job.events e (not_sent_closed p))
        ]

  flush_slot-ledger :
      (q : List Job) (st : State) (i : ℕ)
      → IsOpen c
      → ledger laws c q (flush_slot i st) ≡ ledger laws c q st
  unfolding flush_slot flush_occupied
  flush_slot-ledger q st i listens = elim (slot_at-cases st i) [
    | inl e ↦ rw e
    | inr (slot, e) ↦
        let r = flush slot st.world in
        rw e (
          after_flush-ledger q i _ r.0
          ∙ omega (
            arith,
            holding-set-some c st.slots i slot r.1 e,
            flush-settled slot st.world listens,
          ))
  ]

  retain-settled :
      (outbox : List (ℕ × Event)) (w : h.World)
      → IsOpen c
      → owed c (retain outbox w).0 + tally (laws.received (retain outbox w).1 c)
        ≡ owed c outbox + tally (laws.received w c)
  unfolding retain
  retain-settled [] w listens = refl
  retain-settled ((d, e) ∷ rest) w listens =
      let o = (h.try_send w d e).0 in
      let ih = retain-settled rest (h.try_send w d e).1 listens in
      elim (Sent-cases o) [
        | inl p ↦ rw (p, retain) (omega (arith, ih, tally-sent c laws w d e p))
        | inr (inl p) ↦ rw (p, retain) (omega (arith, ih, tally-refused c laws w d e (not_sent p)))
        | inr (inr p) ↦
            rw (p, retain)
              (elim (Bool-cases (d == c)) [
                | inl at ↦
                    absurd (
                      listens w e
                        (subst (λ k. (h.try_send w k e).0 ≡ closed) ((==_iff d c).0 at) p))
                | inr away ↦ ground (arith, ih, tally-refused c laws w d e (not_sent_closed p))
              ])
      ]

  deliver-ledger :
      (q : List Job) (st : State) → IsOpen c → ledger laws c q (deliver st) ≡ ledger laws c q st
  unfolding deliver
  deliver-ledger q st listens = omega (arith, retain-settled st.outbox st.world listens)

  -- A slot that a prefill makes owes one terminal event: its first piece is no terminal event.
  due-Holds : (slot : Slot) (job : Job) → Holds job slot → due c slot ≡ on c job.events 1
  due-Holds slot job held =
      rw (ap pending_tally held.held) (ap (λ (j : Job). on c j.events 1) held.same_job)

  settle-ledger :
      (q : List Job) (st : State) (job : Job) (i : ℕ) (result : Prefilled)
      → get_elem? st.slots i ≡ some none
      → Serves job result
      → ledger laws c q (settle st job i result).1 ≡ ledger laws c (job ∷ q) st
  unfolding settle
  settle-ledger q st job i (running slot) free serves =
      omega (arith, holding-fill c st.slots i slot free, due-Holds slot job serves)
  settle-ledger q st job i (finished stop prompt_tokens ms) free serves =
      let event = done stop prompt_tokens 0 ms in
      omega (
        arith,
        owed-append c st.outbox ((job.events, event) ∷ []),
        tally-Quiet laws c st.world _ (clears i same),
      )
  settle-ledger q st job i (broken error) free serves = omega (
    arith,
    owed-append c st.outbox ((job.events, failed error) ∷ []),
    tally-Quiet laws c st.world _ (clears i same),
  )

  take_job-ledger :
      (rt : Runtime) (q : List Job) (st : State) (job : Job) (i : ℕ)
      → get_elem? st.slots i ≡ some none
      → ledger laws c q (take_job rt job i st).1 ≡ ledger laws c (job ∷ q) st
  unfolding take_job
  take_job-ledger rt q st job i free =
      let w = (h.load_flag st.world job.cancel).1 in
      elim (Bool-cases (h.load_flag st.world job.cancel).0) [
        | inl gone ↦
            rw (gone, take_job)
              (omega (
                arith,
                owed-append c st.outbox ((job.events, done cancelled 0 0 0) ∷ []),
                tally-Quiet laws c st.world w (flag job.cancel same),
              ))
        | inr stays ↦
            rw (stays, take_job)
              (settle-ledger q _ job i _ free (prefill-Serves job rt i st.batch w)
                ∙ omega (
                  arith,
                  tally-Quiet laws c st.world _
                      (prefill-Quiet rt job i st.world st.batch w (flag job.cancel same)),
                ))
      ]

  pub Move-ledger :
      (rt : Runtime) (listens : IsOpen c) (q q' : List Job) (s s' : State)
      → Move rt q s q' s'
      → ledger laws c q' s' ≡ ledger laws c q s
  Move-ledger rt listens q q' s s' (outside b f w d quiet) =
      omega (arith, tally-Quiet laws c s.world w quiet)
  Move-ledger rt listens q q' s s' (retires i stop) = retire-ledger laws c q s i stop
  Move-ledger rt listens q q' s s' (fails i error slot e free) =
      fail-ledger laws c q s i error slot e free
  Move-ledger rt listens q q' s s' (emits i slot f t e free) =
      emit-ledger laws c q s i slot f t e free
  Move-ledger rt listens q q' s s' (flushes i) = flush_slot-ledger q s i listens
  Move-ledger rt listens q q' s s' delivers = deliver-ledger q s listens
  Move-ledger rt listens q q' s s' (takes job i idle pace e) =
      take_job-ledger rt q' s job i (gate-free rt s e)
