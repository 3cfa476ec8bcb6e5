-- ===== src/Engine/Shutdown/Hands.antt =====
-- What the callers are handed takes work from the loop, and a request that gets its slot adds none.
use llm_worker.Base.{
  ℕ, ◌+◌, ◌*◌, ◌^◌, ◌≤◌, ◌<◌, ◌≡◌, ◌≢◌, refl, sym, ap, ◌∙◌, max, Bool-cases, inl, inr, List, [],
  ◌∷◌, none, some, set, get_elem?, length, length-append, arith,
}
use llm_worker.Engine.Types.{Event, Job, done, failed, cancelled}
use llm_worker.Engine.Host.{Host, Sent, sent}
use llm_worker.Engine.Slot.{Slot, Flush, ready, flush}
use llm_worker.Engine.Slot.Cases.{flush_cases}
use llm_worker.Engine.Pool.{State, slot_at}
use llm_worker.Engine.Pool.Occupied.{slot_at-cases}
use llm_worker.Engine.Pool.Release.{retire-none}
use llm_worker.Engine.Prefill.{Runtime, Prefilled, running, finished, broken}
use llm_worker.Engine.Prefill.Fits.{Fits, PrefillFits, prefill-Fits, asked}
use llm_worker.Engine.Prefill.Serves.{Serves, prefill-Serves}
use llm_worker.Engine.Admit.{take_job, settle}
use llm_worker.Engine.Admit.Rooms.{gate-free}
use llm_worker.Engine.Serve.{after_flush, flush_slot, flush_occupied, deliver, retain}
use llm_worker.Engine.Window.{AllFit}
use llm_worker.Engine.Moves.{Move, outside, retires, fails, emits, flushes, delivers, takes}
use llm_worker.Engine.Shutdown.{AllRead, held, remaining, weight, work, load-set-some, load-fill}
use llm_worker.Engine.Shutdown.Spends.{retire-less, fail-less, emit-less}

module _ ⦃h : Host⦄ (rt : Runtime) where
  -- A flush where every caller reads: the slot has handed over its piece.
  record Flushed (slot : Slot) (r : Flush × Slot × h.World) : Type 0 where
    on_time : r.0 ≡ ready
    clear : r.1.pending ≡ none
    light : weight r.1 ≤ weight slot

  not_sent : {o p : Sent} → o ≡ sent → o ≡ p → p ≢ sent → ⊥
  not_sent e f ne = ne (sym f ∙ e)

  flush-Flushed : (slot : Slot) (w : h.World) → AllRead → Flushed slot (flush slot w)
  flush-Flushed slot w reads =
      flush_cases (Flushed slot) slot w
        (λ free. record { on_time = refl; clear = free; light = omega arith })
        (λ e some_held p. record {
          on_time = refl;
          clear = refl;
          light = omega (arith, ap held some_held);
        })
        (λ e f since v some_held p quiet late.
          absurd (not_sent (reads w slot.job.events e) p (λ q. cc)))
        (λ e some_held p. absurd (not_sent (reads w slot.job.events e) p (λ q. cc)))

  pub record Handed (st : State) (i : ℕ) (slot : Slot) (st' : State) : Type 0 where
    pub now : Slot
    pub world : h.World
    pub clear : now.pending ≡ none
    pub light : weight now ≤ weight slot
    pub shape : st' ≡ record st { slots = set st.slots i (some now); world = world }

  pub flush_slot-Handed :
      (st : State) (i : ℕ) (slot : Slot)
      → AllRead
      → slot_at st i ≡ some slot
      → Handed st i slot (flush_slot i st)
  unfolding flush_slot flush_occupied after_flush
  flush_slot-Handed st i slot reads at =
      let r = flush slot st.world in
      let f = flush-Flushed slot st.world reads in
      record {
        now = r.1;
        world = r.2;
        clear = f.clear;
        light = f.light;
        shape = rw at (
            ap (after_flush i (record st { slots = set st.slots i (some r.1); world = r.2 }))
              f.on_time);
      }

  flush_slot-work :
      (q : List Job) (st : State) (i : ℕ) → AllRead → work q (flush_slot i st) ≤ work q st
  unfolding flush_slot flush_occupied
  flush_slot-work q st i reads = elim (slot_at-cases st i) [
    | inl e ↦ rw e (omega arith)
    | inr (slot, at) ↦
        let f = flush_slot-Handed st i slot reads at in
        omega (arith, ap (work q) f.shape, load-set-some st.slots i slot f.now at, f.light)
  ]

  -- Where every caller reads, the outbox is emptied.
  pub retain-empty : (outbox : List (ℕ × Event)) (w : h.World) → AllRead → (retain outbox w).0 ≡ []
  unfolding retain
  retain-empty [] w reads = refl
  retain-empty ((c, e) ∷ rest) w reads =
      rw (reads w c e, retain) (retain-empty rest (h.try_send w c e).1 reads)

  pub deliver-work :
      (q : List Job) (st : State) → AllRead → work q (deliver st) + length st.outbox ≡ work q st
  unfolding deliver
  deliver-work q st reads = omega (arith, ap length (retain-empty st.outbox st.world reads))

  -- A request costs more than the slot or the event that it becomes.
  settle-less :
      (q : List Job) (st : State) (job : Job) (i : ℕ) (result : Prefilled)
      → get_elem? st.slots i ≡ some none
      → PrefillFits rt i result
      → Serves job result
      → work q (settle st job i result).1 < work (job ∷ q) st
  unfolding settle
  settle-less q st job i (running slot) free fits serves = omega (
    arith,
    load-fill st.slots i slot free,
    slot_cost slot fits,
    ap held serves.held,
    ap asked serves.same_job,
  )
    where
      slot_cost :
          (slot : Slot) → Fits rt i slot → 4 * remaining slot + 4 ≤ 4 * max 2 (asked slot.job)
      slot_cost slot f = ground arith
  settle-less q st job i (finished stop prompt_tokens ms) free fits serves =
      omega (arith, length-append st.outbox ((job.events, done stop prompt_tokens 0 ms) ∷ []))
  settle-less q st job i (broken error) free fits serves =
      omega (arith, length-append st.outbox ((job.events, failed error) ∷ []))

  pub take_job-less :
      (q : List Job) (st : State) (job : Job) (i : ℕ)
      → get_elem? st.slots i ≡ some none
      → work q (take_job rt job i st).1 < work (job ∷ q) st
  unfolding take_job
  take_job-less q st job i free =
      let w = (h.load_flag st.world job.cancel).1 in
      elim (Bool-cases (h.load_flag st.world job.cancel).0) [
        | inl gone ↦
            rw (gone, take_job)
              (omega (arith, length-append st.outbox ((job.events, done cancelled 0 0 0) ∷ [])))
        | inr stays ↦
            rw (stays, take_job)
              (settle-less q (record st { batch = _; world = _ }) job i _ free
                (prefill-Fits rt job i st.batch w) (prefill-Serves job rt i st.batch w))
      ]

  pub Move-work :
      (small : rt.n_ctx < 2 ^ 32) (reads : AllRead) (q q' : List Job) (s s' : State)
      → Move rt q s q' s'
      → AllFit rt s
      → work q' s' ≤ work q s
  Move-work small reads q q' s s' (outside b f w d quiet) fit = omega arith
  Move-work small reads q q' s s' (retires i stop) fit = elim (slot_at-cases s i) [
    | inl e ↦ rw (retire-none s i stop e) (omega arith)
    | inr (slot, at) ↦ omega (arith, retire-less rt q s i stop slot at (fit i slot at))
  ]
  Move-work small reads q q' s s' (fails i error slot at free) fit =
      omega (arith, fail-less rt q s i error slot at (fit i slot at))
  Move-work small reads q q' s s' (emits i slot f t at free) fit =
      omega (arith, emit-less rt q s i slot f t small at free (fit i slot at))
  Move-work small reads q q' s s' (flushes i) fit = flush_slot-work q s i reads
  Move-work small reads q q' s s' delivers fit = omega (arith, deliver-work q s reads)
  Move-work small reads q q' s s' (takes job i idle pace e) fit =
      omega (arith, take_job-less q' s job i (gate-free rt s e))
