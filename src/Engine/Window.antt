-- ===== src/Engine/Window.antt =====
-- Every slot stays inside its own share of the context, through a round of the loop.
use llm_worker.Base.{
  ℕ, ◌+◌, ◌^◌, ◌<◌, ◌≡◌, Bool, false, Bool-cases, Option, some, List, u32, leb, Text, inl, inr,
  arith,
}
use llm_worker.Engine.Types.{Event, Job, Stop, cancelled, end_of_generation}
use llm_worker.Engine.Host.{Host}
use llm_worker.Engine.Slot.Cases.{flush_cases}
use llm_worker.Engine.Slot.{Slot, Flush, ready, stalled, abandoned, flush}
use llm_worker.Engine.Pool.{State, slot_at, retire, fail}
use llm_worker.Engine.Pool.Occupied.{
  slot_at-cases, entry-set-some, entry-set-none, entry-set_self, entry-set_twice,
}
use llm_worker.Engine.Pool.Release.{retire-none, retire-some, fail-none, fail-some}
use llm_worker.Engine.Prefill.{Runtime, Prefilled, running, finished, broken}
use llm_worker.Engine.Prefill.Fits.{Fits, PrefillFits, prefill-Fits}
use llm_worker.Engine.Admit.{take_job, settle}
use llm_worker.Engine.Step.{emit, write_slot}
use llm_worker.Engine.Step.Cases.{emit_cases, extend_cases, extended, stop_of}
use llm_worker.Engine.Serve.{after_flush, flush_slot, flush_occupied, deliver, round}
use llm_worker.Engine.Moves.{
  Move, outside, retires, fails, emits, flushes, delivers, takes, Moves_keep,
}
use llm_worker.Engine.Moves.Rounds.{round-Moves}

module _ ⦃h : Host⦄ (rt : Runtime) where
  -- Every occupied slot fits.
  abbrev pub AllFit : State → Type 0
  AllFit st = (i : ℕ) (slot : Slot) → slot_at st i ≡ some slot → Fits rt i slot

  -- A slot that is left after `st` came to be as it was in `st'`.
  abbrev pub Fewer : State → State → Type 0
  Fewer st' st = (j : ℕ) (s : Slot) → slot_at st j ≡ some s → slot_at st' j ≡ some s

  pub retire-Fewer : (st : State) (i : ℕ) (stop : Stop) → Fewer st (retire st i stop)
  retire-Fewer st i stop j s = elim (slot_at-cases st i) [
    | inl e ↦ rw (retire-none st i stop e) (λ p. p)
    | inr (slot, e) ↦ rw (retire-some st i stop slot e) (entry-set-none st.slots i j s)
  ]

  pub fail-Fewer : (st : State) (i : ℕ) (error : Text) → Fewer st (fail st i error)
  fail-Fewer st i error j s = elim (slot_at-cases st i) [
    | inl e ↦ rw (fail-none st i error e) (λ p. p)
    | inr (slot, e) ↦ rw (fail-some st i error slot e) (entry-set-none st.slots i j s)
  ]

  pub retire-write-Fewer :
      (st : State) (i : ℕ) (stop : Stop) (old x : Slot)
      → slot_at st i ≡ some old
      → Fewer st (retire (write_slot st i x) i stop)
  retire-write-Fewer st i stop old x e j s =
      rw (retire-some (write_slot st i x) i stop x (entry-set_self st.slots i old x e))
        (entry-set_twice st.slots i j x s)

  pub fail-write-Fewer :
      (st : State) (i : ℕ) (error : Text) (old x : Slot)
      → slot_at st i ≡ some old
      → Fewer st (fail (write_slot st i x) i error)
  fail-write-Fewer st i error old x e j s =
      rw (fail-some (write_slot st i x) i error x (entry-set_self st.slots i old x e))
        (entry-set_twice st.slots i j x s)

  -- A slot that fits is written.
  AllFit-write :
      (st : State) (i : ℕ) (x : Slot) → Fits rt i x → AllFit st → AllFit (write_slot st i x)
  AllFit-write st i x f all j s e = elim (entry-set-some st.slots i j x s e) [
    | inl (at, same) ↦ rw (at, same) f
    | inr old ↦ all j s old
  ]

  -- A token moves the slot on by one position, and it still fits unless its budget is spent.
  extended-Fits :
      (i : ℕ) (slot : Slot) (sampler : h.Sampler) (t : h.Token) (d : h.Decoder) (text : Text)
      → rt.n_ctx < 2 ^ 32
      → leb slot.budget (u32 (slot.n_decoded + 1)) ≡ false
      → Fits rt i slot
      → Fits rt i
          (extended (record slot { n_cur = u32 (slot.n_cur + 1); sampler = sampler }) t d text)
  extended-Fits i slot sampler t d text small goes f = ground arith

  emit-AllFit :
      (st : State) (i : ℕ) (slot : Slot) (sampler : h.Sampler) (t : h.Token)
      → rt.n_ctx < 2 ^ 32
      → slot_at st i ≡ some slot
      → AllFit st
      → AllFit (emit st i (record slot { n_cur = u32 (slot.n_cur + 1); sampler = sampler }) t)
  emit-AllFit st i slot sampler t small e all =
      let moved : Slot = record slot { n_cur = u32 (slot.n_cur + 1); sampler = sampler } in
      emit_cases AllFit st i moved t
        (λ j s p. all j s (retire-write-Fewer st i end_of_generation slot moved e j s p))
        (λ error j s p. all j s (fail-write-Fewer st i error slot moved e j s p))
        λ d text.
          extend_cases AllFit st i moved t d text
            (λ _ j s p. all j s (retire-write-Fewer st i (stop_of moved) slot _ e j s p))
            (λ goes.
              AllFit-write st i _ (extended-Fits i slot sampler t d text small goes (all i slot e))
                all)

  flush-Fits : (i : ℕ) (slot : Slot) (w : h.World) → Fits rt i slot → Fits rt i (flush slot w).1
  flush-Fits i slot w f =
      flush_cases (λ r. Fits rt i r.1) slot w (λ _. f) (λ _ _ _. again) (λ _ _ _ _ _ _ _ _. again)
        (λ _ _ _. again)
    where
      again :
          {p : Option Event} {since : Option ℕ}
          → Fits rt i (record slot { pending = p; stalled_since = since })
      again = record {
        seat = f.seat;
        short = f.short;
        started = f.started;
        position = f.position;
        budgeted = f.budgeted;
        funded = f.funded;
        bounded = f.bounded;
        going = f.going;
      }

  after_flush-AllFit : (i : ℕ) (st : State) (f : Flush) → AllFit st → AllFit (after_flush i st f)
  unfolding after_flush
  after_flush-AllFit i st ready all = all
  after_flush-AllFit i st stalled all = all
  after_flush-AllFit i st abandoned all = λ j s p. all j s (retire-Fewer st i cancelled j s p)

  flush_slot-AllFit : (st : State) (i : ℕ) → AllFit st → AllFit (flush_slot i st)
  unfolding flush_slot flush_occupied
  flush_slot-AllFit st i all = elim (slot_at-cases st i) [
    | inl e ↦ rw e all
    | inr (slot, e) ↦ rw e (
        after_flush-AllFit i _ (flush slot st.world).0
          (AllFit-write st i _ (flush-Fits i slot st.world (all i slot e)) all))
  ]

  settle-AllFit :
      (st : State) (job : Job) (i : ℕ) (result : Prefilled)
      → PrefillFits rt i result
      → AllFit st
      → AllFit (settle st job i result).1
  unfolding settle
  settle-AllFit st job i (running slot) f all = AllFit-write st i slot f all
  settle-AllFit st job i (finished stop prompt_tokens ms) f all = all
  settle-AllFit st job i (broken error) f all = all

  take_job-AllFit : (st : State) (job : Job) (i : ℕ) → AllFit st → AllFit (take_job rt job i st).1
  unfolding take_job
  take_job-AllFit st job i all = elim (Bool-cases (h.load_flag st.world job.cancel).0) [
    | inl gone ↦ rw (gone, take_job) all
    | inr stays ↦ rw (stays, take_job) (settle-AllFit _ job i _ (prefill-Fits rt job i _ _) all)
  ]

  pub Move-AllFit :
      (small : rt.n_ctx < 2 ^ 32) (q q' : List Job) (s s' : State)
      → Move rt q s q' s'
      → AllFit s
      → AllFit s'
  unfolding deliver
  Move-AllFit small q q' s s' (outside b f w d _) all = all
  Move-AllFit small q q' s s' (retires i stop) all = λ j x p. all j x (retire-Fewer s i stop j x p)
  Move-AllFit small q q' s s' (fails i error slot e _) all =
      λ j x p. all j x (fail-Fewer s i error j x p)
  Move-AllFit small q q' s s' (emits i slot f t e _) all = emit-AllFit s i slot f t small e all
  Move-AllFit small q q' s s' (flushes i) all = flush_slot-AllFit s i all
  Move-AllFit small q q' s s' delivers all = all
  Move-AllFit small q q' s s' (takes job i idle pace e) all = take_job-AllFit s job i all

  -- The context has under 2 ^ 32 tokens. If every occupied slot `i` has the sequence `i`, a prompt
  -- shorter than the context, and decoded tokens within the budget that its request and the context
  -- allow (or its first token only), then this is so after a round of the loop too.
  pub round-AllFit :
      (was_closed no_senders : Bool) (jobs : List Job) (st : State)
      → rt.n_ctx < 2 ^ 32
      → AllFit st
      → AllFit (round rt was_closed no_senders jobs st).3
  round-AllFit was_closed no_senders jobs st small all =
      Moves_keep rt (λ q s. AllFit s) (Move-AllFit small)
        (round-Moves rt was_closed no_senders jobs st) all
