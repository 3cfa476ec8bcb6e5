-- ===== src/Engine/Shutdown/Spends.antt =====
-- What a step takes from the work of the loop, slot by slot.
use llm_worker.Base.{
  ℕ, ◌+◌, ◌^◌, ◌≤◌, ◌<◌, ◌≡◌, ap, u32, Text, List, [], ◌∷◌, ◌++◌, none, some, length, length-append,
  arith,
}
use llm_worker.Engine.Types.{Job, Stop, failed, end_of_generation}
use llm_worker.Engine.Host.{Host}
use llm_worker.Engine.Slot.{Slot, elapsed_ms}
use llm_worker.Engine.Pool.{State, slot_at, retire, fail, last_piece, farewell}
use llm_worker.Engine.Pool.Occupied.{entry-set_self}
use llm_worker.Engine.Pool.Release.{retire-some, fail-some}
use llm_worker.Engine.Prefill.{Runtime}
use llm_worker.Engine.Prefill.Fits.{Fits}
use llm_worker.Engine.Step.{emit, write_slot}
use llm_worker.Engine.Step.Cases.{emit_cases, extend_cases, extended, stop_of}
use llm_worker.Engine.Shutdown.{held, remaining, weight, work, load-set-none, load-set-some}

module _ ⦃h : Host⦄ (rt : Runtime) where
  left_over :
      (slot : Slot) (stop : Stop) (ms : ℕ)
      → length (last_piece slot ++ farewell slot stop ms) ≡ held slot.pending + 1
  left_over slot stop ms = ground arith

  retire-work :
      (q : List Job) (st : State) (i : ℕ) (stop : Stop) (slot : Slot)
      → slot_at st i ≡ some slot
      → work q (retire st i stop) + weight slot ≡ work q st + held slot.pending + 1
  retire-work q st i stop slot at =
      let ms = (elapsed_ms slot st.world).0 in
      rw (retire-some st i stop slot at) (
        omega (
          arith,
          load-set-none st.slots i slot at,
          length-append st.outbox (last_piece slot ++ farewell slot stop ms),
          left_over slot stop ms,
        ))

  fail-work :
      (q : List Job) (st : State) (i : ℕ) (error : Text) (slot : Slot)
      → slot_at st i ≡ some slot
      → work q (fail st i error) + weight slot ≡ work q st + 1
  fail-work q st i error slot at = rw (fail-some st i error slot at) (
      omega (
        arith,
        load-set-none st.slots i slot at,
        length-append st.outbox ((slot.job.events, failed error) ∷ []),
      ))

  write-work :
      (q : List Job) (st : State) (i : ℕ) (old x : Slot)
      → slot_at st i ≡ some old
      → work q (write_slot st i x) + weight old ≡ work q st + weight x
  write-work q st i old x at = omega (arith, load-set-some st.slots i old x at)

  Fits-remaining : (i : ℕ) (slot : Slot) → Fits rt i slot → 1 ≤ remaining slot
  Fits-remaining i slot f = ground arith

  pub retire-less :
      (q : List Job) (st : State) (i : ℕ) (stop : Stop) (slot : Slot)
      → slot_at st i ≡ some slot
      → Fits rt i slot
      → work q (retire st i stop) < work q st
  retire-less q st i stop slot at f =
      omega (arith, retire-work q st i stop slot at, Fits-remaining i slot f)

  pub fail-less :
      (q : List Job) (st : State) (i : ℕ) (error : Text) (slot : Slot)
      → slot_at st i ≡ some slot
      → Fits rt i slot
      → work q (fail st i error) < work q st
  fail-less q st i error slot at f =
      omega (arith, fail-work q st i error slot at, Fits-remaining i slot f)

  -- The slot with one more token and its text to hand over.
  extended-weight :
      (i : ℕ) (slot : Slot) (t : h.Token) (d : h.Decoder) (text : Text)
      → rt.n_ctx < 2 ^ 32
      → slot.pending ≡ none
      → Fits rt i slot
      → weight (extended slot t d text) + 3 ≡ weight slot
  extended-weight i slot t d text small free f =
      let same : u32 (slot.n_decoded + 1) ≡ slot.n_decoded + 1 = ground arith in
      omega (arith, ap held free, Fits-remaining i slot f, same)

  pub emit-less :
      (q : List Job) (st : State) (i : ℕ) (slot : Slot) (s : h.Sampler) (t : h.Token)
      → rt.n_ctx < 2 ^ 32
      → slot_at st i ≡ some slot
      → slot.pending ≡ none
      → Fits rt i slot
      → work q (emit st i (record slot { n_cur = u32 (slot.n_cur + 1); sampler = s }) t) < work q st
  emit-less q st i slot s t small at free f =
      let moved : Slot = record slot { n_cur = u32 (slot.n_cur + 1); sampler = s } in
      let here = entry-set_self st.slots i slot moved at in
      let wrote = write-work q st i slot moved at in
      let some_left = Fits-remaining i slot f in
      let empty = ap held free in
      emit_cases (λ st'. work q st' < work q st) st i moved t
        (omega (
          arith,
          wrote,
          retire-work q (write_slot st i moved) i end_of_generation moved here,
          some_left,
          empty,
        ))
        (λ error.
          omega (arith, wrote, fail-work q (write_slot st i moved) i error moved here, some_left))
        (λ d text.
          let x = extended moved t d text in
          let again = write-work q st i slot x at in
          let lighter = extended-weight i slot t d text small free f in
          extend_cases (λ st'. work q st' < work q st) st i moved t d text
            (λ _. omega (
              arith,
              again,
              lighter,
              retire-work q (write_slot st i x) i (stop_of moved) x
                  (entry-set_self st.slots i slot x at),
            ))
            (λ _. omega (arith, again, lighter)))
