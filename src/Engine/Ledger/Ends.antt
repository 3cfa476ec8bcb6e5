-- ===== src/Engine/Ledger/Ends.antt =====
-- The ledger of a channel when a slot is given back and when it gets a token.
use llm_worker.Base.{
  ℕ, ◌+◌, ◌≡◌, refl, ap, ◌∙◌, u32, List, [], ◌∷◌, ◌++◌, none, some, Text, inl, inr, arith,
}
use llm_worker.Engine.Types.{Job, Stop, failed, end_of_generation}
use llm_worker.Engine.Host.{Host, ChannelLaws, Quiet, same, time, clears, received-Quiet}
use llm_worker.Engine.Slot.{Slot, elapsed_ms}
use llm_worker.Engine.Pool.{State, slot_at, retire, fail, last_piece, farewell}
use llm_worker.Engine.Pool.Occupied.{slot_at-cases, entry-set_self}
use llm_worker.Engine.Pool.Release.{retire-none, retire-some, fail-some}
use llm_worker.Engine.Step.{emit, write_slot}
use llm_worker.Engine.Step.Cases.{emit_cases, extend_cases, extended, stop_of}
use llm_worker.Engine.Ledger.{tally, on, owed, due, ledger}
use llm_worker.Engine.Ledger.Sums.{owed-append, holding-set-none, holding-set-some}

module _ ⦃h : Host⦄ (laws : ChannelLaws h) (c : ℕ) where
  pub tally-Quiet :
      (w v : h.World) → Quiet w v → tally (laws.received v c) ≡ tally (laws.received w c)
  tally-Quiet w v q = ap tally (received-Quiet laws c w q)

  elapsed-Quiet : (slot : Slot) (w : h.World) → Quiet w (elapsed_ms slot w).1
  unfolding elapsed_ms
  elapsed-Quiet slot w = time same

  owed-farewell :
      (slot : Slot) (stop : Stop) (ms : ℕ)
      → owed c (last_piece slot ++ farewell slot stop ms) ≡ due c slot
  owed-farewell slot stop ms = ground arith

  pub retire-ledger :
      (q : List Job) (st : State) (i : ℕ) (stop : Stop)
      → ledger laws c q (retire st i stop) ≡ ledger laws c q st
  retire-ledger q st i stop = elim (slot_at-cases st i) [
    | inl e ↦ rw (retire-none st i stop e)
    | inr (slot, e) ↦
        let ms = (elapsed_ms slot st.world).0 in
        let goodbye = last_piece slot ++ farewell slot stop ms in
        rw (retire-some st i stop slot e) (
          omega (
            arith,
            holding-set-none c st.slots i slot e,
            owed-append c st.outbox goodbye,
            owed-farewell slot stop ms,
            tally-Quiet st.world _ (clears slot.seq_id (elapsed-Quiet slot st.world)),
          ))
  ]

  pub fail-ledger :
      (q : List Job) (st : State) (i : ℕ) (error : Text) (slot : Slot)
      → slot_at st i ≡ some slot
      → slot.pending ≡ none
      → ledger laws c q (fail st i error) ≡ ledger laws c q st
  fail-ledger q st i error slot e free = rw (fail-some st i error slot e) (
      omega (
        arith,
        holding-set-none c st.slots i slot e,
        owed-append c st.outbox ((slot.job.events, failed error) ∷ []),
        due_free slot free,
        tally-Quiet st.world _ (clears slot.seq_id same),
      ))
    where
      due_free : (slot : Slot) → slot.pending ≡ none → due c slot ≡ on c slot.job.events 1
      due_free slot free = ground arith

  -- A slot is written whose debt is the old one's.
  write-ledger :
      (q : List Job) (st : State) (i : ℕ) (old x : Slot)
      → slot_at st i ≡ some old
      → due c x ≡ due c old
      → ledger laws c q (write_slot st i x) ≡ ledger laws c q st
  write-ledger q st i old x e d = omega (arith, holding-set-some c st.slots i old x e)

  pub emit-ledger :
      (q : List Job) (st : State) (i : ℕ) (slot : Slot) (s : h.Sampler) (t : h.Token)
      → slot_at st i ≡ some slot
      → slot.pending ≡ none
      → ledger laws c q (emit st i (record slot { n_cur = u32 (slot.n_cur + 1); sampler = s }) t)
        ≡ ledger laws c q st
  emit-ledger q st i slot s t e free =
      let moved : Slot = record slot { n_cur = u32 (slot.n_cur + 1); sampler = s } in
      let written = write-ledger q st i slot moved e refl in
      emit_cases (λ s. ledger laws c q s ≡ ledger laws c q st) st i moved t
        (retire-ledger q _ i end_of_generation ∙ written)
        (λ error.
          fail-ledger q _ i error moved (entry-set_self st.slots i slot moved e) free ∙ written)
        λ d text.
          let again =
            write-ledger q st i slot (extended moved t d text) e
              (extended_due moved t d text free) in
          extend_cases (λ s. ledger laws c q s ≡ ledger laws c q st) st i moved t d text
            (λ _. retire-ledger q _ i (stop_of moved) ∙ again) (λ _. again)
    where
      extended_due :
          (slot : Slot) (t : h.Token) (d : h.Decoder) (text : Text)
          → slot.pending ≡ none
          → due c (extended slot t d text) ≡ due c slot
      extended_due slot t d text free = ground arith
      -- An event that is tried is accepted or stays, unless nobody listens.
