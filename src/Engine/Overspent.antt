-- ===== src/Engine/Overspent.antt =====
-- A request that may have one token gets two.
use llm_worker.Base.{ℕ, ◌+◌, ◌≡◌, ap, ◌∙◌, u32, leb, Text, false, true, [], ◌∷◌, ◌++◌, some, arith}
use llm_worker.Engine.Types.{token, done}
use llm_worker.Engine.Host.{Host, ok}
use llm_worker.Engine.Slot.{Slot, elapsed_ms}
use llm_worker.Engine.Pool.{State, slot_at}
use llm_worker.Engine.Pool.Occupied.{entry-set_self}
use llm_worker.Engine.Pool.Release.{retire-some}
use llm_worker.Engine.Prefill.{Runtime}
use llm_worker.Engine.Prefill.Fits.{Fits}
use llm_worker.Engine.Step.{emit, extend, write_slot}
use llm_worker.Engine.Step.Cases.{extended, stop_of}

module _ ⦃h : Host⦄ (rt : Runtime) where
  -- A slot with a budget of one token has its first, and so its budget is spent.
  Fits-spent : (i : ℕ) (slot : Slot) → Fits rt i slot → slot.budget ≡ 1 → slot.n_decoded ≡ 1
  Fits-spent i slot f one = ground arith

  spent_at :
      (slot : Slot)
      → slot.budget ≡ 1
      → slot.n_decoded ≡ 1
      → leb slot.budget (u32 (slot.n_decoded + 1)) ≡ true
  spent_at slot one first = ground arith

  extend-spent :
      (st : State) (i : ℕ) (old slot : Slot) (t : h.Token) (d : h.Decoder) (text : Text)
      → slot_at st i ≡ some old
      → slot.budget ≡ 1
      → slot.n_decoded ≡ 1
      → (extend st i slot t d text).outbox
        ≡ st.outbox
          ++ (slot.job.events, token text)
            ∷ (
              slot.job.events,
              done
                  (stop_of slot)
                  slot.prompt_tokens
                  2
                  (elapsed_ms (extended slot t d text) st.world).0,
            )
            ∷ []
  unfolding extend
  extend-spent st i old slot t d text at one first =
      let x = extended slot t d text in
      let two : u32 (slot.n_decoded + 1) ≡ 2 = omega (arith, first) in
      rw (spent_at slot one first) (
        ap (λ (s : State). s.outbox)
          (retire-some (write_slot st i x) i (stop_of slot) x (entry-set_self st.slots i old x at))
        ∙ ap
            (λ n.
              st.outbox
              ++ (slot.job.events, token text)
                ∷ (
                  slot.job.events,
                  done (stop_of slot) slot.prompt_tokens n (elapsed_ms x st.world).0,
                )
                ∷ [])
            two)

  -- A slot fits and its budget is one token. If the token that is sampled for it does not end the
  -- generation and has a text, then this text is handed over too, and the `Done` behind it counts two
  -- tokens.
  pub emit-second :
      (st : State) (i : ℕ) (slot : Slot) (sampler : h.Sampler) (t : h.Token) (text : Text)
      → slot_at st i ≡ some slot
      → Fits rt i slot
      → slot.budget ≡ 1
      → h.is_eog_token t ≡ false
      → (h.token_to_piece t slot.decoder).0 ≡ ok text
      → let moved = record slot { n_cur = u32 (slot.n_cur + 1); sampler = sampler } in
        (ms : ℕ) × ((emit st i moved t).outbox
          ≡ st.outbox
            ++ (slot.job.events, token text)
              ∷ (slot.job.events, done (stop_of slot) slot.prompt_tokens 2 ms)
              ∷ [])
  unfolding emit
  emit-second st i slot sampler t text at f one goes piece =
      let moved : Slot = record slot { n_cur = u32 (slot.n_cur + 1); sampler = sampler } in
      let d = (h.token_to_piece t slot.decoder).1 in
      (
        (elapsed_ms (extended moved t d text) st.world).0,
        rw (goes, emit, piece)
            (extend-spent st i slot moved t d text at one (Fits-spent i slot f one)),
      )
