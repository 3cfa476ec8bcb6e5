-- ===== src/Engine/Stream/Emits.antt =====
-- A token that is sampled for a slot goes on the stream of its channel, or the stream ends.
use mathlib.Core.List.{map-append}
use native.Mathlib.Decide.{ℕ_discrete}
use llm_worker.Base.{
  max, ℕ, ◌+◌, ◌≤◌, ◌≡◌, ◌≢◌, refl, sym, ap, ◌∙◌, u32, inl, inr, List, [], ◌∷◌, ◌++◌, append-nil,
  Text, none, some, arith, length-append,
}
use llm_worker.Engine.Types.{Event, Job, token, end_of_generation}
use llm_worker.Engine.Host.{Host, ChannelLaws}
use llm_worker.Engine.Slot.{Slot}
use llm_worker.Engine.Prefill.Fits.{asked}
use llm_worker.Engine.Pool.{State, slot_at}
use llm_worker.Engine.Pool.Occupied.{entry-set-some, entry-set_self}
use llm_worker.Engine.Ledger.{due, ledger}
use llm_worker.Engine.Ledger.Sums.{holding-set-some}
use llm_worker.Engine.Ordered.{held_events}
use llm_worker.Engine.Step.{emit, write_slot}
use llm_worker.Engine.Step.Cases.{emit_cases, extend_cases, extended, stop_of}
use llm_worker.Engine.Stream.{Streams, Running, trace}
use llm_worker.Engine.Stream.Leaves.{retire-Streams, fail-Streams}
use llm_worker.Engine.Stream.Same.{Streams-SameFor, Streams-Running}

module _ ⦃h : Host⦄ where
  -- One more token, and the count does not wrap.
  abbrev pub Grows : Slot → Type 0
  Grows slot =
      (slot.n_decoded + 1 ≤ max 2 (asked slot.job))
      × (u32 (slot.n_decoded + 1) ≡ slot.n_decoded + 1)

module _ ⦃h : Host⦄ (laws : ChannelLaws h) (c : ℕ) where
  -- A slot is written in the place of one with the same debt.
  pub write-Streams :
      {limit : ℕ} (q : List Job) (st : State) (i : ℕ) (old x : Slot)
      → slot_at st i ≡ some old
      → x.job ≡ old.job
      → due c x ≡ due c old
      → (Running limit old (trace laws c st) → Running limit x (trace laws c st))
      → Streams laws c limit q st
      → Streams laws c limit q (write_slot st i x)
  write-Streams {limit} q st i old x at same_job same_due run s =
      let one' : ledger laws c q (write_slot st i x) ≤ 1 =
        omega (arith, s.one, holding-set-some c st.slots i old x at) in
      let channel = ap (λ (j : Job). j.events) same_job in
      elim (ℕ_discrete old.job.events c) [
        | yes own ↦
            let (running, nothing) = s.runs i old at own in
            Streams-Running c laws q (write_slot st i x) i x one'
              (entry-set_self st.slots i old x at) (channel ∙ own) (run running) nothing
        | no away ↦
            let x_away : x.job.events ≢ c = λ e. away (sym channel ∙ e) in
            Streams-SameFor c laws
              (record {
                same_trace = refl;
                same_outbox = refl;
                same_holding = omega (arith, holding-set-some c st.slots i old x at, same_due);
                old_slot = λ j slot e own. elim (entry-set-some st.slots i j x slot e) [
                  | inl (here, same) ↦
                      absurd (x_away (ap (λ (t : Slot). t.job.events) (sym same) ∙ own))
                  | inr before ↦ before
                ];
              })
              one' s
      ]

  -- The next text of a slot that has handed over its last one.
  extended-Running :
      {limit : ℕ} (slot : Slot) (t : h.Token) (d : h.Decoder) (text : Text) (before : List Event)
      → slot.pending ≡ none
      → Grows slot
      → Running limit slot before
      → Running limit (extended slot t d text) before
  extended-Running {limit} slot t d text before free grows run = record {
    texts = run.texts ++ text ∷ [];
    shape =
        ap (λ es. es ++ token text ∷ [])
          (sym (append-nil before) ∙ ap (λ o. before ++ held_events o) (sym free) ∙ run.shape)
        ∙ sym (map-append token run.texts (text ∷ []));
    counted = omega (arith, run.counted, grows.1, length-append run.texts (text ∷ []));
    short = omega (arith, run.counted, run.asks, grows.0, length-append run.texts (text ∷ []));
    asks = run.asks;
  }

  due-extended :
      (slot : Slot) (t : h.Token) (d : h.Decoder) (text : Text)
      → slot.pending ≡ none
      → due c (extended slot t d text) ≡ due c slot
  due-extended slot t d text free = ground arith

  pub emit-Streams :
      {limit : ℕ} (q : List Job) (st : State) (i : ℕ) (slot : Slot) (sampler : h.Sampler)
      (t : h.Token)
      → slot_at st i ≡ some slot
      → slot.pending ≡ none
      → Grows slot
      → let moved = record slot { n_cur = u32 (slot.n_cur + 1); sampler = sampler } in
        ledger laws c q (emit st i moved t) ≤ 1
        → Streams laws c limit q st
        → Streams laws c limit q (emit st i moved t)
  emit-Streams {limit} q st i slot sampler t at free grows one s =
      let moved : Slot = record slot { n_cur = u32 (slot.n_cur + 1); sampler = sampler } in
      let as_moved : Running limit slot (trace laws c st) → Running limit moved (trace laws c st) =
        λ run. record {
          texts = run.texts;
          shape = run.shape;
          counted = run.counted;
          short = run.short;
          asks = run.asks;
        } in
      let wrote = write-Streams q st i slot moved at refl refl as_moved s in
      let here = entry-set_self st.slots i slot moved at in
      emit_cases (λ st'. ledger laws c q st' ≤ 1 → Streams laws c limit q st') st i moved t
        (λ fits. retire-Streams laws c q (write_slot st i moved) i end_of_generation fits wrote)
        (λ error fits.
          fail-Streams laws c q (write_slot st i moved) i error moved here free fits wrote)
        (λ d text.
          let again =
            write-Streams q st i slot (extended moved t d text) at refl
              (due-extended moved t d text free)
              (λ run. extended-Running moved t d text (trace laws c st) free grows (as_moved run))
              s in
          extend_cases (λ st'. ledger laws c q st' ≤ 1 → Streams laws c limit q st') st i moved t d
            text (λ _ fits. retire-Streams laws c q _ i (stop_of moved) fits again) (λ _ _. again))
        one
