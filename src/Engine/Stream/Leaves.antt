-- ===== src/Engine/Stream/Leaves.antt =====
-- A slot that is given back ends the stream of its channel.
use llm_worker.Base.{
  ℕ, ◌≤◌, ◌≡◌, ◌≢◌, refl, sym, ap, ◌∙◌, subst, ==_iff, inl, inr, List, [], ◌∷◌, ◌++◌, append-nil,
  append_assoc, map, Text, Option, none, some, arith,
}
use native.Mathlib.Decide.{ℕ_discrete}
use llm_worker.Engine.Types.{Event, Job, Stop, token, done, failed}
use llm_worker.Engine.Host.{Host, ChannelLaws}
use llm_worker.Engine.Slot.{Slot, elapsed_ms}
use llm_worker.Engine.Pool.{State, slot_at, retire, fail, last_piece, farewell}
use llm_worker.Engine.Pool.Occupied.{slot_at-cases, entry-set-none}
use llm_worker.Engine.Pool.Release.{retire-none, retire-some, fail-some}
use llm_worker.Engine.Ledger.{tally, ledger, terminal}
use llm_worker.Engine.Ledger.Sums.{tally-append, holding-set-none}
use llm_worker.Engine.Ordered.{
  events_for, events_for-append, events_for-own, held_events, released-received,
}
use llm_worker.Engine.Stream.{Streams, Running, Ended, Counts, trace}
use llm_worker.Engine.Stream.Same.{
  SameFor, Streams-SameFor, Streams-Ended, due-away, events_for-away,
}

pub tally-tokens : (texts : List Text) → tally (map token texts) ≡ 0
tally-tokens [] = refl
tally-tokens (t ∷ texts) = omega (arith, tally-tokens texts)

pub terminal_of :
    (limit : ℕ) (e : Event) (texts : List Text) → Counts limit e texts → terminal e ≡ 1
terminal_of limit (token text) texts c = elim c [ ]
terminal_of limit (done stop prompt_tokens tokens ms) texts c = refl
terminal_of limit (failed error) texts c = refl

-- A terminal event behind tokens.
pub Ended-tokens :
    {limit : ℕ} (texts : List Text) (last : Event)
    → Counts limit last texts
    → (tally (map token texts ++ last ∷ []) ≡ 1) × Ended limit (map token texts ++ last ∷ [])
Ended-tokens {limit} texts last counted = (
  omega (
    arith,
    tally-append (map token texts) (last ∷ []),
    tally-tokens texts,
    terminal_of limit last texts counted,
  ),
  record { texts = texts; last = last; shape = refl; counted = counted },
)

-- What a slot of another channel leaves behind is not for this one.
events_for-other :
    (c d : ℕ) (o : Option Event) (x : Event)
    → d ≢ c
    → events_for c ((elim o [ none ↦ [] | some e ↦ (d, e) ∷ [] ]) ++ (d, x) ∷ []) ≡ []
events_for-other c d none x away = events_for-away c d x [] away
events_for-other c d (some e) x away =
    events_for-away c d e ((d, x) ∷ []) away ∙ events_for-away c d x [] away

regroup : (a b p l : List Event) → a ++ (b ++ (p ++ l)) ≡ ((a ++ b) ++ p) ++ l
regroup a b p l = simp append_assoc

module _ ⦃h : Host⦄ (laws : ChannelLaws h) (c : ℕ) where
  -- A trace that is a state's, and what a slot and its end add.
  trace-last :
      {limit : ℕ} (slot : Slot) (before : List Event) (last : Event)
      → (run : Running limit slot before) → Counts limit last run.texts
      → (tally ((before ++ held_events slot.pending) ++ last ∷ []) ≡ 1)
        × Ended limit ((before ++ held_events slot.pending) ++ last ∷ [])
  trace-last {limit} slot before last run counted =
      subst (λ es. (tally (es ++ last ∷ []) ≡ 1) × Ended limit (es ++ last ∷ [])) (sym run.shape)
        (Ended-tokens run.texts last counted)

  -- The trace with what a slot leaves behind.
  retire-trace :
      (st : State) (i : ℕ) (stop : Stop) (slot : Slot)
      → slot_at st i ≡ some slot
      → slot.job.events ≡ c
      → trace laws c (retire st i stop)
        ≡ (trace laws c st ++ held_events slot.pending)
          ++ done stop slot.prompt_tokens slot.n_decoded (elapsed_ms slot st.world).0 ∷ []
  retire-trace st i stop slot at own =
      let ms = (elapsed_ms slot st.world).0 in
      let last = done stop slot.prompt_tokens slot.n_decoded ms in
      let mine =
        events_for-own c slot.job.events slot.pending last ((==_iff slot.job.events c).1 own) in
      rw
        (
          retire-some st i stop slot at,
          released-received laws c slot st.world,
          events_for-append c st.outbox (last_piece slot ++ farewell slot stop ms),
          mine,
        )
        (regroup (laws.received st.world c) (events_for c st.outbox) (held_events slot.pending)
          (last ∷ []))

  pub retire-SameFor :
      (st : State) (i : ℕ) (stop : Stop) (slot : Slot)
      → slot_at st i ≡ some slot
      → slot.job.events ≢ c
      → SameFor c laws st (retire st i stop)
  retire-SameFor st i stop slot at away =
      let ms = (elapsed_ms slot st.world).0 in
      let last = done stop slot.prompt_tokens slot.n_decoded ms in
      let others = events_for-other c slot.job.events slot.pending last away in
      let outbox : events_for c (st.outbox ++ (last_piece slot ++ farewell slot stop ms))
          ≡ events_for c st.outbox =
        events_for-append c st.outbox (last_piece slot ++ farewell slot stop ms)
        ∙ ap (λ es. events_for c st.outbox ++ es) others
        ∙ append-nil (events_for c st.outbox) in
      rw (retire-some st i stop slot at) (record {
        same_trace = rw (released-received laws c slot st.world, outbox) refl;
        same_outbox = outbox;
        same_holding = omega (arith, holding-set-none c st.slots i slot at, due-away c slot away);
        old_slot = λ j s e own. entry-set-none st.slots i j s e;
      })

  pub retire-Streams :
      {limit : ℕ} (q : List Job) (st : State) (i : ℕ) (stop : Stop)
      → ledger laws c q (retire st i stop) ≤ 1
      → Streams laws c limit q st
      → Streams laws c limit q (retire st i stop)
  retire-Streams {limit} q st i stop one s = elim (slot_at-cases st i) [
    | inl e ↦ rw (retire-none st i stop e) s
    | inr (slot, at) ↦ elim (ℕ_discrete slot.job.events c) [
      | yes own ↦
          let (run, nothing) = s.runs i slot at own in
          let last = done stop slot.prompt_tokens slot.n_decoded (elapsed_ms slot st.world).0 in
          let (ended, shape) =
            trace-last slot (trace laws c st) last run (run.counted, run.short) in
          let same = sym (retire-trace st i stop slot at own) in
          Streams-Ended c laws q (retire st i stop) one (subst (λ es. tally es ≡ 1) same ended)
            (subst (Ended limit) same shape)
      | no away ↦ Streams-SameFor c laws (retire-SameFor st i stop slot at away) one s
    ]
  ]

  fail-trace :
      (st : State) (i : ℕ) (error : Text) (slot : Slot)
      → slot_at st i ≡ some slot
      → slot.pending ≡ none
      → slot.job.events ≡ c
      → trace laws c (fail st i error)
        ≡ (trace laws c st ++ held_events slot.pending) ++ failed error ∷ []
  fail-trace st i error slot at free own =
      let last = failed error in
      let mine = events_for-own c slot.job.events none last ((==_iff slot.job.events c).1 own) in
      let held = ap (λ o. held_events o ++ last ∷ []) free in
      rw
        (
          fail-some st i error slot at,
          laws.received_clear st.world slot.seq_id c,
          events_for-append c st.outbox ((slot.job.events, last) ∷ []),
        )
        (ap (λ es. laws.received st.world c ++ (events_for c st.outbox ++ es)) (mine ∙ sym held)
          ∙ regroup (laws.received st.world c) (events_for c st.outbox) (held_events slot.pending)
              (last ∷ []))

  fail-SameFor :
      (st : State) (i : ℕ) (error : Text) (slot : Slot)
      → slot_at st i ≡ some slot
      → slot.job.events ≢ c
      → SameFor c laws st (fail st i error)
  fail-SameFor st i error slot at away =
      let outbox : events_for c (st.outbox ++ (slot.job.events, failed error) ∷ [])
          ≡ events_for c st.outbox =
        events_for-append c st.outbox ((slot.job.events, failed error) ∷ [])
        ∙ ap (λ es. events_for c st.outbox ++ es)
            (events_for-away c slot.job.events (failed error) [] away)
        ∙ append-nil (events_for c st.outbox) in
      rw (fail-some st i error slot at) (record {
        same_trace = rw (laws.received_clear st.world slot.seq_id c, outbox) refl;
        same_outbox = outbox;
        same_holding = omega (arith, holding-set-none c st.slots i slot at, due-away c slot away);
        old_slot = λ j s e own. entry-set-none st.slots i j s e;
      })

  pub fail-Streams :
      {limit : ℕ} (q : List Job) (st : State) (i : ℕ) (error : Text) (slot : Slot)
      → slot_at st i ≡ some slot
      → slot.pending ≡ none
      → ledger laws c q (fail st i error) ≤ 1
      → Streams laws c limit q st
      → Streams laws c limit q (fail st i error)
  fail-Streams {limit} q st i error slot at free one s = elim (ℕ_discrete slot.job.events c) [
    | yes own ↦
        let (run, nothing) = s.runs i slot at own in
        let (ended, shape) = trace-last slot (trace laws c st) (failed error) run tt in
        let same = sym (fail-trace st i error slot at free own) in
        Streams-Ended c laws q (fail st i error) one (subst (λ es. tally es ≡ 1) same ended)
          (subst (Ended limit) same shape)
    | no away ↦ Streams-SameFor c laws (fail-SameFor st i error slot at away) one s
  ]
