-- ===== src/Engine/Ordered.antt =====
-- The order in which a caller gets what a slot leaves behind.
use llm_worker.Base.{
  ℕ, ◌≡◌, ◌≢◌, refl, sym, ap, subst, ◌∙◌, ◌==◌, ==_iff, inl, inr, Bool, true, false, Bool-cases,
  List, [], ◌∷◌, ◌++◌, append_assoc, append-nil, Option, none, some, arith,
}
use llm_worker.Engine.Types.{Event, Stop, done}
use llm_worker.Engine.Host.{Host, ChannelLaws, sent, Sent-cases}
use llm_worker.Engine.Slot.{Slot, elapsed_ms}
use llm_worker.Engine.Pool.{State, slot_at, retire, last_piece, farewell}
use llm_worker.Engine.Pool.Release.{retire-some}
use llm_worker.Engine.Serve.{retain, deliver}

abbrev pub keep : Bool → Event → List Event → List Event
keep true e events = e ∷ events
keep false e events = events

-- The events of a list that are for channel `c`.
abbrev pub events_for : ℕ → List (ℕ × Event) → List Event
events_for c [] = []
events_for c ((d, e) ∷ rest) = keep (d == c) e (events_for c rest)

abbrev pub held_events : Option Event → List Event
held_events none = []
held_events (some e) = e ∷ []

pub events_for-append :
    (c : ℕ) (xs ys : List (ℕ × Event))
    → events_for c (xs ++ ys) ≡ events_for c xs ++ events_for c ys
events_for-append c [] ys = refl
events_for-append c ((d, e) ∷ xs) ys = elim (Bool-cases (d == c)) [
  | inl at ↦ rw at (ap (λ es. e ∷ es) (events_for-append c xs ys))
  | inr away ↦ rw away (events_for-append c xs ys)
]

-- What a slot leaves behind is for its own channel.
pub events_for-own :
    (c d : ℕ) (o : Option Event) (x : Event)
    → (d == c) ≡ true
    → events_for c ((elim o [ none ↦ [] | some e ↦ (d, e) ∷ [] ]) ++ (d, x) ∷ [])
      ≡ held_events o ++ x ∷ []
events_for-own c d none x at = rw at refl
events_for-own c d (some e) x at = rw at refl

module _ ⦃h : Host⦄ (laws : ChannelLaws h) (c : ℕ) where
  -- The caller of the channel reads in time: there is room for every event.
  abbrev pub Accepting : Type 0
  Accepting = (w : h.World) (e : Event) → (h.try_send w c e).0 ≡ sent

  pub retain-received :
      (outbox : List (ℕ × Event)) (w : h.World)
      → Accepting
      → (events_for c (retain outbox w).0 ≡ [])
        × (laws.received (retain outbox w).1 c ≡ laws.received w c ++ events_for c outbox)
  unfolding retain
  retain-received [] w reads = (refl, sym (append-nil (laws.received w c)))
  retain-received ((d, e) ∷ rest) w reads =
      let w₁ = (h.try_send w d e).1 in
      let (none_left, got) = retain-received rest w₁ reads in
      elim (Bool-cases (d == c)) [
        | inl at ↦
            let same = (==_iff d c).0 at in
            let taken = subst (λ k. (h.try_send w k e).0 ≡ sent) (sym same) (reads w e) in
            let more =
              subst (λ k. laws.received (h.try_send w k e).1 c ≡ laws.received w c ++ e ∷ [])
                (sym same) (laws.received_sent w c e (reads w e)) in
            rw (taken, at, retain)
              (
                none_left,
                got
                    ∙ ap (λ es. es ++ events_for c rest) more
                    ∙ append_assoc (laws.received w c) (e ∷ []) (events_for c rest),
              )
        | inr away ↦
            let apart : c ≢ d = λ same. ground arith in
            let other = ap (λ es. es ++ events_for c rest) (laws.received_other w d c e apart) in
            elim (Sent-cases (h.try_send w d e).0) [
              | inl p ↦ rw (p, away, retain) (none_left, got ∙ other)
              | inr (inl p) ↦ rw (p, away, retain) (none_left, got ∙ other)
              | inr (inr p) ↦ rw (p, away, retain) (none_left, got ∙ other)
            ]
      ]

  pub released-received :
      (slot : Slot) (w : h.World)
      → laws.received (h.clear_kv_cache_seq (elapsed_ms slot w).1 slot.seq_id) c ≡ laws.received w c
  unfolding elapsed_ms
  released-received slot w = laws.received_clear _ slot.seq_id c ∙ laws.received_time w c

  -- A slot on a channel whose caller reads in time is given back, and the outbox is then delivered:
  -- the channel gets what was owed to it before, then the piece that the slot holds, if any, and then
  -- one `Done` with the slot's counts, in this order, and nothing is owed to it any more.
  pub deliver-retire :
      (st : State) (i : ℕ) (stop : Stop) (slot : Slot)
      → Accepting
      → slot_at st i ≡ some slot
      → slot.job.events ≡ c
      → let after = deliver (retire st i stop) in
        (events_for c after.outbox ≡ [])
        × (laws.received after.world c
            ≡ laws.received st.world c
              ++ (events_for c st.outbox
                  ++ (held_events slot.pending
                      ++ done stop slot.prompt_tokens slot.n_decoded (elapsed_ms slot st.world).0
                        ∷ [])))
  unfolding deliver
  deliver-retire st i stop slot reads at own =
      let left = retire st i stop in
      let (none_left, got) = retain-received left.outbox left.world reads in
      let ms = (elapsed_ms slot st.world).0 in
      let event = done stop slot.prompt_tokens slot.n_decoded ms in
      let own_events =
        events_for-own c slot.job.events slot.pending event ((==_iff slot.job.events c).1 own) in
      (
        none_left,
        got
            ∙ rw
                (
                  retire-some st i stop slot at,
                  released-received slot st.world,
                  events_for-append c st.outbox (last_piece slot ++ farewell slot stop ms),
                  own_events,
                )
                refl,
      )
