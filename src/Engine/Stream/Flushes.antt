-- ===== src/Engine/Stream/Flushes.antt =====
-- Handing over keeps the streams: a channel whose caller reads in time takes what is tried.
use llm_worker.Base.{
  ℕ, ◌≤◌, ◌≡◌, ◌≢◌, refl, sym, ap, ◌∙◌, subst, inl, inr, List, [], ◌∷◌, ◌++◌, append-nil, map, some,
  set, arith,
}
use native.Mathlib.Decide.{ℕ_discrete}
use llm_worker.Engine.Types.{Event, Job, token, cancelled}
use llm_worker.Engine.Host.{Host, ChannelLaws, Sent, sent, full, closed, received-Quiet}
use llm_worker.Engine.Slot.{Slot, Flush, ready, stalled, abandoned, flush}
use llm_worker.Engine.Slot.Cases.{flush_cases, handed, kept, unread}
use llm_worker.Engine.Pool.{State, slot_at}
use llm_worker.Engine.Pool.Occupied.{slot_at-cases, entry-set-some, entry-set_self}
use llm_worker.Engine.Serve.{after_flush, flush_slot, flush_occupied, deliver, retain}
use llm_worker.Engine.Ledger.{ledger, tally}
use llm_worker.Engine.Ledger.Sums.{holding-set-some}
use llm_worker.Engine.Ordered.{events_for, held_events, Accepting, retain-received}
use llm_worker.Engine.Stream.{Streams, Running, Ended, trace}
use llm_worker.Engine.Stream.Leaves.{retire-SameFor}
use llm_worker.Engine.Stream.Same.{
  SameFor, SameFor-trans, Streams-same_queue, Streams-Running, due-away,
}

module _ ⦃h : Host⦄ (laws : ChannelLaws h) (c : ℕ) (reads : Accepting laws c) where
  -- A slot is written, and the world goes on.
  abbrev placed : State → ℕ → Slot → h.World → State
  placed st i x w = record st { slots = set st.slots i (some x); world = w }

  -- The slot and what is sent are another channel's.
  placed-SameFor :
      (st : State) (i : ℕ) (old x : Slot) (w : h.World)
      → slot_at st i ≡ some old
      → old.job.events ≢ c
      → x.job ≡ old.job
      → laws.received w c ≡ laws.received st.world c
      → SameFor c laws st (placed st i x w)
  placed-SameFor st i old x w at away same_job quiet =
      let x_away : x.job.events ≢ c = λ e. away (sym (ap (λ (j : Job). j.events) same_job) ∙ e) in
      record {
        same_trace = ap (λ es. es ++ events_for c st.outbox) quiet;
        same_outbox = refl;
        same_holding = omega (
          arith,
          holding-set-some c st.slots i old x at,
          due-away c old away,
          due-away c x x_away,
        );
        old_slot = λ j slot e own. elim (entry-set-some st.slots i j x slot e) [
          | inl (here, same) ↦ absurd (x_away (ap (λ (t : Slot). t.job.events) (sym same) ∙ own))
          | inr before ↦ before
        ];
      }

  flushed-SameFor :
      (st : State) (i : ℕ) (old x : Slot) (w : h.World) (f : Flush)
      → slot_at st i ≡ some old
      → old.job.events ≢ c
      → x.job ≡ old.job
      → laws.received w c ≡ laws.received st.world c
      → SameFor c laws st (after_flush i (placed st i x w) f)
  unfolding after_flush
  flushed-SameFor st i old x w ready at away same_job quiet =
      placed-SameFor st i old x w at away same_job quiet
  flushed-SameFor st i old x w stalled at away same_job quiet =
      placed-SameFor st i old x w at away same_job quiet
  flushed-SameFor st i old x w abandoned at away same_job quiet =
      SameFor-trans c laws (placed-SameFor st i old x w at away same_job quiet) (
        retire-SameFor laws c (placed st i x w) i cancelled x (entry-set_self st.slots i old x at)
          (λ e. away (sym (ap (λ (j : Job). j.events) same_job) ∙ e)))

  flush_other :
      (st : State) (i : ℕ) (slot : Slot)
      → slot_at st i ≡ some slot
      → slot.job.events ≢ c
      → let r = flush slot st.world in SameFor c laws st (after_flush i (placed st i r.1 r.2) r.0)
  flush_other st i slot at away =
      let tried =
        λ (e : Event). laws.received_other st.world slot.job.events c e (λ s. away (sym s)) in
      flush_cases (λ r. SameFor c laws st (after_flush i (placed st i r.1 r.2) r.0)) slot st.world
        (λ _. flushed-SameFor st i slot slot st.world ready at away refl refl)
        (λ e held p. flushed-SameFor st i slot (handed slot) _ ready at away refl (tried e))
        (λ e f since v held p quiet _.
          flushed-SameFor st i slot (kept slot e since) v f at away refl
            (received-Quiet laws c _ quiet ∙ tried e))
        (λ e held p. flushed-SameFor st i slot (unread slot) _ abandoned at away refl (tried e))

  regrouped : (a o l m : List Event) → o ≡ [] → (a ++ o) ++ l ≡ m → ((a ++ l) ++ o) ++ [] ≡ m
  regrouped a o l m nothing e =
      append-nil ((a ++ l) ++ o)
      ∙ ap (λ es. (a ++ l) ++ es) nothing
      ∙ append-nil (a ++ l)
      ∙ ap (λ es. es ++ l) (sym (append-nil a) ∙ ap (λ es. a ++ es) (sym nothing))
      ∙ e

  -- The slot's piece goes from the slot to the channel.
  handed-Running :
      {limit : ℕ} (slot : Slot) (e : Event) (st : State) (w : h.World)
      → slot.pending ≡ some e
      → events_for c st.outbox ≡ []
      → laws.received w c ≡ laws.received st.world c ++ e ∷ []
      → Running limit slot (trace laws c st)
      → Running limit (handed slot) (laws.received w c ++ events_for c st.outbox)
  handed-Running {limit} slot e st w held nothing got run = record {
    texts = run.texts;
    shape =
        ap (λ es. (es ++ events_for c st.outbox) ++ []) got
        ∙ regrouped (laws.received st.world c) (events_for c st.outbox) (e ∷ [])
            (map token run.texts) nothing
            (ap (λ o. trace laws c st ++ held_events o) (sym held) ∙ run.shape);
    counted = run.counted;
    short = run.short;
    asks = run.asks;
  }

  flush_own :
      {limit : ℕ} (q : List Job) (st : State) (i : ℕ) (slot : Slot)
      → slot_at st i ≡ some slot
      → slot.job.events ≡ c
      → Streams laws c limit q st
      → let r = flush slot st.world in
        ledger laws c q (after_flush i (placed st i r.1 r.2) r.0) ≤ 1
        → Streams laws c limit q (after_flush i (placed st i r.1 r.2) r.0)
  unfolding after_flush
  flush_own {limit} q st i slot at own s =
      let (run, nothing) = s.runs i slot at own in
      let goes = λ (e : Event).
        subst (λ d. (h.try_send st.world d e).0 ≡ sent) (sym own) (reads st.world e) in
      let mine = λ (x : Slot). entry-set_self st.slots i slot x at in
      flush_cases
        (λ r.
          ledger laws c q (after_flush i (placed st i r.1 r.2) r.0) ≤ 1
          → Streams laws c limit q (after_flush i (placed st i r.1 r.2) r.0))
        slot st.world
        (λ _ fits.
          Streams-Running c laws q (placed st i slot st.world) i slot fits (mine slot) own run
            nothing)
        (λ e held p fits.
          Streams-Running c laws q (placed st i (handed slot) _) i (handed slot) fits
            (mine (handed slot)) own
            (handed-Running slot e st _ held nothing
              (ap (λ k. laws.received (h.try_send st.world slot.job.events e).1 k) (sym own)
                ∙ laws.received_sent st.world slot.job.events e p
                ∙ ap (λ k. laws.received st.world k ++ e ∷ []) own)
              run)
            nothing)
        (λ e f since v held p quiet _ fits. absurd (refused (goes e) p))
        (λ e held p fits. absurd (gone (goes e) p))
    where
      refused : {o : Sent} → o ≡ sent → o ≢ full
      refused e = λ p. cc

      gone : {o : Sent} → o ≡ sent → o ≢ closed
      gone e = λ p. cc

  pub flush_slot-Streams :
      {limit : ℕ} (q : List Job) (st : State) (i : ℕ)
      → ledger laws c q (flush_slot i st) ≤ 1
      → Streams laws c limit q st
      → Streams laws c limit q (flush_slot i st)
  unfolding flush_slot flush_occupied
  flush_slot-Streams {limit} q st i fits s = elim (slot_at-cases st i) [
    | inl e ↦ rw e s
    | inr (slot, at) ↦ elim (ℕ_discrete slot.job.events c) [
      | yes own ↦ rw at (flush_own q st i slot at own s (rw at at fits))
      | no away ↦ rw at (Streams-same_queue c laws (flush_other st i slot at away) refl s)
    ]
  ]

  -- The outbox goes to the channels: what is for this one is taken.
  pub deliver-Streams :
      {limit : ℕ} (q : List Job) (st : State)
      → ledger laws c q (deliver st) ≤ 1
      → Streams laws c limit q st
      → Streams laws c limit q (deliver st)
  unfolding deliver
  deliver-Streams {limit} q st fits s =
      let (none_left, got) = retain-received laws c st.outbox st.world reads in
      let same : trace laws c (deliver st) ≡ trace laws c st =
        ap (λ es. laws.received (retain st.outbox st.world).1 c ++ es) none_left
        ∙ append-nil (laws.received (retain st.outbox st.world).1 c)
        ∙ got in
      record {
        one = fits;
        silent = λ none_held none_ended.
            same ∙ s.silent none_held (subst (λ es. tally es ≡ 0) same none_ended);
        runs = λ i slot at own.
            (subst (Running limit slot) (sym same) (s.runs i slot at own).0, none_left);
        over = λ ended.
            subst (Ended limit) (sym same) (s.over (subst (λ es. tally es ≡ 1) same ended));
      }
