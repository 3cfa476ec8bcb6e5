-- ===== src/Engine/Stream/Same.antt =====
-- Moves that leave a channel's stream alone.
use llm_worker.Base.{
  ℕ, zero, suc, ◌+◌, ◌≤◌, ◌≡◌, ◌≢◌, refl, sym, ap, ◌∙◌, subst, List, [], ◌∷◌, Option, none, some,
  arith,
}
use native.Mathlib.Decide.{ℕ_discrete}
use llm_worker.Engine.Types.{Event, Job}
use llm_worker.Engine.Host.{Host, ChannelLaws}
use llm_worker.Engine.Slot.{Slot}
use llm_worker.Engine.Pool.{State, slot_at}
use llm_worker.Engine.Pool.Occupied.{entry}
use llm_worker.Engine.Ledger.{tally, owed, due, holding, ledger, waiting_for}
use llm_worker.Engine.Ledger.Sums.{tally-append}
use llm_worker.Engine.Ordered.{events_for}
use llm_worker.Engine.Stream.{Streams, Running, Ended, trace}

pub events_for-away :
    (c d : ℕ) (e : Event) (rest : List (ℕ × Event))
    → d ≢ c
    → events_for c ((d, e) ∷ rest) ≡ events_for c rest
events_for-away c d e rest away = ground arith

pub owed_lem : (c : ℕ) (outbox : List (ℕ × Event)) → owed c outbox ≡ tally (events_for c outbox)
owed_lem c [] = refl
owed_lem c ((d, e) ∷ rest) = ground (arith, owed_lem c rest)

module _ ⦃h : Host⦄ (c : ℕ) where
  pub due-away : (slot : Slot) → slot.job.events ≢ c → due c slot ≡ 0
  due-away slot away = ground arith

  pub due_pos : (slot : Slot) → slot.job.events ≡ c → 1 ≤ due c slot
  due_pos slot own = ground arith

  -- A slot of the channel is counted.
  pub due-le-holding :
      (slots : List (Option Slot)) (i : ℕ) (slot : Slot)
      → entry slots i ≡ some slot
      → due c slot ≤ holding c slots
  due-le-holding [] i slot e = ground arith
  due-le-holding (none ∷ rest) zero slot e = ground arith
  due-le-holding (some s ∷ rest) zero slot e = ground arith
  due-le-holding (none ∷ rest) (suc i) slot e = due-le-holding rest i slot e
  due-le-holding (some s ∷ rest) (suc i) slot e = omega (arith, due-le-holding rest i slot e)

  -- Two slots of the channel are counted twice.
  pub due_pair :
      (slots : List (Option Slot)) (i j : ℕ) (s t : Slot)
      → i ≢ j
      → entry slots i ≡ some s
      → entry slots j ≡ some t
      → due c s + due c t ≤ holding c slots
  due_pair [] i j s t ne e f = ground arith
  due_pair (o ∷ rest) zero zero s t ne e f = absurd (ne refl)
  due_pair (none ∷ rest) zero (suc j) s t ne e f = ground arith
  due_pair (some x ∷ rest) zero (suc j) s t ne e f = ground (arith, due-le-holding rest j t)
  due_pair (none ∷ rest) (suc i) zero s t ne e f = ground arith
  due_pair (some x ∷ rest) (suc i) zero s t ne e f = ground (arith, due-le-holding rest i s)
  due_pair (none ∷ rest) (suc i) (suc j) s t ne e f =
      due_pair rest i j s t (λ same. ne (ap suc same)) e f
  due_pair (some x ∷ rest) (suc i) (suc j) s t ne e f =
      omega (arith, due_pair rest i j s t (λ same. ne (ap suc same)) e f)

  module _ (laws : ChannelLaws h) where
    -- For the channel, `st'` is as `st`.
    pub record SameFor (st st' : State) : Type 0 where
      pub same_trace : trace laws c st' ≡ trace laws c st
      pub same_outbox : events_for c st'.outbox ≡ events_for c st.outbox
      pub same_holding : holding c st'.slots ≡ holding c st.slots
      pub old_slot :
          (i : ℕ) (slot : Slot)
          → slot_at st' i ≡ some slot
          → slot.job.events ≡ c
          → slot_at st i ≡ some slot

    pub SameFor-trans : {s t u : State} → SameFor s t → SameFor t u → SameFor s u
    SameFor-trans a b = record {
      same_trace = b.same_trace ∙ a.same_trace;
      same_outbox = b.same_outbox ∙ a.same_outbox;
      same_holding = b.same_holding ∙ a.same_holding;
      old_slot = λ i slot e own. a.old_slot i slot (b.old_slot i slot e own) own;
    }

    pub Streams-SameFor :
        {limit : ℕ} {q q' : List Job} {st st' : State}
        → SameFor st st'
        → ledger laws c q' st' ≤ 1
        → Streams laws c limit q st
        → Streams laws c limit q' st'
    Streams-SameFor {limit} same one s = record {
      one = one;
      silent = λ none_held none_ended.
          same.same_trace
          ∙ s.silent (sym same.same_holding ∙ none_held)
              (ap tally (sym same.same_trace) ∙ none_ended);
      runs = λ i slot e own.
          let (running, nothing) = s.runs i slot (same.old_slot i slot e own) own in
          (subst (Running limit slot) (sym same.same_trace) running, same.same_outbox ∙ nothing);
      over = λ ended.
          subst (Ended limit) (sym same.same_trace)
            (s.over (ap tally (sym same.same_trace) ∙ ended));
    }

    -- The ledger in terms of the trace.
    pub ledger-trace :
        (q : List Job) (st : State)
        → ledger laws c q st ≡ waiting_for c q + holding c st.slots + tally (trace laws c st)
    ledger-trace q st = omega (
      arith,
      owed_lem c st.outbox,
      tally-append (laws.received st.world c) (events_for c st.outbox),
    )

    -- A stream that has ended, of which the ledger knows.
    pub Streams-Ended :
        {limit : ℕ} (q : List Job) (st : State)
        → ledger laws c q st ≤ 1
        → tally (trace laws c st) ≡ 1
        → Ended limit (trace laws c st)
        → Streams laws c limit q st
    Streams-Ended {limit} q st one ended e = record {
      one = one;
      silent = λ none_held none_ended. absurd (omega arith);
      runs = λ i slot at own.
          absurd
            (omega (arith, ledger-trace q st, due_pos slot own, due-le-holding st.slots i slot at));
      over = λ _. e;
    }

    -- A slot of the channel is the only one, and nothing has ended.
    pub Streams-Running :
        {limit : ℕ} (q : List Job) (st : State) (i : ℕ) (slot : Slot)
        → ledger laws c q st ≤ 1
        → slot_at st i ≡ some slot
        → slot.job.events ≡ c
        → Running limit slot (trace laws c st)
        → events_for c st.outbox ≡ []
        → Streams laws c limit q st
    Streams-Running {limit} q st i slot one at own running nothing = record {
      one = one;
      silent = λ none_held none_ended.
          absurd (omega (arith, due_pos slot own, due-le-holding st.slots i slot at));
      runs = λ j s e mine. elim (ℕ_discrete i j) [
        | yes here ↦
            let same : slot ≡ s = cc (at, e, ap (slot_at st) here) in
            (subst (λ t. Running limit t (trace laws c st)) same running, nothing)
        | no apart ↦ absurd (
            omega (
              arith,
              one,
              due_pos slot own,
              due_pos s mine,
              due_pair st.slots i j slot s apart at e,
            ))
      ];
      over = λ ended.
          absurd
            (omega (arith, ledger-trace q st, due_pos slot own, due-le-holding st.slots i slot at));
    }

    -- The ledger need not be given where the queue holds as much for the channel.
    pub Streams-same_queue :
        {limit : ℕ} {q q' : List Job} {st st' : State}
        → SameFor st st'
        → waiting_for c q' ≡ waiting_for c q
        → Streams laws c limit q st
        → Streams laws c limit q' st'
    Streams-same_queue {limit} {q} {q'} {st} {st'} same waits s =
        Streams-SameFor same
          (omega (
            arith,
            s.one,
            ledger-trace q st,
            ledger-trace q' st',
            ap tally same.same_trace,
            same.same_holding,
            waits,
          ))
          s
