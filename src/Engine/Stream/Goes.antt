-- ===== src/Engine/Stream/Goes.antt =====
-- What holds of one caller's stream throughout a run of the loop.
use llm_worker.Base.{
  ◌<◌, ◌^◌, ℕ, zero, suc, ◌+◌, ◌≤◌, ◌≡◌, ◌≢◌, refl, ap, inl, inr, increment, Bool, List, [], ◌∷◌,
  ◌++◌, length, arith,
}
use llm_worker.Engine.Types.{Job}
use llm_worker.Engine.Host.{Host, ChannelLaws, Sent, sent, closed, received-Quiet}
use llm_worker.Engine.Pool.{State}
use llm_worker.Engine.Prefill.{Runtime}
use llm_worker.Engine.Prefill.Fits.{Fits, asked}
use llm_worker.Engine.Window.{AllFit, Move-AllFit}
use llm_worker.Engine.Slot.{Slot}
use llm_worker.Engine.Admit.Rooms.{gate-free}
use llm_worker.Engine.Serve.{round, serve, arrive}
use llm_worker.Engine.Ledger.{waiting_for, ledger, IsOpen}
use llm_worker.Engine.Ledger.Kept.{Move-ledger}
use llm_worker.Engine.Moves.{
  Move, outside, retires, fails, emits, flushes, delivers, takes, Moves_keep,
}
use llm_worker.Engine.Moves.Rounds.{round-Moves}
use llm_worker.Engine.Ordered.{events_for, Accepting}
use llm_worker.Engine.Stream.{Streams}
use llm_worker.Engine.Stream.Same.{SameFor, Streams-same_queue, Streams-SameFor}
use llm_worker.Engine.Stream.Leaves.{retire-Streams, fail-Streams}
use llm_worker.Engine.Stream.Emits.{Grows, emit-Streams}
use llm_worker.Engine.Stream.Flushes.{flush_slot-Streams, deliver-Streams}
use llm_worker.Engine.Stream.Takes.{take_job-Streams}
use llm_worker.Engine.Terminals.{arrivals, serve-next, first-ledger, waiting_for-append}

module _ ⦃h : Host⦄ (c limit : ℕ) where
  -- The requests for the channel ask for `limit` tokens at most.
  abbrev pub Asks : List Job → Type 0
  Asks [] = Unit {0}
  Asks (job ∷ jobs) = (job.events ≡ c → asked job ≤ limit) × Asks jobs

  abbrev pub AllAsk : List (List Job × Bool) → Type 0
  AllAsk [] = Unit {0}
  AllAsk ((new, no_senders) ∷ later) = Asks new × AllAsk later

  Asks-append : (xs ys : List Job) → Asks xs → Asks ys → Asks (xs ++ ys)
  Asks-append [] ys a b = b
  Asks-append (x ∷ xs) ys a b = (a.0, Asks-append xs ys a.1 b)

module _ ⦃h : Host⦄ (rt : Runtime) (laws : ChannelLaws h) (c : ℕ) (reads : Accepting laws c) where
  pub Accepting-IsOpen : IsOpen c
  Accepting-IsOpen w e = not_closed (reads w e)
    where
      not_closed : {o : Sent} → o ≡ sent → o ≢ closed
      not_closed p = λ q. cc

  Fits-Grows : (i : ℕ) (slot : Slot) → rt.n_ctx < 2 ^ 32 → Fits rt i slot → Grows slot
  Fits-Grows i slot small f = (ground arith, ground arith)

  -- What holds throughout a run: the stream, slots that fit, and what is asked for.
  pub record Going (limit : ℕ) (q : List Job) (st : State) : Type 0 where
    pub streams : Streams laws c limit q st
    pub fit : AllFit rt st
    pub asks : Asks c limit q

  Move-Streams :
      {limit : ℕ} (small : rt.n_ctx < 2 ^ 32) (q q' : List Job) (s s' : State)
      → Move rt q s q' s'
      → ledger laws c q' s' ≤ 1
      → Going limit q s
      → Streams laws c limit q' s' × Asks c limit q'
  Move-Streams small q q' s s' (outside b f w d quiet) fits g = (
    Streams-same_queue c laws
        (record {
          same_trace = ap (λ es. es ++ events_for c s.outbox) (received-Quiet laws c s.world quiet);
          same_outbox = refl;
          same_holding = refl;
          old_slot = λ i slot at own. at;
        })
        refl g.streams,
    g.asks,
  )
  Move-Streams small q q' s s' (retires i stop) fits g =
      (retire-Streams laws c q s i stop fits g.streams, g.asks)
  Move-Streams small q q' s s' (fails i error slot at free) fits g =
      (fail-Streams laws c q s i error slot at free fits g.streams, g.asks)
  Move-Streams small q q' s s' (emits i slot f t at free) fits g = (
    emit-Streams laws c q s i slot f t at free (Fits-Grows i slot small (g.fit i slot at)) fits
        g.streams,
    g.asks,
  )
  Move-Streams small q q' s s' (flushes i) fits g =
      (flush_slot-Streams laws c reads q s i fits g.streams, g.asks)
  Move-Streams small q q' s s' delivers fits g =
      (deliver-Streams laws c reads q s fits g.streams, g.asks)
  Move-Streams small q q' s s' (takes job i idle pace at) fits g =
      (take_job-Streams laws c q' job rt s i (gate-free rt s at) g.asks.0 fits g.streams, g.asks.1)

  Move-Going :
      {limit : ℕ} (small : rt.n_ctx < 2 ^ 32) (q q' : List Job) (s s' : State)
      → Move rt q s q' s'
      → Going limit q s
      → Going limit q' s'
  Move-Going small q q' s s' move g =
      let one = g.streams.one in
      let count = Move-ledger laws c rt Accepting-IsOpen q q' s s' move in
      let (streams, asks) = Move-Streams small q q' s s' move (omega (arith, one, count)) g in
      record { streams = streams; fit = Move-AllFit rt small q q' s s' move g.fit; asks = asks }

  round-Going :
      {limit : ℕ} (small : rt.n_ctx < 2 ^ 32) (was_closed no_senders : Bool) (jobs : List Job)
      (st : State)
      → Going limit jobs st
      → let r = round rt was_closed no_senders jobs st in Going limit r.2 r.3
  round-Going {limit} small was_closed no_senders jobs st =
      Moves_keep rt (Going limit) (Move-Going small) (round-Moves rt was_closed no_senders jobs st)

  arrive-Going :
      {limit : ℕ} (q : List Job) (n : ℕ) (st : State)
      → Going limit q st
      → Going limit q (arrive n st)
  arrive-Going q zero st g = g
  arrive-Going q (suc n) st g =
      arrive-Going q n (record st { inflight = increment st.inflight })
        (record {
          streams =
              Streams-same_queue c laws (untouched st.inflight (increment st.inflight) st) refl
                g.streams;
          fit = g.fit;
          asks = g.asks;
        })
    where
      untouched : (m n : ℕ) (st : State) → SameFor c laws st (record st { inflight = n })
      untouched m n st = record {
        same_trace = refl;
        same_outbox = refl;
        same_holding = refl;
        old_slot = λ i slot at own. at;
      }

  -- What arrives waits in the queue.
  queued-Going :
      {limit : ℕ} (jobs new : List Job) (st : State)
      → ledger laws c jobs st + waiting_for c new ≤ 1
      → Asks c limit new
      → Going limit jobs st
      → Going limit (jobs ++ new) st
  queued-Going {limit} jobs new st fits asks g = record {
    streams =
        Streams-SameFor c laws
          (record {
            same_trace = refl;
            same_outbox = refl;
            same_holding = refl;
            old_slot = λ i slot at own. at;
          })
          (omega (arith, fits, waiting_for-append c jobs new)) g.streams;
    fit = g.fit;
    asks = Asks-append c limit jobs new g.asks asks;
  }

  pub serve-Going :
      {limit : ℕ} (small : rt.n_ctx < 2 ^ 32) (later : List (List Job × Bool)) (was_closed : Bool)
      (jobs : List Job) (st : State)
      → ledger laws c jobs st + arrivals c later ≤ 1
      → AllAsk c limit later
      → Going limit jobs st
      → let r = serve rt later was_closed jobs st in Going limit r.1 r.2
  unfolding serve
  serve-Going small [] was_closed jobs st fits asks g = g
  serve-Going small ((new, no_senders) ∷ later) was_closed jobs st fits asks g =
      let queued = queued-Going jobs new st (omega (arith, fits)) asks.0 g in
      let after =
        round-Going small was_closed no_senders (jobs ++ new) (arrive (length new) st)
          (arrive-Going (jobs ++ new) (length new) st queued) in
      let count = first-ledger rt laws c Accepting-IsOpen was_closed no_senders jobs new st in
      elim (serve-next rt new no_senders later was_closed jobs st) [
        | inl (at_end, same) ↦ rw same after
        | inr same ↦
            rw same (serve-Going small later _ _ _ (omega (arith, fits, count)) asks.1 after)
      ]
