-- ===== src/Engine/Serve.antt =====
-- llm-engine/src/lib.rs: `Runtime::load`, `Runtime::serve` and one round of its loop.
use llm_worker.Base.{
  zero, suc, increment, false, ◌++◌, ℕ, ◌*◌, max, u32, i64, saturating_mul, ◌==◌, Bool, true, ◌&&◌,
  List, [], ◌∷◌, Option, none, some, length, set, replicate, for_range, if◌then◌else◌,
}
use llm_worker.Engine.Types.{EngineConfig, Event, Job, ModelInfo, cancelled}
use llm_worker.Engine.Host.{Host, sent, full, closed}
use llm_worker.Engine.Slot.{Slot, Flush, ready, stalled, abandoned, flush}
use llm_worker.Engine.Pool.{State, active, slot_at, retire}
use llm_worker.Engine.Prefill.{Runtime}
use llm_worker.Engine.Admit.{Verdict, open_queue, closed_queue, waiting, is_empty, admit}
use llm_worker.Engine.Step.{Step, decoded, idle, step}

-- The numbers that `Runtime::load` keeps of its configuration; the model's own are `info`.
unfoldable pub load : EngineConfig → ModelInfo → Runtime
load config info = record {
  info = info;
  n_ctx = config.n_ctx;
  max_inflight = u32 (max config.max_inflight 1);
  target_step_us = i64 (config.target_step_ms * 1000);
}

-- The context that all slots share.
unfoldable pub total_ctx : Runtime → ℕ
total_ctx rt = saturating_mul rt.n_ctx rt.max_inflight

-- How one round of the loop ends: the loop is left, a decode was made, nothing could be decoded
-- (the engine sleeps for a tick), or `admit` waits for a request.
pub data Round : Type 0 where
  left stepped slept blocked : Round

module _ ⦃h : Host⦄ where
  open h use {World, Batch, f64_zero, try_send}

  unfoldable pub new_state : Runtime → Batch → World → ℕ → State
  new_state rt batch w inflight = record {
    slots = replicate rt.max_inflight none;
    outbox = [];
    batch = batch;
    step_us = f64_zero;
    world = w;
    inflight = inflight;
    decoding = 0;
  }

  -- `outbox.retain`: each event is tried once, in order, and only one met by a full channel stays.
  unfoldable pub retain : List (ℕ × Event) → World → List (ℕ × Event) × World
  retain [] w = ([], w)
  retain ((c, e) ∷ rest) w =
      let (outcome, w₁) = try_send w c e in
      let (kept, w₂) = retain rest w₁ in
      elim outcome [ sent ↦ (kept, w₂) | full ↦ ((c, e) ∷ kept, w₂) | closed ↦ (kept, w₂) ]

  unfoldable pub deliver : State → State
  unfolding retain
  deliver st = let (kept, w) = retain st.outbox st.world in record st { outbox = kept; world = w }

  unfoldable pub after_flush : ℕ → State → Flush → State
  after_flush index st ready = st
  after_flush index st stalled = st
  after_flush index st abandoned = retire st index cancelled

  unfoldable pub flush_occupied : ℕ → State → Option Slot → State
  unfolding after_flush
  flush_occupied index st none = st
  flush_occupied index st (some slot) =
      let (outcome, slot', w) = flush slot st.world in
      after_flush index (record st { slots = set st.slots index (some slot'); world = w }) outcome

  unfoldable pub flush_slot : ℕ → State → State
  unfolding flush_occupied
  flush_slot index st = flush_occupied index st (slot_at st index)

  unfoldable pub flush_all : State → State
  unfolding flush_slot for_range
  flush_all st = for_range (length st.slots) 0 flush_slot st

  abbrev pub is_closed_by : Bool → Verdict → Bool
  is_closed_by before closed_queue = true
  is_closed_by before open_queue = before
  is_closed_by before waiting = before

  abbrev pub round_of : Step → Round
  round_of decoded = stepped
  round_of idle = slept

  -- The loop's body behind `admit`.
  unfoldable pub finish_round : Bool → State → Round × State
  finish_round was_closed st =
      let st' = record st { decoding = active st } in
      let (outcome, st'') = step st' in
      if was_closed && (active st == 0 && is_empty st.outbox)
      then (left, st')
      else (round_of outcome, st'')

  -- What follows `admit`: with the queue closed or not from now on, the round is finished, unless
  -- `admit` waits for a request. (It waits only with nothing at work and nothing to deliver, so
  -- starting over with the requests that come next is the same as waiting on.)
  unfoldable pub conclude : Bool → Verdict × List Job × State → Round × Bool × List Job × State
  unfolding finish_round
  conclude was_closed (verdict, rest, st) =
      let now_closed = is_closed_by was_closed verdict in
      let (outcome, st') = finish_round now_closed st in
      elim verdict [
        | waiting ↦ (blocked, now_closed, rest, st)
        | open_queue ↦ (outcome, now_closed, rest, st')
        | closed_queue ↦ (outcome, now_closed, rest, st')
      ]

  -- One round: whether the queue is closed from now on, the jobs left in it, and the state.
  unfoldable pub round : Runtime → Bool → Bool → List Job → State → Round × Bool × List Job × State
  unfolding deliver flush_all conclude
  round rt was_closed no_senders jobs st =
      conclude was_closed (admit rt no_senders jobs (flush_all (deliver st)))

  -- `submit` counts each request that it queues; `new` are those of one round.
  abbrev pub arrive : ℕ → State → State
  arrive zero st = st
  arrive (suc n) st = arrive n (record st { inflight = increment st.inflight })

  -- The loop, over what arrives for each round and whether the senders are gone by then: whether
  -- the loop is left, the requests that are still queued, and the state.
  unfoldable pub serve :
      Runtime → List (List Job × Bool) → Bool → List Job → State → Bool × List Job × State
  serve rt [] was_closed jobs st = (false, jobs, st)
  serve rt ((new, no_senders) ∷ later) was_closed jobs st =
      let (outcome, now_closed, rest, st') =
        round rt was_closed no_senders (jobs ++ new) (arrive (length new) st) in
      let on_and_on = serve rt later now_closed rest st' in
      elim outcome [
        | left ↦ (true, rest, st')
        | stepped ↦ on_and_on
        | slept ↦ on_and_on
        | blocked ↦ on_and_on
      ]
