-- ===== src/Engine/Admit.antt =====
-- llm-engine/src/lib.rs: `Runtime::admit`, which fills free slots from the queue.
pub mod Fills
pub mod Pace
pub mod Rooms
use llm_worker.Base.{
  ℕ, ◌+◌, decrement, ◌==◌, is_positive, Bool, true, false, not, ◌&&◌, List, [], ◌∷◌, Option, none,
  some, set, if◌then◌else◌,
}
use llm_worker.Engine.Types.{Event, Job, done, failed, cancelled}
use llm_worker.Engine.Host.{Host}
use llm_worker.Engine.Slot.{Slot}
use llm_worker.Engine.Pool.{State, active, push_outbox}
use llm_worker.Engine.Prefill.{Runtime, Prefilled, running, finished, broken, prefill}

-- `admit` returns whether the queue is closed, or waits in `blocking_recv` for a job to come.
pub data Verdict : Type 0 where
  open_queue closed_queue waiting : Verdict

-- What the tests at the head of the loop decide.
pub data Gate : Type 0 where
  no_slot throttled : Gate
  room : (index : ℕ) (idle pace : Bool) → Gate

abbrev pub is_empty {ℓ} : {A : Type ℓ} → List A → Bool
is_empty [] = true
is_empty (x ∷ xs) = false

module _ ⦃h : Host⦄ where
  open h use {f64_ge, f64_of, clear_kv_cache_seq, load_flag}

  -- `slots.iter().position(Option::is_none)`, counting from `i`.
  unfoldable pub position_none : List (Option Slot) → ℕ → Option ℕ
  position_none [] i = none
  position_none (none ∷ rest) i = some i
  position_none (some slot ∷ rest) i = position_none rest (i + 1)

  abbrev pub is_idle : State → Bool
  is_idle st = active st == 0 && is_empty st.outbox

  -- The smoothed step is at the target or over it, and something is at work.
  abbrev pub over_target : Runtime → State → Bool
  over_target rt st =
      not (is_idle st)
      && (is_positive rt.target_step_us && f64_ge st.step_us (f64_of rt.target_step_us))

  unfoldable pub gate_at : Runtime → State → Option ℕ → Gate
  gate_at rt st none = no_slot
  gate_at rt st (some index) =
      if over_target rt st
      then throttled
      else room index (is_idle st) (is_positive rt.target_step_us && not (is_idle st))

  unfoldable pub gate : Runtime → State → Gate
  unfolding gate_at position_none
  gate rt st = gate_at rt st (position_none st.slots 0)

  -- A request that is over before it has a slot.
  abbrev pub drop_request : State → Job → Event → State
  drop_request st job event =
      push_outbox (record st { inflight = decrement st.inflight }) ((job.events, event) ∷ [])

  abbrev pub clear_seq : State → ℕ → State
  clear_seq st seq_id = record st { world = clear_kv_cache_seq st.world seq_id }

  -- Whether the job is now running, and the state.
  unfoldable pub settle : State → Job → ℕ → Prefilled → Bool × State
  settle st job index (running slot) = (true, record st { slots = set st.slots index (some slot) })
  settle st job index (finished stop prompt_tokens ms) =
      (false, drop_request (clear_seq st index) job (done stop prompt_tokens 0 ms))
  settle st job index (broken error) = (false, drop_request (clear_seq st index) job (failed error))

  -- A job that was received: cancelled while it was queued, or put through its prefill.
  unfoldable pub take_job : Runtime → Job → ℕ → State → Bool × State
  unfolding settle
  take_job rt job index st =
      let (is_cancelled, w) = load_flag st.world job.cancel in
      let (result, batch, w') = prefill rt job index st.batch w in
      elim is_cancelled [
        | true ↦ (false, drop_request (record st { world = w }) job (done cancelled 0 0 0))
        | false ↦ settle (record st { batch = batch; world = w' }) job index result
      ]

  -- The queue has nothing more: `blocking_recv` waits, `try_recv` says so at once.
  abbrev pub drained : Bool → Gate → Verdict
  drained is_closed no_slot = open_queue
  drained is_closed throttled = open_queue
  drained is_closed (room index idle pace) =
      if is_closed then closed_queue else if idle then waiting else open_queue

  -- `jobs` are the requests that the queue hands out while this call runs, oldest first, and
  -- `is_closed` is whether every sender is gone after them. The jobs left over come back.
  unfoldable pub admit : Runtime → Bool → List Job → State → Verdict × List Job × State
  admit rt is_closed [] st = (drained is_closed (gate rt st), [], st)
  admit rt is_closed (job ∷ jobs) st = elim (gate rt st) [
    | no_slot ↦ (open_queue, job ∷ jobs, st)
    | throttled ↦ (open_queue, job ∷ jobs, st)
    | room index idle pace ↦
        let (is_running, st') = take_job rt job index st in
        let rest = admit rt is_closed jobs st' in
        if pace && is_running then (open_queue, jobs, st') else rest
  ]
