-- ===== src/Tests/Ordering.antt =====
-- A slot of the toy host that is given back while it holds a piece.
use llm_worker.Base.{◌≡◌, refl, [], ◌∷◌, some, none, codes, false}
use llm_worker.Engine.Types.{token, done, limit}
use llm_worker.Engine.Ordered.{events_for, deliver-retire}
use llm_worker.Engine.Pool.{State, retire}
use llm_worker.Engine.Serve.{deliver}
use llm_worker.Engine.Slot.{Slot, elapsed_ms}
use llm_worker.Tests.Toy.{toy, toy_laws, job_on, received_on}

abbrev slot : Slot
slot = record {
  job = job_on 3;
  sampler = 12;
  decoder = tt;
  seq_id = 0;
  n_cur = 4;
  next_input = 11;
  prompt_tokens = 2;
  n_decoded = 2;
  budget = 2;
  context_bound = false;
  started_us = 0;
  pending = some (token (codes "lo"));
  stalled_since = none;
}

abbrev leaving : State
leaving = record {
  slots = some slot ∷ none ∷ [];
  outbox = (8, token (codes "x")) ∷ [];
  batch = 0;
  step_us = 0;
  world = (3, token (codes "hel")) ∷ [];
  inflight = 1;
  decoding = 1;
}

abbrev going : Slot
going = record slot { job = job_on 4; seq_id = 1; pending = none }

-- The slot waits, and another one goes on.
abbrev two_slots : State
two_slots = record leaving { slots = some slot ∷ some going ∷ [] }

-- The second slot's cancel flag is set, and it holds a piece.
abbrev flagged : Slot
flagged = record slot { job = record (job_on 4) { cancel = 7 }; seq_id = 1 }

abbrev two_others : State
two_others = record leaving { slots = some (record slot { pending = none }) ∷ some flagged ∷ [] }

abbrev after : State
after = deliver (retire leaving 0 limit)

deliver-retire_example :
    (events_for 3 after.outbox ≡ [])
    × (received_on after.world 3 ≡ token (codes "hel") ∷ token (codes "lo") ∷ done limit 2 2 1 ∷ [])
unfolding elapsed_ms
deliver-retire_example = deliver-retire toy_laws 3 leaving 0 limit slot (λ w e. refl) refl refl
