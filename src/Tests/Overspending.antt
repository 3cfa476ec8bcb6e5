-- ===== src/Tests/Overspending.antt =====
-- A request for one token at the toy host, and what its caller gets.
use llm_worker.Base.{ℕ, ◌+◌, ◌≡◌, refl, u32, pos, [], ◌∷◌, none, some, false, true, inr, arith}
use llm_worker.Engine.Admit.{admit, take_job, gate}
use llm_worker.Engine.Overspent.{emit-second}
use llm_worker.Engine.Pool.{State, retire}
use llm_worker.Engine.Prefill.{prefill, first_token, prepare, build_prompt}
use llm_worker.Engine.Prefill.Fits.{Fits}
use llm_worker.Engine.Serve.{round, serve, conclude}
use llm_worker.Engine.Slot.{Slot, flush, is_cancelled}
use llm_worker.Engine.Step.{step, gather_all, decode_rows, sample_rows, emit, smooth}
use llm_worker.Engine.Types.{Job, token, done, limit}
use llm_worker.Tests.Engines.{fresh}
use llm_worker.Tests.Toy.{toy, runtime, job_on}

abbrev one_token : Job
one_token = record (job_on 3) { request = record (job_on 3).request { max_tokens = pos 1 } }

-- The caller of the whole run reads two texts.
serve_lem :
    (serve runtime
      ((one_token ∷ [], false) ∷ ([], true) ∷ ([], true) ∷ ([], true) ∷ [])
      false
      []
      fresh).2.world
    ≡ (3, token (10 ∷ [])) ∷ (3, token (11 ∷ [])) ∷ (3, done limit 2 2 0) ∷ []
unfolding serve round admit take_job prefill first_token prepare build_prompt step gather_all
    decode_rows sample_rows emit flush retire is_cancelled conclude gate smooth
serve_lem = refl

abbrev slot : Slot
slot = record {
  job = one_token;
  sampler = 11;
  decoder = tt;
  seq_id = 0;
  n_cur = 2;
  next_input = 10;
  prompt_tokens = 2;
  n_decoded = 1;
  budget = 1;
  context_bound = false;
  started_us = 0;
  pending = none;
  stalled_since = none;
}

abbrev state : State
state = record fresh { slots = some slot ∷ none ∷ [] }

slot-Fits : Fits runtime 0 slot
slot-Fits = record {
  seat = refl;
  short = omega arith;
  started = omega arith;
  position = refl;
  budgeted = refl;
  funded = omega arith;
  bounded = refl;
  going = inr refl;
}

emit-second_example :
    (ms : ℕ) × ((emit state 0
        (record slot { n_cur = u32 (slot.n_cur + 1); sampler = 12 })
        11).outbox
      ≡ (3, token (11 ∷ [])) ∷ (3, done limit 2 2 ms) ∷ [])
emit-second_example = emit-second runtime state 0 slot 12 11 (11 ∷ []) refl slot-Fits refl refl refl
