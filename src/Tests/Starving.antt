-- ===== src/Tests/Starving.antt =====
-- The toy host with a caller on channel 8 that does not read.
use llm_worker.Base.{ℕ, zero, suc, ◌≡◌, refl, Bool, true, false, List, [], ◌∷◌, pos, none}
use llm_worker.Engine.Types.{Job, done, cancelled}
use llm_worker.Engine.Pool.{State, slot_at}
use llm_worker.Engine.Prefill.{Runtime}
use llm_worker.Engine.Serve.{serve}
use llm_worker.Engine.Starved.{Starved, serve-Starved}
use llm_worker.Tests.Toy.{toy, runtime, job_on}

abbrev targeted : Runtime
targeted = record runtime { target_step_us = pos 5 }

abbrev stuck : State
stuck = record {
  slots = none ∷ none ∷ [];
  outbox = (8, done cancelled 3 1 7) ∷ [];
  batch = 0;
  step_us = 6;
  world = [];
  inflight = 0;
  decoding = 0;
}

free_in_stuck : (i : ℕ) → slot_at stuck i ≡ none
free_in_stuck zero = refl
free_in_stuck (suc zero) = refl
free_in_stuck (suc (suc i)) = refl

abbrev stuck_Starved : Starved targeted 8 stuck
stuck_Starved = record {
  free = free_in_stuck;
  vacant = refl;
  owed = refl;
  only = (refl, tt);
  slow = refl;
}

abbrev waits : List (List Job × Bool)
waits = (job_on 3 ∷ [], false) ∷ (job_on 4 ∷ [], false) ∷ ([], true) ∷ []

abbrev run : Bool × List Job × State
run = serve targeted waits false [] stuck

serve-Starved_example :
    (run.0 ≡ false) × (run.1 ≡ job_on 3 ∷ job_on 4 ∷ []) × Starved targeted 8 run.2
serve-Starved_example =
    serve-Starved targeted 8 waits false [] stuck (λ w e. refl) refl stuck_Starved
