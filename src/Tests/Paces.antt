-- ===== src/Tests/Paces.antt =====
-- Four requests and three free slots, with a target for the steps and without one.
use llm_worker.Base.{◌≡◌, refl, ◌≤◌, ◌⊎◌, false, List, [], ◌∷◌, length, pos, none}
use llm_worker.Engine.Types.{Job}
use llm_worker.Engine.Admit.{admit, gate, take_job}
use llm_worker.Engine.Admit.Fills.{admit-fills}
use llm_worker.Engine.Admit.Pace.{admit-paced}
use llm_worker.Engine.Pool.{State, active}
use llm_worker.Engine.Prefill.{Runtime, prefill, prepare, build_prompt, first_token}
use llm_worker.Tests.Toy.{toy, runtime, job_on}

abbrev targeted : Runtime
targeted = record runtime { target_step_us = pos 5 }

abbrev at_rest : State
at_rest = record {
  slots = none ∷ none ∷ none ∷ [];
  outbox = [];
  batch = 0;
  step_us = 0;
  world = [];
  inflight = 4;
  decoding = 0;
}

abbrev four : List Job
four = job_on 1 ∷ job_on 2 ∷ job_on 3 ∷ job_on 4 ∷ []

admit-paced_example : active (admit targeted false four at_rest).2 ≤ 2
admit-paced_example = admit-paced targeted false four at_rest refl

admit-fills_example :
    let (_, rest, st') = admit runtime false four at_rest in
    (rest ≡ []) ⊎ (active st' ≡ length st'.slots)
admit-fills_example = admit-fills runtime refl false four at_rest

-- Two of the four are taken with a target, three without one.
two_taken : active (admit targeted false four at_rest).2 ≡ 2
unfolding admit gate take_job prefill prepare build_prompt first_token
two_taken = refl

three_taken : active (admit runtime false four at_rest).2 ≡ 3
unfolding admit gate take_job prefill prepare build_prompt first_token
three_taken = refl
