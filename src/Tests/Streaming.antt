-- ===== src/Tests/Streaming.antt =====
-- What one caller reads of a run, at the toy host.
use llm_worker.Base.{refl, [], false, arith}
use llm_worker.Engine.Serve.{serve}
use llm_worker.Engine.Stream.{Ended}
use llm_worker.Engine.Stream.Runs.{serve-answer}
use llm_worker.Tests.Toy.{toy, toy_laws, runtime, received_on}
use llm_worker.Tests.Engines.{fresh, schedule, schedule-Ends, final_lem, fresh-AllFit}

-- The request for channel 3 asks for as many tokens as `job_on` does.
serve-answer_example : Ended 128 (received_on (serve runtime schedule false [] fresh).2.world 3)
serve-answer_example =
    serve-answer runtime toy_laws 3 (λ w e. refl) 128 schedule false false [] fresh (omega arith)
      fresh-AllFit schedule-Ends (λ e. cc)
      (record { no_slot_of = refl; none_owed = refl; none_got = refl }) tt
      (((λ own. omega arith, (λ other. omega arith, tt)), (tt, (tt, (tt, (tt, tt)))))) refl
      final_lem.0
