-- ===== src/Tests/Throughs.antt =====
-- A job of the tests' worker over a run of the toy host's loop.
use llm_worker.Base.{◌≡◌, refl, Bool, true, false, List, [], ◌∷◌, arith}
use llm_worker.Engine.Handle.{Generation, submit, queued}
use llm_worker.Engine.Host.{ok}
use llm_worker.Engine.Pool.{State, retire}
use llm_worker.Engine.Prefill.{prefill, first_token, prepare, build_prompt}
use llm_worker.Engine.Admit.{admit, take_job, gate}
use llm_worker.Engine.Serve
use llm_worker.Engine.Serve.{round, conclude}
use llm_worker.Engine.Slot.{flush, is_cancelled}
use llm_worker.Engine.Step.{step, gather_all, decode_rows, sample_rows, emit, smooth}
use llm_worker.Engine.Types.{Job}
use llm_worker.Protocol.Request.{default_defaults, parse, to_generate_request}
use llm_worker.Tests.Engines.{fresh, fresh-AllFit}
use llm_worker.Tests.Printing.{plain_printer}
use llm_worker.Tests.Toy.{toy, toy_laws, runtime, received_on}
use llm_worker.Tests.Workers.{two_places, tape, tape_healthy, request, outside, lane, serving}
use llm_worker.Worker.Answered.{submission}
use llm_worker.Worker.Lane.{read_request, body_in_time, local_read_body, read_frames}
use llm_worker.Worker.Serve.{Outside, serve}
use llm_worker.Worker.Through.{Served, serve-through}

abbrev ticket : Generation
ticket = record { events = 3; cancel = 3 }

-- The job that the worker's submission makes.
abbrev submitted_job : Job
unfolding to_generate_request
submitted_job = record {
  request = to_generate_request (request true) default_defaults;
  events = 3;
  cancel = 3;
}

abbrev schedule : List (List Job × Bool)
schedule = (submitted_job ∷ [], false) ∷ ([], false) ∷ ([], true) ∷ ([], true) ∷ ([], true) ∷ []

abbrev final : Bool × List Job × State
final = Serve.serve runtime schedule false [] fresh

final_left : final.0 ≡ true
unfolding Serve.serve round admit take_job prefill first_token prepare build_prompt step gather_all
    decode_rows sample_rows emit flush retire is_cancelled conclude gate smooth submitted_job
final_left = refl

abbrev around : Outside
around = record (outside (received_on final.2.world 3)) { generation = ticket }

reads_request : read_request around.from_slice around.late (lane 1) ≡ ok (request true)
unfolding read_request body_in_time local_read_body read_frames parse
reads_request = refl

takes_request :
    submission plain_printer tape tape_healthy two_places default_defaults around
      (request true)
      serving
    ≡ ok ticket
unfolding submit queued
takes_request = refl

serve-through_example :
    let r = serve plain_printer tape two_places default_defaults around (lane 1) serving in
    Served runtime toy_laws plain_printer tape tape_healthy two_places 512 around
      (request true)
      serving
      r.1
      r.0
unfolding submitted_job to_generate_request
serve-through_example =
    serve-through runtime toy_laws plain_printer tape tape_healthy two_places ticket (λ w e. refl)
      512 schedule false false [] fresh (omega arith) fresh-AllFit
      (
        (λ e. cc),
        ((λ e. cc), ((λ e. (refl, refl)), ((λ e. (refl, refl)), ((λ e. (refl, refl)), tt)))),
      )
      (λ e. cc) (record { no_slot_of = refl; none_owed = refl; none_got = refl }) tt
      (((λ own. omega arith, tt), (tt, (tt, (tt, (tt, tt)))))) refl final_left default_defaults
      around (lane 1) serving (request true) refl reads_request takes_request refl
