-- ===== src/Tests/Refusals.antt =====
-- A job that is answered without a generation, at concrete inputs.
use llm_worker.Base.{◌≡◌, refl, codes, [], some, none, true}
use llm_worker.Engine.Handle.{Inner, capacity, submit, queued}
use llm_worker.Engine.Host.{ok}
use llm_worker.Protocol.Request.{default_defaults, parse}
use llm_worker.Protocol.Response.{error_body}
use llm_worker.Tests.Printing.{plain_printer}
use llm_worker.Tests.Workers.{
  tape, tape_healthy, two_places, inner, outside, lane, request, reads, two_tokens,
}
use llm_worker.Worker.Answer.{json_answer}
use llm_worker.Worker.Lane.{JobLane, read_request, body_in_time}
use llm_worker.Worker.Refused.{serve-rejected, serve-overloaded}
use llm_worker.Worker.Serve.{Serving, serve}
use llm_worker.Worker.Writer.{Done}

-- A request without a body, and an engine that has shut down.
abbrev empty_lane : JobLane
empty_lane = record { request_head = ok (some tt); read_body = ok []; in_time = true }

abbrev shut : Inner two_places
shut = record inner { jobs = none }

abbrev job : Serving plain_printer tape two_places
job = record { writer = []; engine = shut; counter = 7; cancelled = [] }

abbrev rejected : Done × Serving plain_printer tape two_places
rejected = serve plain_printer tape two_places default_defaults (outside two_tokens) empty_lane job

abbrev overloaded : Done × Serving plain_printer tape two_places
overloaded = serve plain_printer tape two_places default_defaults (outside two_tokens) (lane 1) job

serve-rejected_example :
    (rejected.0 ≡ ok tt)
    × (rejected.1.writer
        ≡ json_answer 400 (
            error_body plain_printer
              (codes "EOF while parsing a value")
              (codes "invalid_request_error")))
    × (rejected.1.engine ≡ shut)
    × (rejected.1.counter ≡ 7)
unfolding read_request body_in_time parse
serve-rejected_example =
    serve-rejected plain_printer tape tape_healthy two_places default_defaults (outside two_tokens)
      empty_lane job (codes "EOF while parsing a value") refl

serve-overloaded_example :
    (overloaded.0 ≡ ok tt)
    × (overloaded.1.writer
        ≡ json_answer 503
            (error_body plain_printer (codes "engine has shut down") (codes "overloaded_error")))
    × (capacity two_places overloaded.1.engine ≡ capacity two_places shut)
unfolding submit queued
serve-overloaded_example =
    serve-overloaded plain_printer tape tape_healthy two_places default_defaults
      (outside two_tokens) (lane 1) job (request true) (codes "engine has shut down")
      (reads 1 two_tokens) refl
