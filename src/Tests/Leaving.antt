-- ===== src/Tests/Leaving.antt =====
-- A client that goes away after the first token of its answer.
use llm_worker.Base.{◌≡◌, refl, true, none, ltb, length, codes, List, [], ◌∷◌, ◌++◌, if◌then◌else◌}
use llm_worker.Engine.Handle.{submit, queued}
use llm_worker.Engine.Host.{ok, err}
use llm_worker.Protocol.Request.{default_defaults, include_usage}
use llm_worker.Protocol.Response.{ResponseWriter, stream_open, stream_token, stream_close}
use llm_worker.Tests.Printing.{plain_printer}
use llm_worker.Tests.Workers.{
  two_places, inner, outside, lane, request, reads, generation, two_tokens,
}
use llm_worker.Worker.Gone.{performed, performs, chat_response, serve-gone}
use llm_worker.Engine.Types.{end_of_generation}
use llm_worker.Worker.Serve.{Serving, serve}
use llm_worker.Worker.Writer.{
  Done, RingWriter, Write, started, sent_body, finished, response_head, sse_content_type,
}

-- Three writes are taken.
abbrev take : List Write → Write → Done × List Write
take w write =
    if ltb (length w) 3 then (ok tt, w ++ write ∷ []) else (err (codes "stream closed"), w)

abbrev fragile : RingWriter
fragile = record {
  Writer = List Write;
  ensure_started = λ w head. take w (started head);
  send_body = λ w t. take w (sent_body t);
  finish = λ w. take w finished;
}

abbrev job : Serving plain_printer fragile two_places
job = record { writer = []; engine = inner; counter = 0; cancelled = [] }

abbrev response : ResponseWriter
response = chat_response plain_printer fragile two_places (outside two_tokens) (request true) job

abbrev opened : List Write
opened =
    started (response_head 200 sse_content_type)
    ∷ sent_body (stream_open plain_printer response)
    ∷ []

abbrev one_token : List Write
one_token = opened ++ sent_body (stream_token plain_printer response (codes "he\n")) ∷ []

abbrev run : Done × Serving plain_printer fragile two_places
run = serve plain_printer fragile two_places default_defaults (outside two_tokens) (lane 1) job

abbrev failing : Write
failing = sent_body (stream_token plain_printer response (codes "llo"))

-- What would still be written.
abbrev unwritten : List Write
unwritten = sent_body (stream_close plain_printer response end_of_generation none) ∷ finished ∷ []

serve-gone_example :
    (run.0 ≡ err (codes "stream closed")) × (run.1.writer ≡ one_token) × (run.1.cancelled ≡ 2 ∷ [])
unfolding submit queued include_usage
serve-gone_example =
    serve-gone plain_printer fragile two_places default_defaults (outside two_tokens) (lane 1) job
      (request true) generation one_token unwritten failing (codes "stream closed") one_token
      (reads 1 two_tokens) refl refl refl (performs refl (performs refl (performs refl performed)))
      refl
