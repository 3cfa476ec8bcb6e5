-- ===== src/Tests/Alikes.antt =====
-- A request with and without a stream, at the tests' worker.
use llm_worker.Base.{◌≡◌, refl, ◌++◌, ◌∷◌, [], List, map, false}
use llm_worker.Engine.Types.{end_of_generation}
use llm_worker.Protocol.Frames.{read_events}
use llm_worker.Protocol.Json.{Json}
use llm_worker.Protocol.Reader.{read_chunks, read_whole, nothing_read}
use llm_worker.Protocol.Request.{default_defaults, include_usage}
use llm_worker.Protocol.Response.{done_mark}
use llm_worker.Tests.Printing.{plain_printer}
use llm_worker.Tests.Workers.{
  two_places, tape, tape_healthy, request, outside, two_tokens, lane, serving, generation, reads,
  served, taken,
}
use llm_worker.Worker.Alike.{if_asked, serve-alike}
use llm_worker.Worker.Stream.{body_text}
use llm_worker.Worker.Writer.{Write}

serve-alike_example :
    (streamed whole : List Write) × (js : List Json) × (j : Json) × ((served 1 two_tokens).1.writer
      ≡ streamed)
    × ((served 0 two_tokens).1.writer ≡ whole)
    × (read_events (body_text streamed) ≡ map plain_printer.to_string js ++ done_mark ∷ [])
    × (body_text whole ≡ plain_printer.to_string j)
    × (read_chunks nothing_read js ≡ if_asked false (read_whole j))
unfolding include_usage
serve-alike_example =
    serve-alike plain_printer tape tape_healthy two_places default_defaults (outside two_tokens)
      serving (request false) generation (lane 1) (lane 0) end_of_generation 3 2 7
      (reads 1 two_tokens) (reads 0 two_tokens) (taken false two_tokens) refl
