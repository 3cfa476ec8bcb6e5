-- ===== src/Tests/Jobs.antt =====
-- A local and a remote job with one request, and the body of a lane.
use llm_worker.Base.{◌≡◌, refl, [], ◌∷◌, List, codes, true, some}
use llm_worker.Engine.Host.{Outcome, ok, err}
use llm_worker.Protocol.Request.{default_defaults}
use llm_worker.Tests.Printing.{plain_printer}
use llm_worker.Tests.Workers.{two_places, tape, tape_healthy, outside, two_tokens, frames, serving}
use llm_worker.Worker.Body.{read_body_lem}
use llm_worker.Worker.Jobs.{
  LocalJob, RemoteJob, WriterTarget, process_local, process_remote, process-alike,
}
use llm_worker.Worker.Lane.{SourceFrame, body, end, other, local_read_body, remote_read_body}
use llm_worker.Worker.Writer.{Write}

abbrev near : LocalJob
near = record {
  request = ok (some tt);
  source_reader_from = λ index poll. frames 1;
  stream_id = 4;
  slot_bytes = 65536;
  service = 1;
}

abbrev far : RemoteJob
far = record {
  request = ok (some tt);
  source_reader_from = λ index poll. frames 1;
  origin = codes "https://ingress";
  stream_id = 4;
  slot_bytes = 65536;
  client = 2;
}

abbrev blank : WriterTarget → List Write
blank target = []

process-alike_example :
    let r₁ =
      process_local plain_printer tape two_places blank default_defaults
        (outside two_tokens)
        10
        true
        near
        serving in
    let r₂ =
      process_remote plain_printer tape two_places blank default_defaults
        (outside two_tokens)
        10
        true
        far
        serving in
    (r₁.0 ≡ r₂.0) × (r₁.1.writer ≡ r₂.1.writer)
process-alike_example =
    process-alike plain_printer tape two_places blank tape_healthy default_defaults
      (outside two_tokens) 10 true near far serving refl refl refl

-- An error behind the end plays no part.
abbrev chunked : List (Outcome SourceFrame)
chunked = ok (body (1 ∷ [])) ∷ ok other ∷ ok (body (2 ∷ [])) ∷ ok end ∷ err (codes "late") ∷ []

read_body_lem_example :
    (local_read_body chunked ≡ ok (1 ∷ 2 ∷ [])) × (remote_read_body chunked ≡ ok (1 ∷ 2 ∷ []))
read_body_lem_example = read_body_lem chunked
