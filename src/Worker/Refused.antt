-- ===== src/Worker/Refused.antt =====
-- What a job of llm-worker/src/worker.rs is answered with when nothing is generated for it.
use llm_worker.Base.{Text, ◌≡◌, refl, ap, ◌∙◌, codes, ◌++◌}
use llm_worker.Engine.Handle.{JobQueue, capacity, submit-refused}
use llm_worker.Engine.Host.{ok, err}
use llm_worker.Protocol.Json.{Printer}
use llm_worker.Protocol.Request.{ChatRequest, RequestDefaults, to_generate_request}
use llm_worker.Protocol.Response.{error_body}
use llm_worker.Worker.Answer.{json_answer}
use llm_worker.Worker.Answered.{response_of, serve_lem, submission}
use llm_worker.Worker.Lane.{JobLane, read_request}
use llm_worker.Worker.Serve.{Outside, Serving, serve, serve_request}
use llm_worker.Worker.Whole.{submitted_writes, submitted_verdict}
use llm_worker.Worker.Writer.{RingWriter, Healthy}

module _ (p : Printer) (ring : RingWriter) (healthy : Healthy ring) (queues : JobQueue) where
  open healthy use {written}

  -- A request that cannot be read is answered with status 400 and the error's message, when the
  -- writer's stream stays open; the engine is not asked and no id is spent.
  pub serve-rejected :
      (defaults : RequestDefaults) (o : Outside) (lane : JobLane) (s : Serving p ring queues)
      (error : Text)
      → read_request o.from_slice o.late lane ≡ err error
      → let r = serve p ring queues defaults o lane s in
        (r.0 ≡ ok tt)
        × (written r.1.writer
            ≡ written s.writer
              ++ json_answer 400 (error_body p error (codes "invalid_request_error")))
        × (r.1.engine ≡ s.engine)
        × (r.1.counter ≡ s.counter)
  unfolding serve
  serve-rejected defaults o lane s error read =
      let (result, writes) = serve_lem p ring healthy queues defaults o lane s (err error) read in
      (result, writes, rw (read, serve) refl, rw (read, serve) refl)

  -- A request that the engine refuses is answered with status 503 and the refusal's message, when the
  -- writer's stream stays open, and the engine's capacity is what it was.
  pub serve-overloaded :
      (defaults : RequestDefaults) (o : Outside) (lane : JobLane) (s : Serving p ring queues)
      (request : ChatRequest) (error : Text)
      → read_request o.from_slice o.late lane ≡ ok request
      → submission p ring healthy queues defaults o request s ≡ err error
      → let r = serve p ring queues defaults o lane s in
        (r.0 ≡ ok tt)
        × (written r.1.writer
            ≡ written s.writer ++ json_answer 503 (error_body p error (codes "overloaded_error")))
        × (capacity queues r.1.engine ≡ capacity queues s.engine)
  unfolding serve serve_request
  serve-overloaded defaults o lane s request error read refused =
      let (result, writes) = serve_lem p ring healthy queues defaults o lane s (ok request) read in
      let response = response_of p ring healthy queues o request s in
      (
        result ∙ ap (submitted_verdict p o.events) refused,
        writes
            ∙ ap (λ g. written s.writer ++ submitted_writes p request response o.events g) refused,
        rw (read, serve)
            (submit-refused queues (to_generate_request request defaults) o.generation s.engine
              error refused),
      )
