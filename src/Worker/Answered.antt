-- ===== src/Worker/Answered.antt =====
-- What a job of llm-worker/src/worker.rs is answered with, on every branch of `serve`.
use llm_worker.Base.{
  concat, ℕ, ◌≡◌, ◌≢◌, refl, ap, ◌∙◌, codes, true, false, List, ◌++◌, append-nil, none, some,
}
use llm_worker.Engine.Types.{Event, done, Stop}
use llm_worker.Engine.Handle.{JobQueue, Generation, submit}
use llm_worker.Engine.Host.{Outcome, ok, err}
use llm_worker.Protocol.Frames.{read_events}
use llm_worker.Protocol.Json.{Printer}
use llm_worker.Protocol.Request.{ChatRequest, RequestDefaults, model_name, to_generate_request}
use llm_worker.Protocol.Response.{ResponseWriter, error_body, completion, new_usage}
use llm_worker.Worker.Answer.{
  Gives, answer_writes, ending, first_writes, last_writes, piece_writes, pieces, verdict,
  json_answer, write_error_lem,
}
use llm_worker.Worker.Ids.{next_completion_id}
use llm_worker.Worker.Lane.{JobLane, read_request}
use llm_worker.Worker.Relay.{respond_lem}
use llm_worker.Worker.Serve.{Outside, Serving, answer, serve, serve_request}
use llm_worker.Worker.Stream.{body_text, payloads, read_events-answer_writes}
use llm_worker.Worker.Whole.{
  IsAnswer, last, whole, submitted_writes, submitted_verdict, submitted_writes-IsAnswer,
}
use llm_worker.Worker.Writer.{Done, Write, RingWriter, Healthy, error_kind}

module _ (p : Printer) (ring : RingWriter) (healthy : Healthy ring) (queues : JobQueue) where
  open healthy use {written}

  abbrev pub response_of : Outside → ChatRequest → Serving p ring queues → ResponseWriter
  response_of o request s = record {
    id = (next_completion_id o.started s.counter).0;
    model = model_name request;
    created = o.created;
  }

  abbrev pub submission :
      RequestDefaults → Outside → ChatRequest → Serving p ring queues → Outcome Generation
  submission defaults o request s =
      (submit queues (to_generate_request request defaults) o.generation s.engine).0

  abbrev pub request_writes :
      RequestDefaults → Outside → Serving p ring queues → Outcome ChatRequest → List Write
  request_writes defaults o s (ok request) =
      submitted_writes p request (response_of o request s) o.events
        (submission defaults o request s)
  request_writes defaults o s (err error) =
      json_answer 400 (error_body p error (codes "invalid_request_error"))

  abbrev pub request_verdict :
      RequestDefaults → Outside → Serving p ring queues → Outcome ChatRequest → Done
  request_verdict defaults o s (ok request) =
      submitted_verdict p o.events (submission defaults o request s)
  request_verdict defaults o s (err error) = ok tt

  answer_lem :
      (request : ChatRequest) (response : ResponseWriter) (events : List Event)
      (submitted : Outcome Generation) (w : ring.Writer)
      → Gives p ring healthy
          (answer p ring request response events submitted w)
          (submitted_verdict p events submitted)
          (submitted_writes p request response events submitted)
          w
  unfolding answer error_kind
  answer_lem request response events (ok generation) w =
      respond_lem p ring healthy request response events w
  answer_lem request response events (err error) w = write_error_lem p ring healthy 503 error w

  pub serve_lem :
      (defaults : RequestDefaults) (o : Outside) (lane : JobLane) (s : Serving p ring queues)
      (read : Outcome ChatRequest)
      → read_request o.from_slice o.late lane ≡ read
      → ((serve p ring queues defaults o lane s).0 ≡ request_verdict defaults o s read)
        × (written (serve p ring queues defaults o lane s).1.writer
            ≡ written s.writer ++ request_writes defaults o s read)
  unfolding serve serve_request error_kind
  serve_lem defaults o lane s (ok request) h =
      rw (h, serve)
        (answer_lem request (response_of o request s) o.events (submission defaults o request s)
          s.writer)
  serve_lem defaults o lane s (err error) h =
      rw (h, serve) (write_error_lem p ring healthy 400 error s.writer)

  request_writes-IsAnswer :
      (defaults : RequestDefaults) (o : Outside) (s : Serving p ring queues)
      (read : Outcome ChatRequest)
      → ending o.events ≢ none
      → IsAnswer (request_writes defaults o s read)
  request_writes-IsAnswer defaults o s (ok request) ends =
      submitted_writes-IsAnswer p request _ o.events (submission defaults o request s) ends
  request_writes-IsAnswer defaults o s (err error) ends = whole _ (last _)

  -- Whatever the lane holds and whatever the engine says, when the events of the generation come to a
  -- `Done` or a `Failed` and the writer's stream stays open, what `serve` writes is a whole answer: one
  -- head, then at least one part of a body, then `finish`, and nothing after it.
  pub serve-IsAnswer :
      (defaults : RequestDefaults) (o : Outside) (lane : JobLane) (s : Serving p ring queues)
      → ending o.events ≢ none
      → (writes : List Write) × (written (serve p ring queues defaults o lane s).1.writer
          ≡ written s.writer ++ writes)
        × IsAnswer writes
  serve-IsAnswer defaults o lane s ends =
      let read = read_request o.from_slice o.late lane in
      (
        request_writes defaults o s read,
        (serve_lem defaults o lane s read refl).1,
        request_writes-IsAnswer defaults o s read ends,
      )

  module _ (defaults : RequestDefaults) (o : Outside) (lane : JobLane) (s : Serving p ring queues)
      (request : ChatRequest) (generation : Generation)
      (read : read_request o.from_slice o.late lane ≡ ok request)
      (taken : submission defaults o request s ≡ ok generation) where
    accepted_lem :
        ((serve p ring queues defaults o lane s).0 ≡ verdict p (ending o.events))
        × (written (serve p ring queues defaults o lane s).1.writer
            ≡ written s.writer ++ answer_writes p request (response_of o request s) o.events)
    accepted_lem =
        let (result, writes) = serve_lem defaults o lane s (ok request) read in
        (
          result ∙ ap (submitted_verdict p o.events) taken,
          writes
              ∙ ap
                  (λ g.
                    written s.writer
                    ++ submitted_writes p request (response_of o request s) o.events g)
                  taken,
        )

    -- The request streams, the engine takes it, and the writer's stream stays open. The result of `serve` is that of the generation,
    -- and a client that reads the body of what `serve` writes as server-sent events gets the opening
    -- chunk, one chunk for each token in order and then, if the generation ends, the closing chunk or
    -- the error, and the end mark of a stream.
    pub serve-stream :
        request.stream ≡ true
        → ((serve p ring queues defaults o lane s).0 ≡ verdict p (ending o.events))
          × ((writes : List Write) × (written (serve p ring queues defaults o lane s).1.writer
                ≡ written s.writer ++ writes)
              × (read_events (body_text writes)
                  ≡ payloads p request (response_of o request s) o.events))
    serve-stream streams =
        let response = response_of o request s in
        let (result, writes) = accepted_lem in
        (
          result,
          (
            answer_writes p request response o.events,
            writes,
            read_events-answer_writes p request response o.events streams,
          ),
        )

    -- The request does not stream, the engine takes it, the generation ends with a `Done` and the
    -- writer's stream stays open. One
    -- answer in JSON is written, its status 200 and its text that of all tokens in order.
    pub serve-buffer :
        (stop : Stop) (prompt tokens elapsed : ℕ)
        → request.stream ≡ false
        → ending o.events ≡ some (done stop prompt tokens elapsed)
        → ((serve p ring queues defaults o lane s).0 ≡ ok tt)
          × (written (serve p ring queues defaults o lane s).1.writer
              ≡ written s.writer
                ++ json_answer 200 (
                    completion p
                      (response_of o request s)
                      (concat (pieces o.events))
                      stop
                      (new_usage prompt tokens)))
    serve-buffer stop prompt tokens elapsed buffers ends =
        let response = response_of o request s in
        let (result, writes) = accepted_lem in
        (
          result ∙ ap (verdict p) ends,
          writes
              ∙ ap
                  (λ b.
                    written s.writer
                    ++ (first_writes p b response
                        ++ (piece_writes p b response (pieces o.events)
                            ++ last_writes p request response (concat (pieces o.events))
                                (ending o.events))))
                  buffers
              ∙ ap
                  (λ e.
                    written s.writer ++ last_writes p request response (concat (pieces o.events)) e)
                  ends
              ∙ rw buffers refl,
        )

    -- The request does not stream, the engine takes it and the events stop without a `Done` or a
    -- `Failed`. `serve` fails and the client gets no answer: nothing is written.
    pub serve-silent :
        request.stream ≡ false
        → ending o.events ≡ none
        → ((serve p ring queues defaults o lane s).0
            ≡ err (codes "engine closed the stream without finishing"))
          × (written (serve p ring queues defaults o lane s).1.writer ≡ written s.writer)
    serve-silent buffers ends =
        let response = response_of o request s in
        let (result, writes) = accepted_lem in
        (
          result ∙ ap (verdict p) ends,
          writes
              ∙ ap
                  (λ b.
                    written s.writer
                    ++ (first_writes p b response
                        ++ (piece_writes p b response (pieces o.events)
                            ++ last_writes p request response (concat (pieces o.events))
                                (ending o.events))))
                  buffers
              ∙ ap
                  (λ e.
                    written s.writer ++ last_writes p request response (concat (pieces o.events)) e)
                  ends
              ∙ append-nil (written s.writer),
        )
