-- ===== src/Worker/Alike.antt =====
-- llm-worker/src/worker.rs: an answer that streams and one that does not say the same.
use llm_worker.Base.{
  concat, ℕ, ◌≡◌, refl, sym, ap, ◌∙◌, Text, Bool, true, false, List, [], ◌∷◌, ◌++◌, map, append-nil,
  none, some, if◌then◌else◌,
}
use llm_worker.Engine.Handle.{JobQueue, Generation}
use llm_worker.Engine.Host.{ok}
use llm_worker.Engine.Types.{Event, Stop, done}
use llm_worker.Protocol.Frames.{read_events}
use llm_worker.Protocol.Json.{Json, null, Printer}
use llm_worker.Protocol.Reader.{
  Reading, read_chunks, read_chunks_lem, read_whole, nothing_read, chunks,
}
use llm_worker.Protocol.Request.{
  ChatRequest, RequestDefaults, include_usage, model_name, to_generate_request,
}
use llm_worker.Protocol.Response.{
  ResponseWriter, Usage, chunk_json, open_chunk, token_chunk, close_chunk, completion,
  completion_json, done_mark, new_usage, usage_json,
}
use llm_worker.Worker.Answer.{pieces, ending, json_answer}
use llm_worker.Worker.Answered.{response_of, submission, serve-stream, serve-buffer}
use llm_worker.Worker.Lane.{JobLane, read_request}
use llm_worker.Worker.Serve.{Outside, Serving, serve, then_some}
use llm_worker.Worker.Stream.{body_text, payloads, payload}
use llm_worker.Worker.Writer.{RingWriter, Healthy, Write}

-- The usage of a streamed answer, which is sent only when it is asked for.
abbrev pub if_asked : Bool → Reading → Reading
if_asked asked r = record r { usage = if asked then r.usage else null }

module _ (p : Printer) where
  printed_tokens :
      (w : ResponseWriter) (texts : List Text) (last : Json)
      → map p.to_string (map (λ t. chunk_json w (token_chunk t)) texts ++ last ∷ [])
          ++ done_mark ∷ []
        ≡ map (λ t. p.to_string (chunk_json w (token_chunk t))) texts
          ++ p.to_string last ∷ done_mark ∷ []
  printed_tokens w [] last = refl
  printed_tokens w (t ∷ texts) last =
      ap (λ ts. p.to_string (chunk_json w (token_chunk t)) ∷ ts) (printed_tokens w texts last)

  payloads-chunks :
      (request : ChatRequest) (w : ResponseWriter) (events : List Event) (stop : Stop)
      (prompt tokens elapsed : ℕ)
      → ending events ≡ some (done stop prompt tokens elapsed)
      → payloads p request w events
        ≡ map p.to_string (
            chunks w
              (pieces events)
              stop
              (then_some (include_usage request) (new_usage prompt tokens)))
          ++ done_mark ∷ []
  payloads-chunks request w events stop prompt tokens elapsed ends = rw ends (
      ap (λ ts. payload p request w open_chunk ∷ ts)
        (sym (
          printed_tokens w (pieces events) (
            chunk_json w
              (close_chunk stop (then_some (include_usage request) (new_usage prompt tokens)))))))

  reading_alike :
      (w : ResponseWriter) (texts : List Text) (stop : Stop) (usage : Usage) (asked : Bool)
      → read_chunks nothing_read (chunks w texts stop (then_some asked usage))
        ≡ if_asked asked (read_whole (completion_json w (concat texts) stop usage))
  unfolding completion_json usage_json
  reading_alike w texts stop usage true = read_chunks_lem w texts stop (some usage) usage
  reading_alike w texts stop usage false = read_chunks_lem w texts stop none usage

  module _ (ring : RingWriter) (healthy : Healthy ring) (queues : JobQueue) where
    open healthy use {written}

    -- Two requests differ only in that one streams and the other does not, and each is served from the
    -- same state, by an engine that takes it and gives the same events, up to a `Done`; the writer's
    -- stream stays open. The client of the first reads objects and then the end mark as server-sent
    -- events, the client of the second one object as the body. From the chunks, put together, the first
    -- learns what the second does: the same id, time and model, the same role, the same text and the
    -- same reason for the end, and the same usage if it asked for it, else none.
    pub serve-alike :
        (defaults : RequestDefaults) (o : Outside) (s : Serving p ring queues)
        (request : ChatRequest) (generation : Generation) (streaming buffering : JobLane)
        (stop : Stop) (prompt tokens elapsed : ℕ)
        → read_request o.from_slice o.late streaming ≡ ok (record request { stream = true })
        → read_request o.from_slice o.late buffering ≡ ok (record request { stream = false })
        → submission p ring healthy queues defaults o request s ≡ ok generation
        → ending o.events ≡ some (done stop prompt tokens elapsed)
        → (streamed whole : List Write) × (js : List Json) × (j : Json) × (written
              (serve p ring queues defaults o streaming s).1.writer
            ≡ written s.writer ++ streamed)
          × (written (serve p ring queues defaults o buffering s).1.writer
              ≡ written s.writer ++ whole)
          × (read_events (body_text streamed) ≡ map p.to_string js ++ done_mark ∷ [])
          × (body_text whole ≡ p.to_string j)
          × (read_chunks nothing_read js ≡ if_asked (include_usage request) (read_whole j))
    unfolding to_generate_request model_name include_usage completion
    serve-alike defaults o s request generation streaming buffering stop prompt tokens elapsed
          reads_stream reads_buffer taken ends =
        let streams : ChatRequest = record request { stream = true } in
        let buffers : ChatRequest = record request { stream = false } in
        let w = response_of p ring healthy queues o request s in
        let usage = new_usage prompt tokens in
        let texts = pieces o.events in
        let (_, (streamed, wrote_stream, events)) =
          serve-stream p ring healthy queues defaults o streaming s streams generation reads_stream
            taken refl in
        let (_, wrote_whole) =
          serve-buffer p ring healthy queues defaults o buffering s buffers generation reads_buffer
            taken stop prompt tokens elapsed refl ends in
        (
          streamed,
          json_answer 200 (completion p w (concat texts) stop usage),
          chunks w texts stop (then_some (include_usage request) usage),
          completion_json w (concat texts) stop usage,
          wrote_stream,
          wrote_whole,
          events ∙ payloads-chunks streams w o.events stop prompt tokens elapsed ends,
          append-nil (completion p w (concat texts) stop usage),
          reading_alike w texts stop usage (include_usage request),
        )
