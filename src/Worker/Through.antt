-- ===== src/Worker/Through.antt =====
-- The engine's loop behind a job of the worker: from the request to what its client reads.
use llm_worker.Base.{
  ◌<◌, ◌^◌, ℕ, ◌+◌, ◌≡◌, refl, ap, ◌∙◌, Bool, true, Text, List, [], ◌∷◌, ◌++◌, map, some,
}
use llm_worker.Engine.Exit.{Emptied}
use llm_worker.Engine.Handle.{JobQueue, Generation}
use llm_worker.Engine.Host.{Host, ChannelLaws, ok}
use llm_worker.Engine.Ledger.{waiting_for}
use llm_worker.Engine.Ordered.{Accepting}
use llm_worker.Engine.Pool.{State}
use llm_worker.Engine.Prefill.{Runtime}
use llm_worker.Engine.Serve
use llm_worker.Engine.Stream.{Counts}
use llm_worker.Engine.Stream.Goes.{Asks, AllAsk}
use llm_worker.Engine.Stream.Runs.{Unused, serve-answer}
use llm_worker.Engine.Terminals.{Ends, arrivals}
use llm_worker.Engine.Types.{Event, Job, token, done, failed}
use llm_worker.Engine.Window.{AllFit}
use llm_worker.Protocol.Frames.{read_events}
use llm_worker.Protocol.Json.{Printer}
use llm_worker.Protocol.Request.{ChatRequest, RequestDefaults}
use llm_worker.Protocol.Response.{open_chunk, token_chunk}
use llm_worker.Worker.Answer.{pieces, ending, verdict}
use llm_worker.Worker.Answered.{response_of, submission, serve-stream}
use llm_worker.Worker.Lane.{JobLane, read_request}
use llm_worker.Worker.Serve.{Outside, Serving, serve}
use llm_worker.Worker.Stream.{body_text, payload, last_payloads}
use llm_worker.Worker.Writer.{Done, RingWriter, Healthy, Write}

-- The worker reads a stream of the engine as its texts and its end.
pieces_lem :
    (limit : ℕ) (texts all : List Text) (last : Event)
    → Counts limit last all
    → (pieces (map token texts ++ last ∷ []) ≡ texts)
      × (ending (map token texts ++ last ∷ []) ≡ some last)
pieces_lem limit [] all (token text) counted = absurd counted
pieces_lem limit [] all (done stop prompt tokens ms) counted = (refl, refl)
pieces_lem limit [] all (failed error) counted = (refl, refl)
pieces_lem limit (t ∷ texts) all last counted =
    let (same, ends) = pieces_lem limit texts all last counted in (ap (λ ts. t ∷ ts) same, ends)

module _ ⦃h : Host⦄ (rt : Runtime) (laws : ChannelLaws h) (p : Printer) (ring : RingWriter)
    (healthy : Healthy ring) (queues : JobQueue) where
  open healthy use {written}

  -- What a job that streams comes to: texts, and an event that ends them, which counts them if it is a
  -- `Done`. The result of `serve` is that of the event, and the client reads the opening chunk, one chunk
  -- for each text and what the event gives.
  pub record Served (limit : ℕ) (o : Outside) (request : ChatRequest)
      (s after : Serving p ring queues) (result : Done) : Type 0 where
    pub texts : List Text
    pub last : Event
    pub counted : Counts limit last texts
    pub ends_so : result ≡ verdict p (some last)
    pub writes : List Write
    pub wrote : written after.writer ≡ written s.writer ++ writes
    pub client_reads :
        let response = response_of p ring healthy queues o request s in
        read_events (body_text writes)
        ≡ payload p request response open_chunk
          ∷ (map (λ t. payload p request response (token_chunk t)) texts
              ++ last_payloads p request response (some last))

  -- A worker serves a job whose request streams; the engine takes it, and the events that the worker
  -- reads are those that the loop of the engine gives to the channel of the generation. The channel's
  -- caller reads in time, and one request for it, which asks for `limit` tokens at most, is in the queue or
  -- arrives; the channel is not in use at the start, the slots that are taken fit the context, which has
  -- under 2^32 tokens, nothing arrives after the last sender is gone, a queue that was found closed
  -- before is empty and without senders, and the loop is left. The writer's stream stays open. Then the
  -- client gets a whole stream of chunks: it is opened, each text of the generation follows in order,
  -- and the end is a closing chunk or an error, with the end mark behind; a closing chunk stands for as
  -- many tokens as there were texts, which is `limit` at most, or two.
  pub serve-through :
      (generation : Generation) (reads : Accepting laws generation.events) (limit : ℕ)
      (later : List (List Job × Bool)) (gone was_closed : Bool) (jobs : List Job) (st : State)
      → rt.n_ctx < 2 ^ 32
      → AllFit rt st
      → Ends gone later
      → (was_closed ≡ true → Emptied gone jobs)
      → Unused rt laws generation.events reads jobs st
      → Asks generation.events limit jobs
      → AllAsk generation.events limit later
      → waiting_for generation.events jobs + arrivals generation.events later ≡ 1
      → (Serve.serve rt later was_closed jobs st).0 ≡ true
      → (defaults : RequestDefaults) (o : Outside) (lane : JobLane) (s : Serving p ring queues)
        (request : ChatRequest)
      → o.events ≡ laws.received (Serve.serve rt later was_closed jobs st).2.world generation.events
      → read_request o.from_slice o.late lane ≡ ok request
      → submission p ring healthy queues defaults o request s ≡ ok generation
      → request.stream ≡ true
      → let r = serve p ring queues defaults o lane s in Served limit o request s r.1 r.0
  serve-through generation reads limit later gone was_closed jobs st small fit ends before unused
        asks all_ask once leaves defaults o lane s request given read taken streams =
      let stream =
        serve-answer rt laws generation.events reads limit later gone was_closed jobs st small fit
          ends before unused asks all_ask once leaves in
      let response = response_of p ring healthy queues o request s in
      let (result, (writes, wrote, data_read)) =
        serve-stream p ring healthy queues defaults o lane s request generation read taken
          streams in
      let events : o.events ≡ map token stream.texts ++ stream.last ∷ [] = given ∙ stream.shape in
      let (texts, last) = pieces_lem limit stream.texts stream.texts stream.last stream.counted in
      let at_end : ending o.events ≡ some stream.last = ap ending events ∙ last in
      let at_texts : pieces o.events ≡ stream.texts = ap pieces events ∙ texts in
      record {
        texts = stream.texts;
        last = stream.last;
        counted = stream.counted;
        ends_so = result ∙ ap (verdict p) at_end;
        writes = writes;
        wrote = wrote;
        client_reads =
            data_read
            ∙ ap
                (λ ts.
                  payload p request response open_chunk
                  ∷ (map (λ t. payload p request response (token_chunk t)) ts
                      ++ last_payloads p request response (ending o.events)))
                at_texts
            ∙ ap
                (λ e.
                  payload p request response open_chunk
                  ∷ (map (λ t. payload p request response (token_chunk t)) stream.texts
                      ++ last_payloads p request response e))
                at_end;
      }
