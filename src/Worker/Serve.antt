-- ===== src/Worker/Serve.antt =====
-- llm-worker/src/worker.rs: `LlmWorker::serve`.
use llm_worker.Base.{ℕ, Text, codes, Bool, true, false, List, [], ◌∷◌, ◌++◌, Option, none, some}
use llm_worker.Engine.Types.{Event, token, done, failed, Stop}
use llm_worker.Engine.Host.{Outcome, ok, err}
use llm_worker.Engine.Handle.{JobQueue, Inner, Generation, drop, submit}
use llm_worker.Protocol.Json.{Printer}
use llm_worker.Protocol.Request.{
  ChatRequest, RequestDefaults, include_usage, model_name, to_generate_request,
}
use llm_worker.Protocol.Response.{
  ResponseWriter, Usage, new_usage, stream_open, stream_token, stream_close, completion,
  error_frame,
}
use llm_worker.Worker.Ids.{next_completion_id}
use llm_worker.Worker.Lane.{JobLane, read_request}
use llm_worker.Worker.Writer.{
  Done, RingWriter, response_head, sse_content_type, and_then, write_json, write_error,
}

-- `include_usage().then_some(usage)`
abbrev pub then_some : Bool → Usage → Option Usage
then_some true usage = some usage
then_some false usage = none

module _ (p : Printer) (ring : RingWriter) where
  open ring use {Writer, ensure_started, send_body, finish}

  -- The head and the first chunk, for a request that streams.
  unfoldable pub open_stream : ChatRequest → ResponseWriter → Writer → Done × Writer
  unfolding and_then
  open_stream request response w = elim request.stream [
    | true ↦
        and_then (ensure_started w (response_head 200 sse_content_type))
          (λ w. send_body w (stream_open p response))
    | false ↦ (ok tt, w)
  ]

  unfoldable pub conclude_done :
      ChatRequest → ResponseWriter → Text → Stop → Usage → Writer → Done × Writer
  unfolding and_then include_usage
  conclude_done request response text stop usage w = elim request.stream [
    | true ↦
        and_then
          (send_body w (stream_close p response stop (then_some (include_usage request) usage)))
          (λ w. finish w)
    | false ↦ write_json p ring 200 (completion p response text stop usage) w
  ]

  unfoldable pub conclude_failed : ChatRequest → Text → Writer → Done × Writer
  unfolding and_then
  conclude_failed request error w =
      and_then
        (elim request.stream [
          | true ↦ and_then (send_body w (error_frame p error)) (λ w. finish w)
          | false ↦ write_error p ring 500 error w
        ])
        (λ w. (err error, w))

  -- The loop. The list is what `recv` gives, one call after another, until it gives `None`; `text` is
  -- what an answer that does not stream has gathered.
  unfoldable pub relay : ChatRequest → ResponseWriter → Text → List Event → Writer → Done × Writer
  unfolding and_then conclude_done conclude_failed
  relay request response text [] w = (err (codes "engine closed the stream without finishing"), w)
  relay request response text (token piece ∷ events) w = elim request.stream [
    | true ↦
        and_then (send_body w (stream_token p response piece))
          (λ w. relay request response text events w)
    | false ↦ relay request response (text ++ piece) events w
  ]
  relay request response text (done stop prompt_tokens tokens elapsed ∷ events) w =
      conclude_done request response text stop (new_usage prompt_tokens tokens) w
  relay request response text (failed error ∷ events) w = conclude_failed request error w

  -- What follows a submission that is accepted.
  unfoldable pub respond : ChatRequest → ResponseWriter → List Event → Writer → Done × Writer
  unfolding and_then open_stream relay
  respond request response events w =
      and_then (open_stream request response w) (λ w. relay request response [] events w)

  unfoldable pub answer :
      ChatRequest → ResponseWriter → List Event → Outcome Generation → Writer → Done × Writer
  unfolding respond
  answer request response events (ok generation) w = respond request response events w
  answer request response events (err error) w = write_error p ring 503 error w

-- Outside the worker: the JSON parser, the text of a timeout, the clock's reading in milliseconds and
-- in seconds, the channel that a submission gets, and the events that it delivers.
pub record Outside : Type 0 where
  pub from_slice : List ℕ → Outcome ChatRequest
  pub late : Text
  pub started : ℕ
  pub created : ℕ
  pub generation : Generation
  pub events : List Event

-- A generation is dropped when `serve` returns, and `Generation::drop` cancels it.
abbrev pub drop_generation : Outcome Generation → List ℕ → List ℕ
drop_generation (ok generation) cancelled = drop generation cancelled
drop_generation (err error) cancelled = cancelled

module _ (p : Printer) (ring : RingWriter) (queues : JobQueue) where
  -- The worker as one job sees it: its writer, the engine's handle, the counter of ids, and the cancel
  -- flags of the generations that are dropped.
  pub record Serving : Type 0 where
    pub writer : ring.Writer
    pub engine : Inner queues
    pub counter : ℕ
    pub cancelled : List ℕ

  unfoldable pub serve_request : RequestDefaults → Outside → ChatRequest → Serving → Done × Serving
  unfolding next_completion_id answer
  serve_request defaults o request s =
      let (id, counter) = next_completion_id o.started s.counter in
      let response : ResponseWriter = record {
        id = id;
        model = model_name request;
        created = o.created;
      } in
      let (submitted, engine) =
        submit queues (to_generate_request request defaults) o.generation s.engine in
      let (result, writer) = answer p ring request response o.events submitted s.writer in
      (
        result,
        record {
          writer = writer;
          engine = engine;
          counter = counter;
          cancelled = drop_generation submitted s.cancelled;
        },
      )

  unfoldable pub serve : RequestDefaults → Outside → JobLane → Serving → Done × Serving
  unfolding serve_request
  serve defaults o lane s = elim (read_request o.from_slice o.late lane) [
    | ok request ↦ serve_request defaults o request s
    | err error ↦
        let (result, writer) = write_error p ring 400 error s.writer in
        (result, record s { writer = writer })
  ]
