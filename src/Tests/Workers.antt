-- ===== src/Tests/Workers.antt =====
-- A job of the worker at concrete inputs.
use llm_worker.Base.{
  ℕ, ◌+◌, ◌≡◌, ◌≢◌, refl, ltb, Text, codes, Bool, true, false, List, [], ◌∷◌, ◌++◌, length,
  length-append, ◌-◌, ◌⊎◌, none, some, arith,
}
use llm_worker.Engine.Types.{Event, token, done, end_of_generation, Job, default_request, ModelInfo}
use llm_worker.Engine.Handle.{
  JobQueue, Inner, Generation, Counted, capacity, queued, submit, submit-capacity, waiting_in,
}
use llm_worker.Engine.Host.{Outcome, ok, err, Sent, sent, full}
use llm_worker.Protocol.Frames.{read_events}
use llm_worker.Protocol.Request.{ChatRequest, default_defaults, parse, plain}
use llm_worker.Protocol.Response.{ResponseWriter, completion, new_usage}
use llm_worker.Tests.Printing.{plain_printer}
use llm_worker.Worker.Answer.{json_answer}
use llm_worker.Worker.Answered.{
  response_of, serve-IsAnswer, serve-stream, serve-buffer, serve-silent, submission,
}
use llm_worker.Worker.Lane.{
  JobLane, body, body_in_time, end, other, read_frames, read_request, local_read_body, SourceFrame,
}
use llm_worker.Worker.Serve.{Outside, Serving, serve}
use llm_worker.Worker.Stream.{body_text, payloads}
use llm_worker.Worker.Whole.{IsAnswer}
use llm_worker.Worker.Writer.{Done, RingWriter, Healthy, Write, started, sent_body, finished}

-- A queue of two places.
abbrev pub placed : Bool → List Job → Job → Sent × List Job
placed true q job = (sent, q ++ job ∷ [])
placed false q job = (full, q)

pub placed_sent :
    (b : Bool) (q : List Job) (job : Job)
    → (placed b q job).0 ≡ sent
    → length (placed b q job).1 ≡ length q + 1
placed_sent true q job h = length-append q (job ∷ [])
placed_sent false q job h = ground arith

pub placed_refused :
    (b : Bool) (q : List Job) (job : Job)
    → (placed b q job).0 ≢ sent
    → length (placed b q job).1 ≡ length q
placed_refused true q job h = absurd (h refl)
placed_refused false q job h = refl

abbrev pub has_place : List Job → Bool
has_place q = ltb (length q) 2

abbrev pub two_places : JobQueue
two_places = record {
  Queue = List Job;
  try_send = λ q. placed (has_place q) q;
  waiting = length;
  waiting_sent = λ q. placed_sent (has_place q) q;
  waiting_refused = λ q. placed_refused (has_place q) q;
}

-- A writer that keeps what is written.
abbrev pub tape : RingWriter
tape = record {
  Writer = List Write;
  ensure_started = λ w head. (ok tt, w ++ started head ∷ []);
  send_body = λ w t. (ok tt, w ++ sent_body t ∷ []);
  finish = λ w. (ok tt, w ++ finished ∷ []);
}

abbrev pub tape_healthy : Healthy tape
tape_healthy = record {
  written = λ w. w;
  starts = λ w head. refl;
  sends = λ w t. refl;
  finishes = λ w. refl;
  written_start = λ w head. refl;
  written_send = λ w t. refl;
  written_finish = λ w. refl;
}

abbrev pub request : Bool → ChatRequest
request streams = record {
  model = none;
  messages = record { role = codes "user"; content = some (plain (codes "hi")) } ∷ [];
  stream = streams;
  stream_options = none;
  max_tokens = none;
  max_completion_tokens = none;
  temperature = none;
  top_p = none;
  seed = none;
  think = none;
  chat_template_kwargs = none;
}

-- The first byte of a body says whether the answer streams.
abbrev pub read_json : List ℕ → Outcome ChatRequest
read_json [] = err (codes "EOF while parsing a value")
read_json (b ∷ bytes) = ok (request (ltb 0 b))

abbrev pub generation : Generation
generation = record { events = 1; cancel = 2 }

abbrev pub outside : List Event → Outside
outside events = record {
  from_slice = read_json;
  late = codes "request body did not finish within 30000ms";
  started = 0x1234;
  created = 5;
  generation = generation;
  events = events;
}

abbrev pub two_tokens : List Event
two_tokens = token (codes "he\n") ∷ token (codes "llo") ∷ done end_of_generation 3 2 7 ∷ []

abbrev pub frames : ℕ → List (Outcome SourceFrame)
frames b = ok other ∷ ok (body (b ∷ [])) ∷ ok end ∷ []

abbrev pub lane : ℕ → JobLane
unfolding local_read_body
lane b = record {
  request_head = ok (some tt);
  read_body = local_read_body (frames b);
  in_time = true;
}

abbrev pub info : ModelInfo
info = record { path = codes "model.gguf"; n_params = 1; n_layer = 1; n_ctx = 8 }

abbrev pub inner : Inner two_places
inner = record { jobs = some []; inflight = 0; decoding = 0; max_inflight = 1; info = info }

abbrev pub serving : Serving plain_printer tape two_places
serving = record { writer = []; engine = inner; counter = 0; cancelled = [] }

abbrev pub submitted : Outcome Generation × Inner two_places
submitted = submit two_places default_request generation inner

submit-capacity_example :
    Counted two_places 0 submitted.1
    × ((capacity two_places submitted.1).available_slots
        ≡ submitted.1.max_inflight - (waiting_in two_places submitted.1.jobs + 0))
    × (((submitted.0 ≡ ok generation)
          × ((capacity two_places submitted.1).inflight ≡ (capacity two_places inner).inflight + 1))
        ⊎ (((error : Text) × (submitted.0 ≡ err error))
            × (capacity two_places submitted.1 ≡ capacity two_places inner)))
submit-capacity_example =
    submit-capacity two_places default_request generation 0 inner
      (record { counted = refl; in_range = omega arith }) (omega arith)

-- The job as `serve` answers it; the byte of its body says whether the answer streams.
abbrev pub served : ℕ → List Event → Done × Serving plain_printer tape two_places
served b events =
    serve plain_printer tape two_places default_defaults (outside events) (lane b) serving

abbrev pub response : Bool → ResponseWriter
response b = response_of plain_printer tape tape_healthy two_places (outside []) (request b) serving

serve-IsAnswer_example :
    (writes : List Write) × ((served 1 two_tokens).1.writer ≡ writes) × IsAnswer writes
serve-IsAnswer_example =
    serve-IsAnswer plain_printer tape tape_healthy two_places default_defaults (outside two_tokens)
      (lane 1) serving (λ e. ground arith)

pub reads :
    (b : ℕ) (events : List Event)
    → read_request read_json (outside events).late (lane b) ≡ ok (request (ltb 0 b))
unfolding read_request body_in_time local_read_body read_frames parse
reads b events = refl

pub taken :
    (b : Bool) (events : List Event)
    → submission plain_printer tape tape_healthy two_places default_defaults
        (outside events)
        (request b)
        serving
      ≡ ok generation
unfolding submit queued
taken b events = refl

serve-stream_example :
    ((served 1 two_tokens).0 ≡ ok tt)
    × ((writes : List Write) × ((served 1 two_tokens).1.writer ≡ writes)
        × (read_events (body_text writes)
            ≡ payloads plain_printer (request true) (response true) two_tokens))
serve-stream_example =
    serve-stream plain_printer tape tape_healthy two_places default_defaults (outside two_tokens)
      (lane 1) serving (request true) generation (reads 1 two_tokens) (taken true two_tokens) refl

serve-buffer_example :
    ((served 0 two_tokens).0 ≡ ok tt)
    × ((served 0 two_tokens).1.writer
        ≡ json_answer 200 (
            completion plain_printer
              (response false)
              (codes "he\nllo")
              end_of_generation
              (new_usage 3 2)))
serve-buffer_example =
    serve-buffer plain_printer tape tape_healthy two_places default_defaults (outside two_tokens)
      (lane 0) serving (request false) generation (reads 0 two_tokens) (taken false two_tokens)
      end_of_generation 3 2 7 refl refl

serve-silent_example :
    ((served 0 (token (codes "he") ∷ [])).0
      ≡ err (codes "engine closed the stream without finishing"))
    × ((served 0 (token (codes "he") ∷ [])).1.writer ≡ [])
serve-silent_example =
    serve-silent plain_printer tape tape_healthy two_places default_defaults
      (outside (token (codes "he") ∷ [])) (lane 0) serving (request false) generation
      (reads 0 (token (codes "he") ∷ [])) (taken false (token (codes "he") ∷ [])) refl refl
