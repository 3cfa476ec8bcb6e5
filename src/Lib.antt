-- ===== src/Lib.antt =====
-- A verification library for llm-worker, which serves chat completions from one language model.
--
-- The program has five parts. The engine (llm-engine/src/lib.rs) is a thread that owns the model and
-- decodes every active request in one batch per step; callers submit requests to a queue and get
-- tokens over a channel each. The wire format (llm-worker/src/protocol.rs) reads the JSON of a
-- chat completion and writes the answer, as one body or as server-sent events. The worker
-- (llm-worker/src/worker.rs) takes jobs from a ring of requests, submits them to the engine and writes
-- the answers back. Around them stand the command line of the engine (llm-engine/src/main.rs), which asks
-- it one question, and an example server (examples/serve/src), an ingress and a worker in one process.
--
-- Which file models what:
--   Base/*                what the parts share: tests, lists, integers, loops, machine words, text.
--   Engine/Types          the values of the interface: EngineConfig, GenerateRequest, Event, Stop, Job.
--   Engine/Host           what the engine calls and does not implement, as a record, with the laws of
--                         the event channels that the proofs use.
--   Engine/Slot           Slot, flush, cancelled, elapsed_ms.
--   Engine/Pool           Pool with the meters and the world (State), retire and fail.
--   Engine/Prefill        build_prompt and prefill.
--   Engine/Admit          admit, with its pace under a target (Pace) and without one (Fills).
--   Engine/Step           step, with the rows it gathers (Ready) and the slots it leaves alone (Others).
--   Engine/Serve          serve, one iteration being round.
--   Engine/Handle         Engine::submit, Engine::capacity and the flag of a Generation.
--   Engine/Race           the atomic steps of submit between those of the loop.
--   Engine/Startup        ModelSource::resolve, shared_backend, Runtime::load, the head of serve,
--                         engine_thread and Engine::spawn.
--   Engine/Stream         what one caller is given over a run of the loop.
--   Engine/Shutdown       how much work the loop has left, and its course once the senders are gone.
--   Engine/Cancelled      a generation whose cancel flag is set.
--   Engine/Overspent      a budget of one token.
--   Engine/Moves, Engine/Occupancy, Engine/Window, Engine/Ledger, Engine/Exit, Engine/Terminals
--                         the loop as moves on slots, and what is proved over it.
--   Protocol/Request, Protocol/Json, Protocol/Response
--                         protocol.rs, the request and the answer.
--   Protocol/Frames       a reader of server-sent events, independent of the writer.
--   Protocol/Reader       a client's reading of the objects of an answer.
--   Worker/Lane, Worker/Writer, Worker/Ids, Worker/Serve
--                         read_request and read_body, write_json and write_error,
--                         next_completion_id, and LlmWorker::serve.
--   Worker/Answer, Worker/Relay, Worker/Stream, Worker/Answered
--                         what a job is answered with.
--   Engine/Ordered, Engine/Overtaking, Engine/Isolation, Engine/Starved
--                         what a slot leaves behind, a slot that waits, and an outbox that is read
--                         late or not at all.
--   Worker/Whole, Worker/Refused, Worker/Gone
--                         the shape of an answer, the answers without a generation, and a client
--                         that goes away.
--   Worker/Through        a job that streams, over a run of the engine's loop.
--   Worker/Alike          an answer that streams beside one that does not.
--   Worker/Decode         what the id of a completion says.
--   Worker/Body           the two loops of read_body, of a local and of a remote job.
--   Worker/Jobs           the two kinds of job, with their lanes, writers and process.
--   Worker/Config         WorkerConfig::new and local_worker_config.
--   Worker/Setup          pipeline_spec and remote_worker_config, and llm-worker/src/main.rs, how the
--                         arguments become configurations.
--   Worker/Process        llm-worker/src/main.rs, main as the order of its actions, with the start of
--                         the engine that Engine/Startup models.
--   Script                programs that do one thing after another, of Worker/Process and Server.
--   Ingress, Ingress/Routes
--                         examples/serve/src/ingress.rs, the routes.
--   Cli, Cli/Heard, Cli/Printed
--                         llm-engine/src/main.rs, the request, the loop and what it prints.
--   Server, Server/Order  examples/serve/src/main.rs, the configurations and the order of the start, with
--                         that of the engine from Engine/Startup.
--   Tests/*               a small host, a printer, a queue and a writer, and the theorems at concrete
--                         inputs.
--
-- How state is held. The engine loop owns its state, so each of its functions takes a State and gives
-- the next. Everything outside the thread is the World of Host: a call may change it in any way
-- that the stated laws allow, so what callers do meanwhile is part of a call. The queue of jobs is a
-- list that may grow before each round; serve takes the list of what arrives before each, and ends with
-- that list or when the loop is left. A loop over slots runs over their fixed number, a loop over
-- events, frames or jobs over its list, so no fuel is needed. The printing of a number takes
-- fuel: sixteen digits for `hex`, which hold every 64-bit number, and more than the number itself for
-- `decimal`, which loses a digit at each step.
--
-- Numbers are the native naturals with the wrap-around of the meters and of the sum of a usage
-- written out; an f32 is its bit pattern, and f64 arithmetic is a parameter. A text is the list of its
-- Unicode scalar values.
--
-- Not modelled: reading of arguments and logging, the tasks of the async runtime and the joining of
-- threads, the ring itself and its loops, the HTTP server, llama.cpp and the downloads, which are
-- parameters where the code's course depends on them; the build script and the tests.
pub mod Base
pub mod Engine
pub mod Protocol
pub mod Worker
pub mod Ingress
pub mod Cli
pub mod Script
pub mod Server
pub mod Tests
