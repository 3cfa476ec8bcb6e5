-- ===== src/Engine/Startup.antt =====
-- llm-engine/src/lib.rs: from a configuration to a running engine, `ModelSource::resolve`,
-- `shared_backend`, `Runtime::load`, the head of `Runtime::serve`, `engine_thread` and `Engine::spawn`.
pub mod Started
pub mod Once
use llm_worker.Base.{
  ℕ, zero, suc, ◌+◌, max, Text, codes, Bool, true, false, List, [], ◌∷◌, ◌++◌, Option, none, some,
  if◌then◌else◌,
}
use llm_worker.Engine.Types.{ModelSource, local, hugging_face, EngineConfig, ModelInfo}
use llm_worker.Engine.Host.{Outcome, ok, err}
use llm_worker.Engine.Handle.{JobQueue, Inner, engine_width, queue_depth}
use llm_worker.Engine.Prefill.{Runtime, ◌>>=◌, context}
use llm_worker.Engine.Serve.{load, total_ctx}

-- `LlamaContextParams`, with `None` for a context size of zero.
pub record ContextParams : Type 0 where
  pub n_ctx : Option ℕ
  pub n_seq_max : ℕ
  pub n_batch : ℕ

-- What the start calls of other crates and of the system: files, the Hugging Face client, llama.cpp,
-- and threads. `init` is `LlamaBackend::init` after so many calls of it; `survives` is whether the thread
-- lives to send its message.
pub record Platform : Type 1 where
  pub Client : Type 0
  pub Backend : Type 0
  pub Model : Type 0
  pub Context : Type 0
  pub is_file : Text → Bool
  pub client : Outcome Client
  pub fetch : Client → Text → Text → Outcome Text
  pub init : ℕ → Outcome Backend
  pub load_from_file : Backend → Text → ℕ → Outcome Model
  pub n_params : Model → ℕ
  pub n_layer : Model → ℕ
  pub new_context : Model → Backend → ContextParams → Outcome Context
  pub start_thread : Outcome (Unit {0})
  pub survives : Bool

-- `NonZeroU32::new`
abbrev pub non_zero : ℕ → Option ℕ
non_zero zero = none
non_zero (suc n) = some (suc n)

-- `map_err` with a text before the error.
abbrev pub prefixed {ℓ} : {A : Type ℓ} → Text → Outcome A → Outcome A
prefixed message (ok a) = ok a
prefixed message (err e) = err (message ++ e)

unfoldable pub context_params : Runtime → ContextParams
unfolding total_ctx
context_params rt = record {
  n_ctx = non_zero (total_ctx rt);
  n_seq_max = rt.max_inflight;
  n_batch = max rt.n_ctx 512;
}

module _ (platform : Platform) where
  open platform use {Backend, Model, Context}

  unfoldable pub resolve : ModelSource → Outcome Text
  resolve (local path) =
      if platform.is_file path then ok path else err (codes "no model file at " ++ path)
  resolve (hugging_face repo file) =
      context (codes "unable to create the Hugging Face client") platform.client >>= λ client.
      context (codes "unable to fetch " ++ (repo ++ codes "/" ++ file))
        (platform.fetch client repo file)

  -- The process: the `OnceLock` of the backend, and how often it was initialised.
  pub record Process : Type 0 where
    pub backend : Option (Outcome Backend)
    pub inits : ℕ

  unfoldable pub get_or_init : Process → Outcome Backend × Process
  get_or_init process = elim process.backend [
    | some backend ↦ (backend, process)
    | none ↦
        let backend = platform.init process.inits in
        (backend, record { backend = some backend; inits = process.inits + 1 })
  ]

  unfoldable pub shared_backend : Process → Outcome Backend × Process
  unfolding get_or_init
  shared_backend process =
      let (backend, process') = get_or_init process in
      (prefixed (codes "failed to initialise the llama backend: ") backend, process')

  -- A runtime with the model and the backend that it holds.
  pub record Loaded : Type 0 where
    pub model : Model
    pub backend : Backend
    pub runtime : Runtime

  unfoldable pub loaded : EngineConfig → Text → Backend → Model → Loaded
  unfolding load
  loaded config path backend model = record {
    model = model;
    backend = backend;
    runtime = load config (record {
      path = path;
      n_params = platform.n_params model;
      n_layer = platform.n_layer model;
      n_ctx = config.n_ctx;
    });
  }

  unfoldable pub load_with : EngineConfig → Text → Outcome Backend → Outcome Loaded
  unfolding loaded
  load_with config path shared = shared >>= λ backend.
      context (codes "failed to load " ++ path)
        (platform.load_from_file backend path config.n_gpu_layers)
      >>= λ model. ok (loaded config path backend model)

  -- `Runtime::load`
  unfoldable pub load_runtime : EngineConfig → Process → Outcome Loaded × Process
  unfolding resolve shared_backend load_with
  load_runtime config process = elim (resolve config.model) [
    | err error ↦ (err error, process)
    | ok path ↦
        let (shared, process') = shared_backend process in (load_with config path shared, process')
  ]

  -- The head of `Runtime::serve`: the context, and then the message that the engine is ready.
  unfoldable pub open_context : Loaded → Outcome Runtime
  unfolding context_params
  open_context l =
      context (codes "failed to create the llama context")
        (platform.new_context l.model l.backend (context_params l.runtime))
      >>= λ _. ok l.runtime

  -- What the thread comes to: the runtime whose loop begins, and whose `info` is the message, or the
  -- error that is the message.
  unfoldable pub engine_thread : EngineConfig → Process → Outcome Runtime × Process
  unfolding load_runtime open_context
  engine_thread config process =
      let (result, process') = load_runtime config process in (result >>= open_context, process')

  abbrev pub received : Bool → Outcome Runtime → Outcome Runtime
  received true message = message
  received false message = err (codes "engine thread exited during startup")

  module _ (queues : JobQueue) (channel : ℕ → queues.Queue) where
    unfoldable pub handle : EngineConfig → Runtime → Inner queues
    unfolding engine_width queue_depth
    handle config rt = record {
      jobs = some (channel (queue_depth config));
      inflight = 0;
      decoding = 0;
      max_inflight = engine_width config;
      info = rt.info;
    }

    -- The handle, and the runtime whose loop the thread is in.
    unfoldable pub spawn : EngineConfig → Process → Outcome (Inner queues × Runtime) × Process
    unfolding engine_thread handle
    spawn config process = elim platform.start_thread [
      | err error ↦ (err (codes "failed to start the engine thread"), process)
      | ok _ ↦
          let (message, process') = engine_thread config process in
          (received platform.survives message >>= λ rt. ok (handle config rt, rt), process')
    ]

    -- Engines of one process, started one after another: the results, and the process.
    abbrev pub spawn_all :
        List EngineConfig → Process → List (Outcome (Inner queues × Runtime)) × Process
    spawn_all [] process = ([], process)
    spawn_all (config ∷ configs) process =
        let (result, process₁) = spawn config process in
        let (results, process₂) = spawn_all configs process₁ in (result ∷ results, process₂)

  abbrev pub new_process : Process
  new_process = record { backend = none; inits = 0 }

  -- `Engine::model_info`
  abbrev pub model_info : (queues : JobQueue) → Inner queues → ModelInfo
  model_info queues inner = inner.info
