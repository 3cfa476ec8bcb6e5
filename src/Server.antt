-- ===== src/Server.antt =====
-- examples/serve/src/main.rs: an ingress and a worker in one process.
pub mod Order
use llm_worker.Base.{
  ℕ, max, Text, codes, decimal, Bool, true, false, List, [], ◌∷◌, ◌++◌, Option, none, some,
}
use llm_worker.Engine.Types.{ModelSource, local, hugging_face, EngineConfig, default_config}
use llm_worker.Engine.Handle.{JobQueue, Inner, capacity}
use llm_worker.Engine.Host.{Outcome, ok, err}
use llm_worker.Engine.Prefill.{Runtime, context}
use llm_worker.Engine.Startup.{Platform, spawn, new_process}
use llm_worker.Script.{Script, bind, act}
use llm_worker.Worker.Config.{LocalWorkerConfig, local_worker_config, new_config}
use llm_worker.Worker.Setup.{WorkerConfig}
use llm_worker.Worker.Writer.{Done}

pub record Args : Type 0 where
  pub model : Option Text
  pub repo : Text
  pub file : Text
  pub model_name : Text
  pub ctx_size : ℕ
  pub max_inflight : ℕ
  pub target_step_ms : ℕ
  pub ring_streams : ℕ
  pub port : ℕ
  pub tls_cert : Option Text
  pub tls_key : Option Text
  pub enable_h3 : Bool

unfoldable pub model_source : Args → ModelSource
model_source args = elim args.model [
  | some path ↦ local path
  | none ↦ hugging_face args.repo args.file
]

unfoldable pub engine_config : Args → EngineConfig
unfolding model_source
engine_config args = record default_config {
  model = model_source args;
  n_ctx = args.ctx_size;
  max_inflight = max args.max_inflight 1;
  target_step_ms = args.target_step_ms;
}

-- `width` is what `capacity` reports of the engine, and `pid` the process's number.
unfoldable pub worker_config : Args → ℕ → ℕ → WorkerConfig
unfolding new_config
worker_config args width pid = record (new_config (codes "llm-" ++ decimal pid)) {
  max_inflight = width;
  poll_interval = 10;
  model_name = args.model_name;
}

-- What the server's builder is given.
pub record ServerConfig : Type 0 where
  pub cert : Text
  pub key : Text
  pub port : ℕ
  pub enable_h2 : Bool
  pub enable_h3 : Bool
  pub enable_websocket : Bool

unfoldable pub server_config : Args → Text × Text → ServerConfig
server_config args (cert, key) = record {
  cert = cert;
  key = key;
  port = args.port;
  enable_h2 = true;
  enable_h3 = args.enable_h3;
  enable_websocket = false;
}

-- What `main` does, one thing after another.
pub data Action : Type 0 where
  read_file : Text → Action
  spawned : EngineConfig → Action
  created_ring : (num_streams : ℕ) → Action
  started_worker : LocalWorkerConfig → Action
  built : ServerConfig → Action
  listening : Action
  became_ready : Action
  awaited_interrupt : Action
  shut_down : Action
  aborted_worker : Action

-- The outside: files, base64, the server and the signal.
pub record Outside : Type 0 where
  pub read : Text → Outcome (List ℕ)
  pub encode : List ℕ → Text
  pub build : ServerConfig → Done
  pub start : Done
  pub ctrl_c : Done
  pub pid : ℕ

-- The engine is started on the platform, with tokio's queue.
module _ (platform : Platform) (queues : JobQueue) (channel : ℕ → queues.Queue) (o : Outside) where
  abbrev read_pem : Text → Script Action (List ℕ)
  read_pem path = act (read_file path) (context (codes "failed to read " ++ path) (o.read path))

  abbrev pub no_tls : Script Action (Text × Text)
  no_tls = (err (codes "serving needs --tls-cert and --tls-key"), [])

  unfoldable pub read_both : Text → Text → Script Action (Text × Text)
  unfolding bind
  read_both cert key =
      bind (read_pem cert) (λ c. bind (read_pem key) (λ k. (ok (o.encode c, o.encode k), [])))

  unfoldable pub tls_paths : Option Text → Option Text → Script Action (Text × Text)
  unfolding read_both
  tls_paths (some cert) (some key) = read_both cert key
  tls_paths (some cert) none = no_tls
  tls_paths none key = no_tls

  unfoldable pub tls_base64 : Args → Script Action (Text × Text)
  unfolding tls_paths
  tls_base64 args = tls_paths args.tls_cert args.tls_key

  -- Once the server has started: until the interrupt comes, and the end.
  unfoldable pub close_up : Script Action (Unit {0})
  close_up = (ok tt, shut_down ∷ aborted_worker ∷ [])

  unfoldable pub await_interrupt : Script Action (Unit {0})
  unfolding bind close_up
  await_interrupt = bind (act awaited_interrupt o.ctrl_c) (λ _. close_up)

  unfoldable pub attend : Script Action (Unit {0})
  unfolding bind await_interrupt
  attend = bind (act became_ready (ok tt)) (λ _. await_interrupt)

  unfoldable pub listen : Script Action (Unit {0})
  unfolding bind attend
  listen =
      bind (act listening (context (codes "failed to start the ingress server") o.start))
        (λ _. attend)

  unfoldable pub run_server : ServerConfig → Script Action (Unit {0})
  unfolding bind listen
  run_server config =
      bind
        (act (built config) (context (codes "failed to build the ingress server") (o.build config)))
        (λ _. listen)

  unfoldable pub run_worker : LocalWorkerConfig → ServerConfig → Script Action (Unit {0})
  unfolding bind run_server
  run_worker worker config = bind (act (started_worker worker) (ok tt)) (λ _. run_server config)

  -- Behind the start of the engine.
  unfoldable pub serve_with : Args → Text × Text → Inner queues → Script Action (Unit {0})
  unfolding bind worker_config local_worker_config server_config capacity run_worker
  serve_with args tls inner =
      let width = (capacity queues inner).max_inflight in
      let worker = local_worker_config (worker_config args width o.pid) in
      bind (act (created_ring (max args.ring_streams 1)) (ok tt))
        (λ _. run_worker worker (server_config args tls))

  abbrev pub started_engine : Args → Outcome (Inner queues × Runtime)
  unfolding spawn engine_config
  started_engine args =
      (spawn platform queues channel (engine_config args) (new_process platform)).0

  unfoldable pub main : Args → Script Action (Unit {0})
  unfolding bind tls_base64 engine_config serve_with started_engine
  main args = bind (tls_base64 args) (λ tls.
      bind (act (spawned (engine_config args)) (started_engine args))
        (λ r. serve_with args tls r.0))
