-- ===== src/Worker/Setup.antt =====
-- llm-worker/src/main.rs and the configurations of llm-worker/src/worker.rs: what the arguments of the
-- process become. Times are in milliseconds.
use llm_worker.Base.{ℕ, max, ℤ, Text, codes, decimal, Bool, List, [], ◌∷◌, ◌++◌, Option, none, some}
use llm_worker.Engine.Host.{Outcome, ok, err}
use llm_worker.Engine.Types.{EngineConfig, ModelSource, local, hugging_face, default_config}
use llm_worker.Protocol.Request.{RequestDefaults, unwrap_or}

pub record Args : Type 0 where
  pub model : Option Text
  pub repo : Text
  pub file : Text
  pub model_name : Text
  pub ctx_size : ℕ
  pub worker_id : Option Text
  pub max_inflight : ℕ
  pub target_step_ms : ℕ
  pub ingress_urls : List Text
  pub discovery_dns : Option Text
  pub insecure_tls : Bool
  pub slot_size_kb : ℕ
  pub poll_ms : ℕ
  pub heartbeat_ms : ℕ
  pub discovery_ms : ℕ
  pub request_timeout_ms : ℕ
  pub default_max_tokens : ℤ
  pub default_temperature : ℕ
  pub default_top_p : ℕ
  pub default_seed : ℕ
  pub default_think : Bool

pub record WorkerConfig : Type 0 where
  pub worker_id : Text
  pub max_inflight : ℕ
  pub poll_interval : ℕ
  pub heartbeat_interval : ℕ
  pub discovery_interval : ℕ
  pub request_timeout : ℕ
  pub ingress_urls : List Text
  pub discovery_dns : Option Text
  pub model_name : Text
  pub defaults : RequestDefaults

pub data SourceLane : Type 0 where
  request_lane : SourceLane

pub data SinkLane : Type 0 where
  response_lane : SinkLane

pub record PipelineSpec : Type 0 where
  pub source : SourceLane
  pub sink : SinkLane

abbrev pub pipeline_spec : PipelineSpec
pipeline_spec = record { source = request_lane; sink = response_lane }

-- The fields that `remote_worker_config` sets of the ring's configuration.
pub record RemoteWorkerConfig : Type 0 where
  pub worker_id : Text
  pub spec : PipelineSpec
  pub max_inflight : ℕ
  pub poll_interval : ℕ
  pub heartbeat_interval : ℕ
  pub discovery_interval : ℕ
  pub ingress_urls : List Text
  pub discovery_dns : Option Text

unfoldable pub remote_worker_config : WorkerConfig → RemoteWorkerConfig
remote_worker_config config = record {
  worker_id = config.worker_id;
  spec = pipeline_spec;
  max_inflight = config.max_inflight;
  poll_interval = config.poll_interval;
  heartbeat_interval = config.heartbeat_interval;
  discovery_interval = config.discovery_interval;
  ingress_urls = config.ingress_urls;
  discovery_dns = config.discovery_dns;
}

abbrev pub model_source : Args → ModelSource
model_source args = elim args.model [
  | some path ↦ local path
  | none ↦ hugging_face args.repo args.file
]

unfoldable pub engine_config : Args → EngineConfig
engine_config args = record default_config {
  model = model_source args;
  n_ctx = args.ctx_size;
  max_inflight = max args.max_inflight 1;
  target_step_ms = args.target_step_ms;
}

-- The test at the head of `main`.
unfoldable pub attached : List Text → Option Text → Outcome (Unit {0})
attached (url ∷ urls) dns = ok tt
attached [] (some name) = ok tt
attached [] none = err (codes "nothing to attach to: pass --ingress-url or --discovery-dns")

-- `width` is what `capacity` reports of the engine, and `pid` the process's number.
unfoldable pub worker_config : Args → ℕ → ℕ → WorkerConfig
worker_config args width pid = record {
  worker_id = unwrap_or args.worker_id (codes "llm-" ++ decimal pid);
  max_inflight = width;
  poll_interval = max args.poll_ms 1;
  heartbeat_interval = max args.heartbeat_ms 1;
  discovery_interval = max args.discovery_ms 1;
  request_timeout = max args.request_timeout_ms 1;
  ingress_urls = args.ingress_urls;
  discovery_dns = args.discovery_dns;
  model_name = args.model_name;
  defaults = record {
    max_tokens = args.default_max_tokens;
    temperature = args.default_temperature;
    top_p = args.default_top_p;
    seed = args.default_seed;
    think = args.default_think;
  };
}
