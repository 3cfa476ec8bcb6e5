-- ===== src/Worker/Config.antt =====
-- llm-worker/src/worker.rs: the configuration of a worker, and what the ring's local loop gets of it.
-- Times are in milliseconds.
use llm_worker.Base.{ℕ, Text, [], none}
use llm_worker.Protocol.Request.{default_model, default_defaults}
use llm_worker.Worker.Setup.{WorkerConfig, PipelineSpec, pipeline_spec}

-- `WorkerConfig::new`
unfoldable pub new_config : Text → WorkerConfig
new_config worker_id = record {
  worker_id = worker_id;
  max_inflight = 1;
  poll_interval = 50;
  heartbeat_interval = 1000;
  discovery_interval = 5000;
  request_timeout = 30000;
  ingress_urls = [];
  discovery_dns = none;
  model_name = default_model;
  defaults = default_defaults;
}

-- The fields that `local_worker_config` sets of the ring's configuration.
pub record LocalWorkerConfig : Type 0 where
  pub worker_id : Text
  pub spec : PipelineSpec
  pub max_inflight : ℕ
  pub poll_interval : ℕ
  pub heartbeat_interval : ℕ

unfoldable pub local_worker_config : WorkerConfig → LocalWorkerConfig
local_worker_config config = record {
  worker_id = config.worker_id;
  spec = pipeline_spec;
  max_inflight = config.max_inflight;
  poll_interval = config.poll_interval;
  heartbeat_interval = config.heartbeat_interval;
}
