-- ===== src/Tests/Setups.antt =====
-- A worker process that is given a model on the disk, an origin and no places.
use llm_worker.Base.{◌≡◌, refl, ◌*◌, some, codes, [], ◌∷◌, none, pos, false, arith}
use llm_worker.Engine.Host.{ok}
use llm_worker.Engine.Startup.{
  spawn, engine_thread, load_runtime, resolve, shared_backend, get_or_init, load_with, open_context,
  handle,
}
use llm_worker.Script.{bind}
use llm_worker.Tests.Startups.{desk, channel}
use llm_worker.Tests.Toy.{toy}
use llm_worker.Tests.Workers.{two_places}
use llm_worker.Worker.Process.{
  Outside, Attends, main, attach, attend, await_interrupt, main-Attends,
}
use llm_worker.Worker.Setup.{Args, attached, engine_config}

abbrev args : Args
args = record {
  model = some (codes "model.gguf");
  repo = codes "unsloth/Qwen3.5-0.8B-GGUF";
  file = codes "Qwen3.5-0.8B-Q4_K_M.gguf";
  model_name = codes "llm";
  ctx_size = 8192;
  worker_id = none;
  max_inflight = 0;
  target_step_ms = 0;
  ingress_urls = codes "https://ingress" ∷ [];
  discovery_dns = none;
  insecure_tls = false;
  slot_size_kb = 0;
  poll_ms = 0;
  heartbeat_ms = 1000;
  discovery_ms = 5000;
  request_timeout_ms = 30000;
  default_max_tokens = pos 512;
  default_temperature = 0;
  default_top_p = 0x3f66_6666;
  default_seed = 42;
  default_think = false;
}

abbrev outside : Outside
outside = record {
  slot_bytes = λ kb. kb * 1024;
  client = λ slot_bytes insecure_tls. ok tt;
  ctrl_c = ok tt;
  pid = 7;
}

main-Attends_example :
    Attends desk two_places channel outside args (main desk two_places channel outside args)
main-Attends_example = main-Attends desk two_places channel outside args (omega arith)

main_ends : (main desk two_places channel outside args).0 ≡ ok tt
unfolding main bind attach attend await_interrupt attached engine_config spawn engine_thread
    load_runtime resolve shared_backend get_or_init load_with open_context handle
main_ends = refl
