-- ===== src/Tests/Servers.antt =====
-- The example server where every part of it starts.
use llm_worker.Base.{◌∷◌, [], codes, some, false}
use llm_worker.Engine.Host.{ok}
use llm_worker.Server.{Args, Outside, main}
use llm_worker.Server.Order.{Course, main-Course}
use llm_worker.Tests.Startups.{desk, channel}
use llm_worker.Tests.Workers.{two_places}

abbrev args : Args
args = record {
  model = some (codes "model.gguf");
  repo = codes "repo";
  file = codes "model.gguf";
  model_name = codes "llm";
  ctx_size = 8192;
  max_inflight = 0;
  target_step_ms = 0;
  ring_streams = 16;
  port = 8443;
  tls_cert = some (codes "cert.pem");
  tls_key = some (codes "key.pem");
  enable_h3 = false;
}

abbrev outside : Outside
outside = record {
  read = λ path. ok (1 ∷ []);
  encode = λ bytes. bytes;
  build = λ config. ok tt;
  start = ok tt;
  ctrl_c = ok tt;
  pid = 7;
}

main-Course_example :
    Course desk two_places channel outside args (main desk two_places channel outside args)
main-Course_example = main-Course desk two_places channel outside args
