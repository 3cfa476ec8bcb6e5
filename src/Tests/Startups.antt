-- ===== src/Tests/Startups.antt =====
-- The start of an engine on a platform where one file is a model.
use llm_worker.Base.{
  ℕ, ◌≤◌, ◌≡◌, refl, ◌==◌, text_eq, codes, true, [], ◌∷◌, ◌++◌, arith, if◌then◌else◌,
}
use llm_worker.Engine.Types.{EngineConfig, default_config, local}
use llm_worker.Engine.Handle.{Inner}
use llm_worker.Engine.Host.{ok, err}
use llm_worker.Engine.Prefill.{Runtime}
use llm_worker.Engine.Serve.{load}
use llm_worker.Engine.Startup.{
  Platform, new_process, spawn, spawn_all, handle, engine_thread, load_runtime, resolve,
  shared_backend, get_or_init, load_with, loaded, open_context, context_params,
}
use llm_worker.Engine.Startup.Started.{Started, spawn-Started, spawn-missing}
use llm_worker.Engine.Startup.Once.{spawn_all-inits}
use llm_worker.Tests.Toy.{toy}
use llm_worker.Tests.Workers.{two_places}

-- The backend is initialised by the first call and by no other.
abbrev pub desk : Platform
desk = record {
  Client = Unit {0};
  Backend = Unit {0};
  Model = ℕ;
  Context = Unit {0};
  is_file = λ path. text_eq path (codes "model.gguf");
  client = ok tt;
  fetch = λ client repo file. ok (repo ++ file);
  init = λ before. if before == 0 then ok tt else err (codes "already initialised");
  load_from_file = λ backend path layers. ok 7;
  n_params = λ model. model;
  n_layer = λ model. 1;
  new_context = λ model backend params. ok tt;
  start_thread = ok tt;
  survives = true;
}

abbrev pub on_disk : EngineConfig
on_disk = record default_config { model = local (codes "model.gguf") }

abbrev elsewhere : EngineConfig
elsewhere = record default_config { model = local (codes "m") }

abbrev pub channel : ℕ → two_places.Queue
channel depth = []

abbrev runtime : Runtime
unfolding load
runtime =
    load on_disk (record { path = codes "model.gguf"; n_params = 7; n_layer = 1; n_ctx = 8192 })

abbrev fresh : Inner two_places
unfolding handle runtime load
fresh = handle desk two_places channel on_disk runtime

spawn-Started_example : Started two_places channel on_disk fresh runtime
unfolding spawn engine_thread load_runtime resolve shared_backend get_or_init load_with loaded
    open_context context_params handle runtime fresh load
spawn-Started_example =
    spawn-Started desk two_places channel on_disk (new_process desk) fresh runtime (omega arith)
      refl

spawn_all-inits_example :
    (spawn_all desk two_places channel (on_disk ∷ on_disk ∷ []) (new_process desk)).1.inits ≤ 1
spawn_all-inits_example = spawn_all-inits desk two_places channel (on_disk ∷ on_disk ∷ [])

spawn-missing_example :
    spawn desk two_places channel elsewhere (new_process desk)
    ≡ (err (codes "no model file at m"), new_process desk)
spawn-missing_example =
    spawn-missing desk two_places channel elsewhere (new_process desk) (codes "m") refl refl refl
      refl
