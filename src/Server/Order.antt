-- ===== src/Server/Order.antt =====
-- The order in which the example server starts.
use llm_worker.Base.{
  ℕ, max, ◌≡◌, refl, ◌⊎◌, inl, inr, Text, codes, List, [], ◌∷◌, ◌++◌, Option, none, some,
}
use llm_worker.Engine.Handle.{JobQueue, Inner, capacity}
use llm_worker.Engine.Host.{ok, err, Outcome-cases}
use llm_worker.Engine.Prefill.{Runtime, context}
use llm_worker.Engine.Startup.{Platform}
use llm_worker.Script.{Script, bind, act, Along, act-Along}
use llm_worker.Worker.Config.{local_worker_config}
use llm_worker.Server.{
  Args, Action, read_file, spawned, created_ring, started_worker, built, listening, became_ready,
  awaited_interrupt, shut_down, aborted_worker, Outside, read_both, tls_paths, tls_base64,
  serve_with, run_worker, run_server, listen, attend, await_interrupt, close_up, main,
  started_engine, engine_config, worker_config, server_config,
}

module _ (platform : Platform) (queues : JobQueue) (channel : ℕ → queues.Queue) (o : Outside) where
  -- What follows the start of the engine.
  abbrev pub service : Args → Text × Text → Inner queues → List Action
  service args tls inner =
      created_ring (max args.ring_streams 1)
      ∷ started_worker
          (local_worker_config (worker_config args (capacity queues inner).max_inflight o.pid))
      ∷ built (server_config args tls)
      ∷ listening
      ∷ became_ready
      ∷ awaited_interrupt
      ∷ shut_down
      ∷ aborted_worker
      ∷ []

  serve_with-Along :
      (args : Args) (tls : Text × Text) (inner : Inner queues)
      → Along (service args tls inner) (serve_with platform queues channel o args tls inner)
  unfolding serve_with run_worker run_server listen attend await_interrupt close_up
  serve_with-Along args tls inner =
      let worker =
        local_worker_config (worker_config args (capacity queues inner).max_inflight o.pid) in
      let config = server_config args tls in
      let build_result = context (codes "failed to build the ingress server") (o.build config) in
      let start_result = context (codes "failed to start the ingress server") o.start in
      let at_close : Along (shut_down ∷ aborted_worker ∷ []) (close_up platform queues channel o) =
        ([], refl, λ _. refl) in
      let at_interrupt =
        act-Along awaited_interrupt o.ctrl_c (λ _. close_up platform queues channel o) _
          (λ _. at_close) in
      let at_ready =
        act-Along became_ready (ok tt) (λ _. await_interrupt platform queues channel o) _
          (λ _. at_interrupt) in
      let at_listen =
        act-Along listening start_result (λ _. attend platform queues channel o) _
          (λ _. at_ready) in
      let at_build =
        act-Along (built config) build_result (λ _. listen platform queues channel o) _
          (λ _. at_listen) in
      let at_worker =
        act-Along (started_worker worker) (ok tt) (λ _. run_server platform queues channel o config)
          _ (λ _. at_build) in
      act-Along (created_ring (max args.ring_streams 1)) (ok tt)
        (λ _. run_worker platform queues channel o worker config) _ (λ _. at_worker)

  -- How far a run comes.
  pub data Course (args : Args) : Script Action (Unit {0}) → Type 0 where
    -- Without both paths nothing is done.
    without_paths :
        ((args.tls_cert ≡ none) ⊎ (args.tls_key ≡ none))
        → Course args (err (codes "serving needs --tls-cert and --tls-key"), [])
    -- A file that cannot be read ends the run, the certificate before the key is tried.
    without_cert :
        (cert key error : Text)
        → (args.tls_cert ≡ some cert) × (args.tls_key ≡ some key)
        → o.read cert ≡ err error
        → Course args (err (codes "failed to read " ++ cert), read_file cert ∷ [])
    without_key :
        (cert key error : Text) (c : List ℕ)
        → (args.tls_cert ≡ some cert) × (args.tls_key ≡ some key)
        → o.read cert ≡ ok c
        → o.read key ≡ err error
        → Course args (err (codes "failed to read " ++ key), read_file cert ∷ read_file key ∷ [])
    -- Without an engine nothing follows its start.
    without_engine :
        (cert key error : Text) (c k : List ℕ)
        → (args.tls_cert ≡ some cert) × (args.tls_key ≡ some key)
        → (o.read cert ≡ ok c) × (o.read key ≡ ok k)
        → started_engine platform queues channel o args ≡ err error
        → Course args
            (err error, read_file cert ∷ read_file key ∷ spawned (engine_config args) ∷ [])
    -- With an engine its service is done in order, with what the files hold, and all of it if the run
    -- succeeds.
    with_engine :
        (cert key : Text) (c k : List ℕ) (inner : Inner queues) (rt : Runtime)
        (r : Script Action (Unit {0}))
        → (args.tls_cert ≡ some cert) × (args.tls_key ≡ some key)
        → (o.read cert ≡ ok c) × (o.read key ≡ ok k)
        → started_engine platform queues channel o args ≡ ok (inner, rt)
        → Along (service args (o.encode c, o.encode k) inner) r
        → Course args (r.0, read_file cert ∷ read_file key ∷ spawned (engine_config args) ∷ r.1)

  -- The rest of `main`, behind the files.
  abbrev behind : Args → Script Action (Text × Text) → Script Action (Unit {0})
  unfolding bind engine_config serve_with started_engine
  behind args files = bind files (λ tls.
      bind (act (spawned (engine_config args)) (started_engine platform queues channel o args))
        (λ r. serve_with platform queues channel o args tls r.0))

  engine-Course :
      (args : Args) (cert key : Text) (c k : List ℕ)
      → (args.tls_cert ≡ some cert) × (args.tls_key ≡ some key)
      → (o.read cert ≡ ok c) × (o.read key ≡ ok k)
      → Course args (behind args (ok (o.encode c, o.encode k), read_file cert ∷ read_file key ∷ []))
  unfolding bind behind
  engine-Course args cert key c k given held =
      elim (Outcome-cases (started_engine platform queues channel o args)) [
        | inr (error, p) ↦ rw (p, bind) (without_engine cert key error c k given held p)
        | inl ((inner, rt), p) ↦
            let tls : Text × Text = (o.encode c, o.encode k) in
            rw (p, bind)
              (with_engine cert key c k inner rt
                (serve_with platform queues channel o args tls inner) given held p
                (serve_with-Along args tls inner))
      ]

  files-Course :
      (args : Args) (cert key : Text)
      → (args.tls_cert ≡ some cert) × (args.tls_key ≡ some key)
      → Course args (behind args (read_both platform queues channel o cert key))
  unfolding read_both bind behind
  files-Course args cert key given = elim (Outcome-cases (o.read cert)) [
    | inr (e, p) ↦ rw (p, read_both) (without_cert cert key e given p)
    | inl (c, p) ↦ elim (Outcome-cases (o.read key)) [
      | inr (e, q) ↦ rw (p, q, read_both) (without_key cert key e c given p q)
      | inl (k, q) ↦ rw (p, q, read_both) (engine-Course args cert key c k given (p, q))
    ]
  ]

  paths-Course :
      (args : Args) (cert key : Option Text)
      → args.tls_cert ≡ cert
      → args.tls_key ≡ key
      → Course args (behind args (tls_paths platform queues channel o cert key))
  unfolding tls_paths bind behind
  paths-Course args none key at_cert at_key = without_paths (inl at_cert)
  paths-Course args (some cert) none at_cert at_key = without_paths (inr at_key)
  paths-Course args (some cert) (some key) at_cert at_key =
      files-Course args cert key (at_cert, at_key)

  -- A run reads the certificate and then its key, and does nothing else before it starts the engine:
  -- without both paths, or with a file that cannot be read, it fails before the model is loaded. Where
  -- the engine does not start, nothing follows. Where it does, the ring, a worker of as many places as
  -- the engine reports, the server with what the files hold and its port follow in this order, as far as
  -- the run comes, and to the end if it succeeds.
  pub main-Course : (args : Args) → Course args (main platform queues channel o args)
  unfolding main tls_base64 behind
  main-Course args = paths-Course args args.tls_cert args.tls_key refl refl
