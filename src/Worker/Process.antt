-- ===== src/Worker/Process.antt =====
-- llm-worker/src/main.rs: `main`, from the arguments to the end of the process.
use llm_worker.Base.{
  ℕ, max, ◌^◌, ◌≤◌, ◌<◌, ◌≡◌, refl, sym, inl, inr, Text, codes, Bool, List, [], ◌∷◌, some, length,
  arith,
}
use llm_worker.Engine.Handle.{JobQueue, Inner, capacity}
use llm_worker.Engine.Host.{Host, Outcome, ok, err, Outcome-cases}
use llm_worker.Engine.Prefill.{Runtime, context}
use llm_worker.Engine.Serve.{new_state}
use llm_worker.Engine.Startup.{Platform, spawn, new_process}
use llm_worker.Engine.Startup.Started.{Started, spawn-Started}
use llm_worker.Engine.Types.{EngineConfig}
use llm_worker.Script.{Script, bind, act, Along, act-Along}
use llm_worker.Worker.Setup.{
  Args, RemoteWorkerConfig, attached, engine_config, worker_config, remote_worker_config,
}
use llm_worker.Worker.Writer.{Done}

-- What `main` does, one thing after another.
pub data Action : Type 0 where
  spawned : EngineConfig → Action
  built_client : (slot_bytes : ℕ) (insecure_tls : Bool) → Action
  spawned_remote : RemoteWorkerConfig → Action
  awaited_interrupt : Action
  aborted_worker : Action

-- The outside: the ring's slots and client, the signal, the process's number.
pub record Outside : Type 0 where
  pub slot_bytes : (slot_size_kb : ℕ) → ℕ
  pub client : (slot_bytes : ℕ) → (insecure_tls : Bool) → Done
  pub ctrl_c : Done
  pub pid : ℕ

-- The engine is started on the platform, with tokio's queue.
module _ (platform : Platform) (queues : JobQueue) (channel : ℕ → queues.Queue) (o : Outside) where
  unfoldable pub await_interrupt : Script Action (Unit {0})
  unfolding bind
  await_interrupt = bind (act awaited_interrupt o.ctrl_c) (λ _. (ok tt, aborted_worker ∷ []))

  unfoldable pub attend : RemoteWorkerConfig → Script Action (Unit {0})
  unfolding bind await_interrupt
  attend ring = bind (act (spawned_remote ring) (ok tt)) (λ _. await_interrupt)

  abbrev pub slots_of : Args → ℕ
  slots_of args = o.slot_bytes (max args.slot_size_kb 1)

  unfoldable pub ring_of : Args → Inner queues → RemoteWorkerConfig
  unfolding worker_config remote_worker_config capacity
  ring_of args inner =
      remote_worker_config (worker_config args (capacity queues inner).max_inflight o.pid)

  -- Behind the start of the engine.
  unfoldable pub attach : Args → Inner queues → Script Action (Unit {0})
  unfolding bind attend ring_of
  attach args inner =
      bind
        (act (built_client (slots_of args) args.insecure_tls) (
          context (codes "failed to build the ingress client")
            (o.client (slots_of args) args.insecure_tls)))
        (λ _. attend (ring_of args inner))

  abbrev pub started_engine : Args → Outcome (Inner queues × Runtime)
  unfolding spawn engine_config
  started_engine args =
      (spawn platform queues channel (engine_config args) (new_process platform)).0

  unfoldable pub main : Args → Script Action (Unit {0})
  unfolding bind attached engine_config attach started_engine
  main args =
      bind (attached args.ingress_urls args.discovery_dns, [])
        (λ _.
          bind (act (spawned (engine_config args)) (started_engine args)) (λ r. attach args r.0))

  -- What follows the start of the engine.
  abbrev pub service : Args → Inner queues → List Action
  service args inner =
      built_client (slots_of args) args.insecure_tls
      ∷ spawned_remote (ring_of args inner)
      ∷ awaited_interrupt
      ∷ aborted_worker
      ∷ []

  attach-Along :
      (args : Args) (inner : Inner queues) → Along (service args inner) (attach args inner)
  unfolding attach attend await_interrupt
  attach-Along args inner =
      let at_abort : Along (aborted_worker ∷ []) (ok tt, aborted_worker ∷ []) =
        ([], refl, λ _. refl) in
      let at_interrupt =
        act-Along awaited_interrupt o.ctrl_c (λ _. (ok tt, aborted_worker ∷ [])) _
          (λ _. at_abort) in
      let at_spawn =
        act-Along (spawned_remote (ring_of args inner)) (ok tt) (λ _. await_interrupt) _
          (λ _. at_interrupt) in
      act-Along (built_client (slots_of args) args.insecure_tls)
        (context (codes "failed to build the ingress client")
          (o.client (slots_of args) args.insecure_tls))
        (λ _. attend (ring_of args inner)) _ (λ _. at_spawn)

  -- What the ring is told of an engine whose loop begins as `rt` says: at least one place, and just as many
  -- as the loop has slots; the queue before the loop is at least as deep. The intervals are not zero,
  -- and there is a place to ask for work.
  pub record Agrees ⦃h : Host⦄ (inner : Inner queues) (rt : Runtime) (ring : RemoteWorkerConfig)
      : Type 0 where
    pub some_place : 1 ≤ ring.max_inflight
    pub as_wide :
        (b : h.Batch) (w : h.World) → ring.max_inflight ≡ length (new_state rt b w 0).slots
    pub depth : ℕ
    pub queue : inner.jobs ≡ some (channel depth)
    pub queue_fits : ring.max_inflight ≤ depth
    pub polls : 1 ≤ ring.poll_interval
    pub reports : 1 ≤ ring.heartbeat_interval
    pub discovers : 1 ≤ ring.discovery_interval
    pub attaches : attached ring.ingress_urls ring.discovery_dns ≡ ok tt

  -- How far a run comes.
  pub data Attends ⦃h : Host⦄ (args : Args) : Script Action (Unit {0}) → Type 0 where
    -- With nowhere to ask for work nothing is done.
    without_ingress :
        (error : Text)
        → attached args.ingress_urls args.discovery_dns ≡ err error
        → Attends args (err error, [])
    -- Without an engine nothing follows its start.
    without_engine :
        (error : Text)
        → started_engine args ≡ err error
        → Attends args (err error, spawned (engine_config args) ∷ [])
    -- With an engine its service is done in order, and all of it if the run succeeds. What the ring is
    -- told agrees with the engine that runs.
    with_engine :
        (inner : Inner queues) (rt : Runtime) (r : Script Action (Unit {0}))
        → started_engine args ≡ ok (inner, rt)
        → Along (service args inner) r
        → Agrees inner rt (ring_of args inner)
        → Attends args (r.0, spawned (engine_config args) ∷ r.1)

  ring_of-Agrees :
      ⦃h : Host⦄ (args : Args) (inner : Inner queues) (rt : Runtime)
      → Started queues channel (engine_config args) inner rt
      → attached args.ingress_urls args.discovery_dns ≡ ok tt
      → Agrees inner rt (ring_of args inner)
  unfolding ring_of capacity engine_config worker_config remote_worker_config
  ring_of-Agrees args inner rt started attaches = record {
    some_place = omega (arith, started.all_free, started.idle);
    as_wide = λ b w. sym (started.as_wide b w);
    depth = started.depth;
    queue = started.queue;
    queue_fits = started.deep;
    polls = omega arith;
    reports = omega arith;
    discovers = omega arith;
    attaches = attaches;
  }

  start-Attends :
      ⦃h : Host⦄ (args : Args)
      → args.max_inflight < 2 ^ 32
      → (found : Outcome (Unit {0})) → attached args.ingress_urls args.discovery_dns ≡ found
      → Attends args (
          bind
            (found, [])
            (λ _.
              bind
                (act (spawned (engine_config args)) (started_engine args))
                (λ r. attach args r.0)))
  unfolding bind engine_config started_engine
  start-Attends args narrow (err error) at = without_ingress error at
  start-Attends args narrow (ok _) at = elim (Outcome-cases (started_engine args)) [
    | inr (error, p) ↦ rw (p, bind) (without_engine error p)
    | inl ((inner, rt), p) ↦
        rw (p, bind)
          (with_engine inner rt (attach args inner) p (attach-Along args inner) (
            ring_of-Agrees args inner rt
              (spawn-Started platform queues channel (engine_config args) (new_process platform)
                inner rt (omega (arith, narrow)) p)
              at))
  ]

  -- Fewer than 2^32 places are configured. Without an origin or a name to find one by, the process ends
  -- before it starts the engine. Where the engine does not start, nothing follows. Where it does, the
  -- client, the worker and the wait for the interrupt follow in this order, as far as the run comes, and to the
  -- end if it succeeds; the ring is then told of at least one place and of just as many as the engine's
  -- loop has slots, behind a queue at least as deep, it is asked and told at intervals that are not
  -- zero, and there is an origin or a name to ask.
  pub main-Attends :
      ⦃h : Host⦄ (args : Args) → args.max_inflight < 2 ^ 32 → Attends args (main args)
  unfolding main
  main-Attends args narrow =
      start-Attends args narrow (attached args.ingress_urls args.discovery_dns) refl
