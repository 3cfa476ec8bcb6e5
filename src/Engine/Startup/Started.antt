-- ===== src/Engine/Startup/Started.antt =====
-- What a start of the engine promises.
use llm_worker.Base.{
  ℕ, zero, suc, ◌^◌, ◌≤◌, ◌<◌, ◌≡◌, ◌≢◌, refl, sym, ap, ◌∙◌, subst, max, u32, codes, Text, Bool,
  true, false, ◌++◌, none, some, inl, inr, length, length-replicate, replicate, arith,
}
use llm_worker.Engine.Types.{EngineConfig, ModelInfo, local}
use llm_worker.Engine.Handle.{JobQueue, Inner, capacity, engine_width, queue_depth}
use llm_worker.Engine.Host.{Host, Outcome, ok, err, Outcome-cases}
use llm_worker.Engine.Slot.{Slot}
use llm_worker.Engine.Pool.{occupied}
use llm_worker.Engine.Pool.Occupied.{entry}
use llm_worker.Engine.Pool.Release.{Balanced}
use llm_worker.Engine.Prefill.{Runtime, >>=-inversion, context}
use llm_worker.Engine.Serve.{load, new_state}
use llm_worker.Engine.Window.{AllFit}
use llm_worker.Engine.Startup.{
  Platform, Process, Loaded, context_params, resolve, load_with, loaded, load_runtime, open_context,
  engine_thread, received, spawn, handle,
}

module _ ⦃h : Host⦄ where
  occupied-replicate : (n : ℕ) → occupied (replicate n none) ≡ 0
  occupied-replicate zero = refl
  occupied-replicate (suc n) = occupied-replicate n

  no_slot_at : (n i : ℕ) (slot : Slot) → entry (replicate n none) i ≢ some slot
  no_slot_at zero i slot = λ e. cc
  no_slot_at (suc n) zero slot = λ e. cc
  no_slot_at (suc n) (suc i) slot = no_slot_at n i slot

-- What the handle of a fresh engine says, and the loop that stands behind it.
pub record Started ⦃h : Host⦄ (queues : JobQueue) (channel : ℕ → queues.Queue)
    (config : EngineConfig) (inner : Inner queues) (rt : Runtime) : Type 1 where
  pub idle : (capacity queues inner).inflight ≡ 0
  pub all_free : (capacity queues inner).available_slots ≡ max config.max_inflight 1
  pub window : (inner.info.n_ctx ≡ config.n_ctx) × (rt.n_ctx ≡ config.n_ctx)
  pub depth : ℕ
  pub queue : inner.jobs ≡ some (channel depth)
  pub deep : (capacity queues inner).max_inflight ≤ depth
  pub as_wide :
      (b : h.Batch) (w : h.World)
      → length (new_state rt b w 0).slots ≡ (capacity queues inner).max_inflight
  pub balanced : (b : h.Batch) (w : h.World) → Balanced 0 (new_state rt b w 0)
  pub fit : (b : h.Batch) (w : h.World) → AllFit rt (new_state rt b w 0)

module _ (platform : Platform) (queues : JobQueue) (channel : ℕ → queues.Queue) where
  err-ok {κ} : {A : Type κ} (error : Text) (a : A) → err error ≢ ok a
  err-ok error a = λ e. cc

  received-ok :
      (survives : Bool) (message : Outcome Runtime) (rt : Runtime)
      → received platform survives message ≡ ok rt
      → message ≡ ok rt
  received-ok true message rt e = e
  received-ok false message rt e = absurd (err-ok _ rt e)

  load_with-loaded :
      (config : EngineConfig) (path : Text) (shared : Outcome platform.Backend)
      (l : Loaded platform)
      → load_with platform config path shared ≡ ok l
      → (info : ModelInfo) × (info.n_ctx ≡ config.n_ctx) × (l.runtime ≡ load config info)
  unfolding load_with loaded
  load_with-loaded config path shared l e =
      let (backend, _, e₁) = >>=-inversion shared _ e in
      let (model, _, e₂) =
        >>=-inversion
          (context (codes "failed to load " ++ path)
            (platform.load_from_file backend path config.n_gpu_layers))
          _ e₁ in
      let same : loaded platform config path backend model ≡ l = cc e₂ in
      (
        record {
          path = path;
          n_params = platform.n_params model;
          n_layer = platform.n_layer model;
          n_ctx = config.n_ctx;
        },
        refl,
        ap (λ (k : Loaded platform). k.runtime) (sym same),
      )

  load_runtime-loaded :
      (config : EngineConfig) (process : Process platform) (l : Loaded platform)
      → (load_runtime platform config process).0 ≡ ok l
      → (info : ModelInfo) × (info.n_ctx ≡ config.n_ctx) × (l.runtime ≡ load config info)
  unfolding load_runtime
  load_runtime-loaded config process l e = elim (Outcome-cases (resolve platform config.model)) [
    | inl (path, p) ↦ load_with-loaded config path _ l (rw (p, load_runtime) at e)
    | inr (error, p) ↦ absurd (err-ok error l (rw (p, load_runtime) at e))
  ]

  spawn-loaded :
      (config : EngineConfig) (process : Process platform) (inner : Inner queues) (rt : Runtime)
      → (spawn platform queues channel config process).0 ≡ ok (inner, rt)
      → (info : ModelInfo) × (info.n_ctx ≡ config.n_ctx)
        × (rt ≡ load config info)
        × (inner ≡ handle platform queues channel config rt)
  unfolding spawn engine_thread open_context
  spawn-loaded config process inner rt e = elim (Outcome-cases platform.start_thread) [
    | inr (error, p) ↦ absurd (err-ok _ (inner, rt) (rw (p, spawn) at e))
    | inl (u, p) ↦
        let message = (engine_thread platform config process).0 in
        let (rt₁, got, e₁) =
          >>=-inversion (received platform platform.survives message) _ (rw (p, spawn) at e) in
        let same : (handle platform queues channel config rt₁, rt₁) ≡ (inner, rt) = cc e₁ in
        let (l, loads, opens) =
          >>=-inversion (load_runtime platform config process).0 _
            (received-ok platform.survives message rt₁ got) in
        let (_, _, e₂) =
          >>=-inversion
            (context (codes "failed to create the llama context")
              (platform.new_context l.model l.backend (context_params l.runtime)))
            _ opens in
        let runs : l.runtime ≡ rt₁ = cc e₂ in
        let (info, window, made) = load_runtime-loaded config process l loads in
        let rt_same = ap (λ (x : Inner queues × Runtime). x.1) same in
        (
          info,
          window,
          sym rt_same ∙ sym runs ∙ made,
          sym (ap (λ (x : Inner queues × Runtime). x.0) same)
              ∙ ap (handle platform queues channel config) rt_same,
        )
  ]

  Started-load :
      ⦃h : Host⦄ (config : EngineConfig) (info : ModelInfo)
      → info.n_ctx ≡ config.n_ctx
      → config.max_inflight < 2 ^ 32
      → Started queues channel config
          (handle platform queues channel config (load config info))
          (load config info)
  unfolding handle load capacity engine_width queue_depth new_state
  Started-load config info window narrow =
      let width : u32 (max config.max_inflight 1) ≡ max config.max_inflight 1 =
        omega (arith, narrow) in
      record {
        idle = refl;
        all_free = omega arith;
        window = (window, refl);
        depth = queue_depth config;
        queue = refl;
        deep = omega arith;
        as_wide = λ b w. length-replicate (u32 (max config.max_inflight 1)) none ∙ width;
        balanced = λ b w.
            let none_taken = occupied-replicate (u32 (max config.max_inflight 1)) in
            record { counted = omega (arith, none_taken); in_range = omega (arith, none_taken) };
        fit = λ b w i slot e. absurd (no_slot_at (u32 (max config.max_inflight 1)) i slot e);
      }

  -- An engine that starts, with fewer than 2^32 places configured, has nothing at work and every place
  -- free, at least one; its queue holds at least as many requests as it has places; the window is the
  -- configured one; and the loop that stands behind the handle begins with as many slots as the handle
  -- says, with its meter true and with no slot that is past its window.
  pub spawn-Started :
      ⦃h : Host⦄ (config : EngineConfig) (process : Process platform) (inner : Inner queues)
      (rt : Runtime)
      → config.max_inflight < 2 ^ 32
      → (spawn platform queues channel config process).0 ≡ ok (inner, rt)
      → Started queues channel config inner rt
  spawn-Started config process inner rt narrow e =
      let (info, window, made, held) = spawn-loaded config process inner rt e in
      subst (λ i. Started queues channel config i rt) (sym held)
        (subst (λ r. Started queues channel config (handle platform queues channel config r) r)
          (sym made) (Started-load config info window narrow))

  -- The configured model is a path with no file. A thread that starts and lives says so, and `spawn`
  -- fails with the path in its message; llama.cpp is not initialised for it.
  pub spawn-missing :
      (config : EngineConfig) (process : Process platform) (path : Text)
      → platform.start_thread ≡ ok tt
      → platform.survives ≡ true
      → config.model ≡ local path
      → platform.is_file path ≡ false
      → spawn platform queues channel config process
        ≡ (err (codes "no model file at " ++ path), process)
  unfolding spawn engine_thread load_runtime resolve
  spawn-missing config process path starts lives model missing =
      let not_there : resolve platform config.model ≡ err (codes "no model file at " ++ path) =
        ap (resolve platform) model ∙ rw missing refl in
      rw (starts, spawn, not_there, load_runtime, lives) refl
