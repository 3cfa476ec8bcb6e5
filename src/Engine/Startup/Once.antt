-- ===== src/Engine/Startup/Once.antt =====
-- llama.cpp's backend is the process's: it is initialised once.
use llm_worker.Base.{ℕ, ◌≤◌, ◌≡◌, refl, List, [], ◌∷◌, none, some, inl, inr, ◌⊎◌, arith}
use llm_worker.Engine.Types.{EngineConfig}
use llm_worker.Engine.Handle.{JobQueue}
use llm_worker.Engine.Host.{Outcome-cases}
use llm_worker.Engine.Startup.{
  Platform, Process, resolve, shared_backend, get_or_init, load_runtime, engine_thread, spawn,
  spawn_all, new_process,
}

module _ (platform : Platform) (queues : JobQueue) (channel : ℕ → queues.Queue) where
  -- The backend is asked for once at most.
  record Once (process : Process platform) : Type 0 where
    pub asked :
        ((process.backend ≡ none) × (process.inits ≡ 0))
        ⊎ ((process.backend ≡ some (platform.init 0)) × (process.inits ≡ 1))

  get_or_init-Once :
      (process : Process platform) → Once process → Once (get_or_init platform process).1
  unfolding get_or_init
  get_or_init-Once process once = elim once.asked [
    | inl (empty, never) ↦ record { asked = inr (rw (empty, get_or_init, never) (refl, refl)) }
    | inr (full, first) ↦ record { asked = inr (rw (full, get_or_init) (full, first)) }
  ]

  spawn-Once :
      (config : EngineConfig) (process : Process platform)
      → Once process
      → Once (spawn platform queues channel config process).1
  unfolding spawn engine_thread load_runtime shared_backend
  spawn-Once config process once = elim (Outcome-cases platform.start_thread) [
    | inr (error, p) ↦ rw (p, spawn) once
    | inl (u, p) ↦ elim (Outcome-cases (resolve platform config.model)) [
      | inr (error, q) ↦ rw (p, spawn, q, load_runtime) once
      | inl (path, q) ↦ rw (p, spawn, q, load_runtime) (get_or_init-Once process once)
    ]
  ]

  spawn_all-Once :
      (configs : List EngineConfig) (process : Process platform)
      → Once process
      → Once (spawn_all platform queues channel configs process).1
  spawn_all-Once [] process once = once
  spawn_all-Once (config ∷ configs) process once =
      spawn_all-Once configs (spawn platform queues channel config process).1
        (spawn-Once config process once)

  -- However many engines a process starts, one after another, llama.cpp's backend is initialised at
  -- most once, and it is so also when that one call fails.
  pub spawn_all-inits :
      (configs : List EngineConfig)
      → (spawn_all platform queues channel configs (new_process platform)).1.inits ≤ 1
  spawn_all-inits configs =
      let once =
        spawn_all-Once configs (new_process platform) (record { asked = inl (refl, refl) }) in
      elim once.asked [
        | inl (_, never) ↦ omega (arith, never)
        | inr (_, first) ↦ omega (arith, first)
      ]
