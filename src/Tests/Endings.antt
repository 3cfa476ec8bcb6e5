-- ===== src/Tests/Endings.antt =====
-- The loop of a host where every channel has room, once the senders are gone.
use llm_worker.Base.{
  ℕ, zero, suc, ◌≡◌, ◌≢◌, refl, true, false, [], ◌∷◌, ◌++◌, none, some, replicate, arith,
}
use llm_worker.Engine.Host.{Host, sent}
use llm_worker.Engine.Pool.{State, slot_at}
use llm_worker.Engine.Slot.{Slot}
use llm_worker.Engine.Serve.{serve}
use llm_worker.Engine.Shutdown.Rounds.{serve-ends}
use llm_worker.Engine.Window.{AllFit}
use llm_worker.Tests.Toy.{toy, runtime, job_on}

-- As the toy host, with every event accepted.
abbrev roomy : Host
roomy = record toy { try_send = λ w c e. (sent, w ++ (c, e) ∷ []) }

abbrev start : State ⦃h = roomy⦄
start = record {
  slots = none ∷ none ∷ [];
  outbox = [];
  batch = 0;
  step_us = 0;
  world = [];
  inflight = 0;
  decoding = 0;
}

start-AllFit : AllFit ⦃h = roomy⦄ runtime start
start-AllFit = λ i slot e. absurd (none_at i e)
  where
    none_at : (i : ℕ) {slot : Slot ⦃h = roomy⦄} → slot_at ⦃h = roomy⦄ start i ≢ some slot
    none_at zero = λ e. cc
    none_at (suc zero) = λ e. cc
    none_at (suc (suc i)) = λ e. cc

-- Two requests, of 128 tokens each.
serve-ends_example :
    (serve ⦃h = roomy⦄ runtime (replicate 1025 ([], true)) false (job_on 3 ∷ job_on 7 ∷ []) start).0
    ≡ true
serve-ends_example =
    serve-ends ⦃h = roomy⦄ runtime (omega arith) (λ w c e. refl) 1025 false
      (job_on 3 ∷ job_on 7 ∷ []) start start-AllFit (omega arith) (omega arith)
