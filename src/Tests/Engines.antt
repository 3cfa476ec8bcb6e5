-- ===== src/Tests/Engines.antt =====
-- The engine's theorems at the toy host.
use llm_worker.Base.{
  ℕ, zero, suc, ◌+◌, ◌≡◌, refl, Bool, true, false, List, [], ◌∷◌, length, arith, some, none,
}
use llm_worker.Engine.Types.{Job, token, done, end_of_generation, cancelled}
use llm_worker.Engine.Pool.{State, slot_at, retire}
use llm_worker.Engine.Pool.Release.{Balanced}
use llm_worker.Engine.Serve.{round, serve, new_state, conclude}
use llm_worker.Engine.Occupancy.{round-Balanced}
use llm_worker.Engine.Window.{AllFit, round-AllFit}
use llm_worker.Engine.Slot.{Slot, flush, is_cancelled}
use llm_worker.Engine.Prefill.{prefill, first_token, prepare, build_prompt}
use llm_worker.Engine.Prefill.Fits.{Fits}
use llm_worker.Engine.Admit.{admit, take_job, gate}
use llm_worker.Engine.Step.{step, gather_all, decode_rows, sample_rows, emit, smooth}
use llm_worker.Engine.Ledger.{tally, ledger}
use llm_worker.Engine.Terminals.{Ends, arrivals, serve-ledger}
use llm_worker.Tests.Toy.{toy, toy_laws, runtime, job_on, IsOpen-3, received_on}

abbrev pub fresh : State
fresh = record {
  slots = none ∷ none ∷ [];
  outbox = [];
  batch = 0;
  step_us = 0;
  world = [];
  inflight = 0;
  decoding = 0;
}

fresh_new : new_state runtime 0 [] 0 ≡ fresh
unfolding new_state
fresh_new = refl

-- Two requests, one of them cancelled, and then no more senders.
abbrev pub schedule : List (List Job × Bool)
schedule =
    (job_on 3 ∷ job_on 7 ∷ [], false) ∷ ([], false) ∷ ([], true) ∷ ([], true) ∷ ([], true) ∷ []

abbrev final : Bool × List Job × State
final = serve runtime schedule false [] fresh

-- The whole run: the cancelled request is told so, and the other gets its three tokens and the end.
pub final_lem :
    (final.0 ≡ true)
    × (final.2.inflight ≡ 0)
    × (final.2.world
        ≡ (7, done cancelled 0 0 0)
          ∷ (3, token (10 ∷ []))
          ∷ (3, token (11 ∷ []))
          ∷ (3, token (12 ∷ []))
          ∷ (3, done end_of_generation 2 3 0)
          ∷ [])
unfolding serve round admit take_job prefill first_token prepare build_prompt step gather_all
    decode_rows sample_rows emit flush retire is_cancelled conclude gate smooth
final_lem = (refl, refl, refl)

round-Balanced_example :
    let (_, _, rest, st) =
      round runtime false false (job_on 3 ∷ []) (record fresh { inflight = 1 }) in
    Balanced (length rest) st
round-Balanced_example =
    round-Balanced runtime false false (job_on 3 ∷ []) (record fresh { inflight = 1 }) (omega arith)

pub fresh-AllFit : AllFit runtime fresh
fresh-AllFit = λ i slot e. none_at i e
  where
    none_at : (i : ℕ) {slot : Slot} → slot_at fresh i ≡ some slot → Fits runtime i slot
    none_at zero e = cc
    none_at (suc zero) e = cc
    none_at (suc (suc i)) e = cc

round-AllFit_example : AllFit runtime (round runtime false false (job_on 3 ∷ []) fresh).3
round-AllFit_example =
    round-AllFit runtime false false (job_on 3 ∷ []) fresh (omega arith) fresh-AllFit

pub schedule-Ends : Ends false schedule
schedule-Ends = (λ e. cc, (λ e. cc, (λ e. cc, (λ e. (refl, refl), (λ e. (refl, refl), tt)))))

serve-ledger_example :
    tally (received_on (serve runtime schedule false [] fresh).2.world 3)
    ≡ ledger toy_laws 3 [] fresh + arrivals 3 schedule
serve-ledger_example =
    serve-ledger runtime toy_laws 3 IsOpen-3 schedule false false [] fresh schedule-Ends (λ e. cc)
      final_lem.0
