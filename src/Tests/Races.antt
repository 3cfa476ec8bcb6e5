-- ===== src/Tests/Races.antt =====
-- A request that is cancelled before its caller has counted it, at the toy host.
use llm_worker.Base.{◌≡◌, refl, true, false, [], arith}
use llm_worker.Engine.Admit.{room, gate, take_job}
use llm_worker.Engine.Handle.{Inner}
use llm_worker.Engine.Moves.{takes}
use llm_worker.Engine.Pool.{State, active}
use llm_worker.Engine.Pool.Release.{Balanced}
use llm_worker.Engine.Race.{
  Interleaved, start, then_step, sends, counts, engine, count, settled-Balanced,
}
use llm_worker.Tests.Engines.{fresh}
use llm_worker.Tests.Toy.{toy, runtime, job_on}
use llm_worker.Tests.Workers.{two_places, inner}

-- The engine's thread has taken the request of channel 7, whose flag is set.
abbrev taken : State
taken = (take_job runtime (job_on 7) 0 fresh).1

has_room : gate runtime fresh ≡ room 0 true false
unfolding gate
has_room = refl

taken_first : Interleaved runtime 0 [] fresh 1 [] taken
taken_first =
    then_step (then_step start (sends (job_on 7))) (engine (takes (job_on 7) 0 true false has_room))

counted_later : Interleaved runtime 0 [] fresh 0 [] (count runtime taken)
counted_later = then_step taken_first counts

none_at_work : active taken ≡ 0
unfolding take_job
none_at_work = refl

settled-Balanced_example : Balanced 0 (count runtime taken)
unfolding count
settled-Balanced_example =
    settled-Balanced runtime [] [] fresh (count runtime taken) counted_later (omega arith)
      (omega (arith, none_at_work))

abbrev shared : Inner two_places
shared = record inner { inflight = taken.inflight }
