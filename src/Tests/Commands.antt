-- ===== src/Tests/Commands.antt =====
-- The command line, with a standard output that takes everything.
use llm_worker.Base.{◌≡◌, refl, ◌++◌, ◌∷◌, [], Text, codes, some, List, true, arith, ℕ}
use llm_worker.Cli.{Screen, Ready, received, run, new_session}
use llm_worker.Cli.Heard.{heard}
use llm_worker.Cli.Printed.{Shows, run-answer}
use llm_worker.Engine.Host.{ok}
use llm_worker.Engine.Stream.{Ended}
use llm_worker.Engine.Types.{token, done, cancelled}

abbrev paper : Screen
paper = record { Out = Text; write = λ out text. (ok tt, out ++ text); flush = λ out. (ok tt, out) }

abbrev paper_shows : Shows paper
paper_shows = record {
  shown = λ out. out;
  writes = λ out text. refl;
  flushes = λ out. refl;
  shown_write = λ out text. refl;
  shown_flush = λ out. refl;
}

-- Two texts, with the wish to cancel at the second.
abbrev inputs : List Ready
inputs =
    received (some (token (codes "he")))
    ∷ received (some (token (codes "llo")))
    ∷ received (some (done cancelled 3 2 7))
    ∷ []

abbrev answer : Ended 128 (heard inputs)
answer = record {
  texts = codes "he" ∷ codes "llo" ∷ [];
  last = done cancelled 3 2 7;
  shape = refl;
  counted = (refl, omega arith);
}

abbrev rate : ℕ → ℕ → Text
rate tokens ms = codes "285.7"

run-answer_example :
    let r = run paper rate (some 2) inputs (new_session paper []) in
    (r.0 ≡ some (ok tt)) × (r.1.out ≡ codes "hello\n") × (r.1.is_cancelled ≡ true)
run-answer_example = run-answer paper paper_shows rate (some 2) 128 inputs [] answer (omega arith)
