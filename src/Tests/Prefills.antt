-- ===== src/Tests/Prefills.antt =====
-- A prefill of the toy host for a request that asks for no token.
use llm_worker.Base.{◌≡◌, refl, [], pos}
use llm_worker.Engine.Types.{Job, context_full}
use llm_worker.Engine.Prefill.{prefill, prepare, build_prompt, first_token, finished}
use llm_worker.Engine.Prefill.Ends.{Ends, prefill-Ends}
use llm_worker.Tests.Toy.{toy, runtime, job_on}

abbrev no_tokens : Job
no_tokens = record (job_on 3) { request = record (job_on 3).request { max_tokens = pos 0 } }

prefill-Ends_example : Ends runtime no_tokens 0 0 [] (prefill runtime no_tokens 0 0 []).0
prefill-Ends_example = prefill-Ends runtime no_tokens 0 0 []

-- The model would go on, and the context has room.
no_tokens_lem : (prefill runtime no_tokens 0 0 []).0 ≡ finished context_full 2 0
unfolding prefill prepare build_prompt first_token
no_tokens_lem = refl
