-- ===== src/Cli.antt =====
-- llm-engine/src/main.rs: the command line of the engine.
pub mod Heard
pub mod Printed
use llm_worker.Base.{
  ℕ, ◌+◌, max, u32, ℤ, Text, codes, decimal, Bool, true, false, ◌==◌, List, [], ◌∷◌, ◌++◌, Option,
  none, some, if◌then◌else◌,
}
use llm_worker.Engine.Types.{
  ModelSource, local, hugging_face, EngineConfig, default_config, Message, system_message,
  user_message, GenerateRequest, default_request, Event, token, done, failed, Stop,
  end_of_generation, limit, context_full, cancelled,
}
use llm_worker.Engine.Host.{Outcome, ok, err}
use llm_worker.Engine.Handle.{JobQueue, Inner, Generation, submit}
use llm_worker.Worker.Writer.{Done, and_then}

pub record Args : Type 0 where
  pub model : Option Text
  pub repo : Text
  pub file : Text
  pub prompt : Text
  pub system : Option Text
  pub max_tokens : ℤ
  pub ctx_size : ℕ
  pub temperature : ℕ
  pub seed : ℕ
  pub think : Bool
  pub cancel_after : Option ℕ

unfoldable pub model_source : Args → ModelSource
model_source args = elim args.model [
  | some path ↦ local path
  | none ↦ hugging_face args.repo args.file
]

unfoldable pub engine_config : Args → EngineConfig
unfolding model_source
engine_config args = record default_config { model = model_source args; n_ctx = args.ctx_size }

unfoldable pub messages : Args → List Message
messages args = elim args.system [
  | none ↦ user_message args.prompt ∷ []
  | some system ↦ system_message system ∷ user_message args.prompt ∷ []
]

unfoldable pub request : Args → GenerateRequest
unfolding messages
request args = record default_request {
  messages = messages args;
  max_tokens = args.max_tokens;
  temperature = args.temperature;
  seed = args.seed;
  think = args.think;
}

-- The branch that `select!` takes: an interrupt, or what `recv` gives.
pub data Ready : Type 0 where
  interrupt : Ready
  received : Option Event → Ready

-- The standard output; a call may fail.
pub record Screen : Type 1 where
  pub Out : Type 0
  pub write : Out → Text → Done × Out
  pub flush : Out → Done × Out

-- `{stop:?}`
abbrev pub stop_debug : Stop → Text
stop_debug end_of_generation = codes "EndOfGeneration"
stop_debug limit = codes "Limit"
stop_debug context_full = codes "ContextFull"
stop_debug cancelled = codes "Cancelled"

-- The line on a generation that is done; `rate` is the printed quotient of tokens and seconds.
unfoldable pub summary : (ℕ → ℕ → Text) → Stop → ℕ → ℕ → ℕ → Text
summary rate stop prompt_tokens tokens elapsed_ms =
    decimal prompt_tokens
    ++ (codes " prompt, "
        ++ (decimal tokens
            ++ (codes " tokens in "
                ++ (decimal elapsed_ms
                    ++ (codes "ms ("
                        ++ (rate tokens (max elapsed_ms 1)
                            ++ (codes " tok/s), stop: " ++ (stop_debug stop ++ codes "\n"))))))))

abbrev pub released_note : Stop → Text
released_note cancelled = codes "cancelled; slot released\n"
released_note end_of_generation = []
released_note limit = []
released_note context_full = []

-- `args.cancel_after == Some(seen)`
abbrev pub is_at : Option ℕ → ℕ → Bool
is_at none seen = false
is_at (some n) seen = n == seen

-- Whether the loop goes on, or is left with a result.
pub data Turn : Type 0 where
  again : Turn
  leave : Done → Turn

-- What follows a call that may fail: with `?` the program ends.
abbrev pub or_leave : Done → Turn → Turn
or_leave (ok u) turn = turn
or_leave (err error) turn = leave (err error)

module _ (screen : Screen) where
  -- The standard output and error, the tokens so far, and whether the generation's flag is set.
  pub record Session : Type 0 where
    pub out : screen.Out
    pub errors : Text
    pub seen : ℕ
    pub is_cancelled : Bool

  abbrev pub new_session : screen.Out → Session
  new_session out = record { out = out; errors = []; seen = 0; is_cancelled = false }

module _ (screen : Screen) (rate : ℕ → ℕ → Text) (cancel_after : Option ℕ) where
  open screen use {Out, write, flush}

  unfoldable pub print_token : Text → Session screen → Done × Session screen
  unfolding and_then
  print_token piece s =
      let (result, out) = and_then (write s.out piece) (λ out. flush out) in
      let seen = u32 (s.seen + 1) in
      elim result [
        | err error ↦ (err error, record s { out = out })
        | ok _ ↦ (
          ok tt,
          record s {
            out = out;
            seen = seen;
            is_cancelled = if is_at cancel_after seen then true else s.is_cancelled;
          },
        )
      ]

  unfoldable pub on_event : Option Event → Session screen → Turn × Session screen
  unfolding print_token summary
  on_event none s = (leave (ok tt), s)
  on_event (some (token piece)) s =
      let (result, s') = print_token piece s in (or_leave result again, s')
  on_event (some (done stop prompt_tokens tokens elapsed_ms)) s =
      let (result, out) = write s.out (codes "\n") in
      let line = summary rate stop prompt_tokens tokens elapsed_ms in
      elim result [
        | err error ↦ (leave (err error), record s { out = out })
        | ok _ ↦ (
          leave (ok tt),
          record s { out = out; errors = s.errors ++ (line ++ released_note stop) },
        )
      ]
  on_event (some (failed error)) s =
      let (result, out) = write s.out (codes "\n") in
      (or_leave result (leave (err error)), record s { out = out })

  unfoldable pub on_ready : Ready → Session screen → Turn × Session screen
  unfolding on_event
  on_ready interrupt s = (again, record s { errors = s.errors ++ codes "\n"; is_cancelled = true })
  on_ready (received event) s = on_event event s

  -- The loop over what becomes ready: its result, if it is left.
  unfoldable pub run : List Ready → Session screen → Option Done × Session screen
  unfolding on_ready
  run [] s = (none, s)
  run (r ∷ later) s =
      let (turn, s') = on_ready r s in
      let rest = run later s' in elim turn [ again ↦ rest | leave result ↦ (some result, s') ]

module _ (screen : Screen) (rate : ℕ → ℕ → Text) (queues : JobQueue) where
  unfoldable pub converse :
      Args → Outcome Generation → List Ready → screen.Out → Option Done × screen.Out
  unfolding run
  converse args (err error) inputs out = (some (err error), out)
  converse args (ok generation) inputs out =
      let (result, s) = run screen rate args.cancel_after inputs (new_session screen out) in
      (result, s.out)

  -- `main` behind the reading of the arguments; `spawned` is what `Engine::spawn` gives for the
  -- configuration, and `generation` is the fresh channel and flag of the request.
  unfoldable pub main :
      Args
      → (EngineConfig → Outcome (Inner queues))
      → Generation
      → List Ready
      → screen.Out
      → Option Done × screen.Out
  unfolding engine_config request converse
  main args spawned generation inputs out = elim (spawned (engine_config args)) [
    | err error ↦ (some (err error), out)
    | ok inner ↦ converse args (submit queues (request args) generation inner).0 inputs out
  ]
