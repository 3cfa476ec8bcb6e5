-- ===== src/Worker/Whole.antt =====
-- The shape of a whole answer, and that what a generation or a refusal is answered with has it.
use llm_worker.Base.{
  concat, ◌≡◌, ◌≢◌, refl, sym, subst, Text, codes, Bool, true, false, List, [], ◌∷◌, ◌++◌, none,
}
use llm_worker.Engine.Types.{Event, token, done, failed}
use llm_worker.Engine.Handle.{Generation}
use llm_worker.Engine.Host.{Outcome, ok, err}
use llm_worker.Protocol.Json.{Printer}
use llm_worker.Protocol.Request.{ChatRequest}
use llm_worker.Protocol.Response.{ResponseWriter, error_body}
use llm_worker.Worker.Answer.{
  answer_writes, ending, first_writes, last_writes, piece_writes, pieces, verdict, json_answer,
}
use llm_worker.Worker.Writer.{Done, Write, started, sent_body, finished}

-- A head, one or more parts of a body, and the end.
pub data IsBody : List Write → Type 0 where
  last : (t : Text) → IsBody (sent_body t ∷ finished ∷ [])
  more : (t : Text) {writes : List Write} → IsBody writes → IsBody (sent_body t ∷ writes)

pub data IsAnswer : List Write → Type 0 where
  whole : {writes : List Write} → (head : _) → IsBody writes → IsAnswer (started head ∷ writes)

-- What the worker makes of the refusal of a request, of the refusal of a submission, and of a
-- generation.
abbrev pub submitted_writes :
    Printer → ChatRequest → ResponseWriter → List Event → Outcome Generation → List Write
submitted_writes p request response events (ok generation) = answer_writes p request response events
submitted_writes p request response events (err error) =
    json_answer 503 (error_body p error (codes "overloaded_error"))

abbrev pub submitted_verdict : Printer → List Event → Outcome Generation → Done
submitted_verdict p events (ok generation) = verdict p (ending events)
submitted_verdict p events (err error) = ok tt

module _ (p : Printer) (request : ChatRequest) (response : ResponseWriter) where
  stream-IsBody :
      (events : List Event) (text : Text)
      → request.stream ≡ true
      → ending events ≢ none
      → IsBody (
          piece_writes p true response (pieces events)
          ++ last_writes p request response text (ending events))
  stream-IsBody [] text h ends = absurd (ends refl)
  stream-IsBody (token piece ∷ events) text h ends = more _ (stream-IsBody events text h ends)
  stream-IsBody (done stop prompt tokens elapsed ∷ events) text h ends = rw h (last _)
  stream-IsBody (failed error ∷ events) text h ends = rw h (last _)

  buffer-IsAnswer :
      (events : List Event) (text : Text)
      → request.stream ≡ false
      → ending events ≢ none
      → IsAnswer (last_writes p request response text (ending events))
  buffer-IsAnswer [] text h ends = absurd (ends refl)
  buffer-IsAnswer (token piece ∷ events) text h ends = buffer-IsAnswer events text h ends
  buffer-IsAnswer (done stop prompt tokens elapsed ∷ events) text h ends = rw h (whole _ (last _))
  buffer-IsAnswer (failed error ∷ events) text h ends = rw h (whole _ (last _))

  answer_writes-IsAnswer :
      (b : Bool) (events : List Event)
      → request.stream ≡ b
      → ending events ≢ none
      → IsAnswer (answer_writes p request response events)
  answer_writes-IsAnswer true events h ends =
      subst
        (λ b. IsAnswer (
          first_writes p b response
          ++ (piece_writes p b response (pieces events)
              ++ last_writes p request response (concat (pieces events)) (ending events))))
        (sym h) (whole _ (more _ (stream-IsBody events (concat (pieces events)) h ends)))
  answer_writes-IsAnswer false events h ends =
      subst
        (λ b. IsAnswer (
          first_writes p b response
          ++ (piece_writes p b response (pieces events)
              ++ last_writes p request response (concat (pieces events)) (ending events))))
        (sym h) (buffer-IsAnswer events (concat (pieces events)) h ends)

  pub submitted_writes-IsAnswer :
      (events : List Event) (submitted : Outcome Generation)
      → ending events ≢ none
      → IsAnswer (submitted_writes p request response events submitted)
  submitted_writes-IsAnswer events (ok generation) ends =
      answer_writes-IsAnswer request.stream events refl ends
  submitted_writes-IsAnswer events (err error) ends = whole _ (last _)
