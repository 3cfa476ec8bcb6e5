-- ===== src/Worker/Answer.antt =====
-- What an answer consists of, for a writer whose stream stays open.
use llm_worker.Base.{
  concat, ℕ, ◌≡◌, refl, ap, ◌∙◌, Text, codes, Bool, true, false, List, [], ◌∷◌, ◌++◌, map,
  append_assoc, arith, Option, none, some,
}
use llm_worker.Engine.Types.{Event, token, done, failed}
use llm_worker.Engine.Host.{ok, err}
use llm_worker.Protocol.Json.{Printer}
use llm_worker.Protocol.Request.{ChatRequest, include_usage}
use llm_worker.Protocol.Response.{
  ResponseWriter, new_usage, stream_open, stream_token, stream_close, completion, error_frame,
  error_body,
}
use llm_worker.Worker.Serve.{then_some}
use llm_worker.Worker.Writer.{
  Write, started, sent_body, finished, Done, RingWriter, Healthy, response_head, sse_content_type,
  json_content_type, and_then, write_json, write_error, error_kind,
}

-- The pieces before the first event that ends a generation, and that event.
abbrev pub pieces : List Event → List Text
pieces [] = []
pieces (token piece ∷ events) = piece ∷ pieces events
pieces (done stop prompt tokens elapsed ∷ events) = []
pieces (failed error ∷ events) = []

abbrev pub ending : List Event → Option Event
ending [] = none
ending (token piece ∷ events) = ending events
ending (done stop prompt tokens elapsed ∷ events) = some (done stop prompt tokens elapsed)
ending (failed error ∷ events) = some (failed error)

abbrev pub json_answer : ℕ → Text → List Write
json_answer status text =
    started (response_head status json_content_type) ∷ sent_body text ∷ finished ∷ []

pub and_then-ok :
    {S : Type 0} (r : Done × S) (next : S → Done × S) → r.0 ≡ ok tt → and_then r next ≡ next r.1
unfolding and_then
and_then-ok (ok u, s) next h = refl
and_then-ok (err e, s) next h = ground arith

pub extends : {y z : List Write} (x a b : List Write) → y ≡ x ++ a → z ≡ y ++ b → z ≡ x ++ (a ++ b)
extends x a b h k = k ∙ ap (λ ws. ws ++ b) h ∙ append_assoc x a b

module _ (p : Printer) where
  -- What is written at the end of an answer whose text is `text`.
  abbrev pub last_writes : ChatRequest → ResponseWriter → Text → Option Event → List Write
  last_writes request response text none = []
  last_writes request response text (some (token piece)) = []
  last_writes request response text (some (done stop prompt tokens elapsed)) =
      let usage = new_usage prompt tokens in
      elim request.stream [
        | true ↦
            sent_body (stream_close p response stop (then_some (include_usage request) usage))
            ∷ finished
            ∷ []
        | false ↦ json_answer 200 (completion p response text stop usage)
      ]
  last_writes request response text (some (failed error)) = elim request.stream [
    | true ↦ sent_body (error_frame p error) ∷ finished ∷ []
    | false ↦ json_answer 500 (error_body p error (codes "server_error"))
  ]

  abbrev pub first_writes : Bool → ResponseWriter → List Write
  first_writes true response =
      started (response_head 200 sse_content_type) ∷ sent_body (stream_open p response) ∷ []
  first_writes false response = []

  abbrev pub piece_writes : Bool → ResponseWriter → List Text → List Write
  piece_writes true response texts = map (λ t. sent_body (stream_token p response t)) texts
  piece_writes false response texts = []

  -- All that answers a request whose submission is accepted.
  abbrev pub answer_writes : ChatRequest → ResponseWriter → List Event → List Write
  answer_writes request response events =
      first_writes request.stream response
      ++ (piece_writes request.stream response (pieces events)
          ++ last_writes request response (concat (pieces events)) (ending events))

  abbrev pub verdict : Option Event → Done
  verdict none = err (codes "engine closed the stream without finishing")
  verdict (some (token piece)) = ok tt
  verdict (some (done stop prompt tokens elapsed)) = ok tt
  verdict (some (failed error)) = err error

  module _ (ring : RingWriter) (healthy : Healthy ring) where
    open healthy use {written, starts, sends, finishes, written_start, written_send, written_finish}

    pub send_then :
        (w : ring.Writer) (t : Text) (next : ring.Writer → Done × ring.Writer)
        → and_then (ring.send_body w t) next ≡ next (ring.send_body w t).1
    send_then w t next = and_then-ok (ring.send_body w t) next (sends w t)

    -- The result and the writes of a step.
    abbrev pub Gives : Done × ring.Writer → Done → List Write → ring.Writer → Type 0
    Gives r result writes w = (r.0 ≡ result) × (written r.1 ≡ written w ++ writes)

    pub send_finish_lem :
        (w : ring.Writer) (t : Text)
        → Gives
            (and_then (ring.send_body w t) (λ w. ring.finish w))
            (ok tt)
            (sent_body t ∷ finished ∷ [])
            w
    send_finish_lem w t =
        let v = (ring.send_body w t).1 in
        rw (send_then w t (λ w. ring.finish w)) (
          finishes v,
          extends (written w) (sent_body t ∷ []) (finished ∷ []) (written_send w t)
              (written_finish v),
        )

    pub write_json_lem :
        (status : ℕ) (t : Text) (w : ring.Writer)
        → Gives (write_json p ring status t w) (ok tt) (json_answer status t) w
    unfolding write_json
    write_json_lem status t w =
        let head = response_head status json_content_type in
        let v = (ring.ensure_started w head).1 in
        let (result, writes) = send_finish_lem v t in
        rw
          (and_then-ok (ring.ensure_started w head)
            (λ w. and_then (ring.send_body w t) (λ w. ring.finish w)) (starts w head))
          (
            result,
            extends (written w) (started head ∷ []) (sent_body t ∷ finished ∷ [])
                (written_start w head) writes,
          )

    pub write_error_lem :
        (status : ℕ) (message : Text) (w : ring.Writer)
        → Gives
            (write_error p ring status message w)
            (ok tt)
            (json_answer status (error_body p message (error_kind status)))
            w
    unfolding write_error
    write_error_lem status message w =
        write_json_lem status (error_body p message (error_kind status)) w
