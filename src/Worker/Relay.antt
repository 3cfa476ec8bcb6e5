-- ===== src/Worker/Relay.antt =====
-- What the loop of `serve` writes, for a writer whose stream stays open.
use llm_worker.Base.{
  concat, ◌≡◌, refl, sym, ap, ◌∙◌, Text, Bool, true, false, List, [], ◌∷◌, ◌++◌, append_assoc,
  append-nil,
}
use llm_worker.Engine.Types.{Event, token, done, failed}
use llm_worker.Engine.Host.{ok, err}
use llm_worker.Protocol.Json.{Printer}
use llm_worker.Protocol.Request.{ChatRequest, include_usage}
use llm_worker.Protocol.Response.{ResponseWriter, stream_open, stream_token, error_frame}
use llm_worker.Worker.Answer.{
  pieces, ending, last_writes, first_writes, piece_writes, verdict, Gives, and_then-ok,
  answer_writes, extends, send_then, send_finish_lem, write_json_lem, write_error_lem,
}
use llm_worker.Worker.Serve.{open_stream, conclude_done, conclude_failed, relay, respond}
use llm_worker.Worker.Writer.{
  started, sent_body, Done, RingWriter, Healthy, response_head, sse_content_type, and_then,
  write_error, error_kind,
}

module _ (p : Printer) (ring : RingWriter) (request : ChatRequest) (response : ResponseWriter) where
  pub relay-token_stream :
      (piece : Text) (events : List Event) (text : Text) (w : ring.Writer)
      → request.stream ≡ true
      → relay p ring request response text (token piece ∷ events) w
        ≡ and_then
            (ring.send_body w (stream_token p response piece))
            (λ w. relay p ring request response text events w)
  unfolding relay
  relay-token_stream piece events text w h =
      ap
        (λ b. elim b as (λ _. Done × ring.Writer) [
          | true ↦
              and_then (ring.send_body w (stream_token p response piece))
                (λ w. relay p ring request response text events w)
          | false ↦ relay p ring request response (text ++ piece) events w
        ])
        h

  relay-token_buffer :
      (piece : Text) (events : List Event) (text : Text) (w : ring.Writer)
      → request.stream ≡ false
      → relay p ring request response text (token piece ∷ events) w
        ≡ relay p ring request response (text ++ piece) events w
  unfolding relay
  relay-token_buffer piece events text w h =
      ap
        (λ b. elim b as (λ _. Done × ring.Writer) [
          | true ↦
              and_then (ring.send_body w (stream_token p response piece))
                (λ w. relay p ring request response text events w)
          | false ↦ relay p ring request response (text ++ piece) events w
        ])
        h

module _ (p : Printer) (ring : RingWriter) (healthy : Healthy ring) where
  open healthy use {written, starts, written_start, written_send}

  module _ (request : ChatRequest) (response : ResponseWriter) where
    -- An answer that streams writes each piece as it comes; what it gathers is not used.
    relay_stream_lem :
        request.stream ≡ true
        → (events : List Event) (text whole : Text) (w : ring.Writer)
        → Gives p ring healthy
            (relay p ring request response text events w)
            (verdict p (ending events))
            (piece_writes p true response (pieces events)
              ++ last_writes p request response whole (ending events))
            w
    unfolding relay conclude_done conclude_failed include_usage
    relay_stream_lem h [] text whole w = (refl, sym (append-nil (written w)))
    relay_stream_lem h (token piece ∷ events) text whole w =
        let t = stream_token p response piece in
        let v = (ring.send_body w t).1 in
        let (result, writes) = relay_stream_lem h events text whole v in
        rw
          (relay-token_stream p ring request response piece events text w h
            ∙ send_then p ring healthy w t (λ w. relay p ring request response text events w))
          (result, extends (written w) (sent_body t ∷ []) _ (written_send w t) writes)
    relay_stream_lem h (done stop prompt tokens elapsed ∷ events) text whole w =
        rw h (send_finish_lem p ring healthy w _)
    relay_stream_lem h (failed error ∷ events) text whole w =
        let t = error_frame p error in
        let (result, writes) = send_finish_lem p ring healthy w t in
        rw
          (
            h,
            and_then-ok (and_then (ring.send_body w t) (λ w. ring.finish w)) (λ w. (err error, w))
                result,
          )
          (refl, writes)

    relay_buffer_lem :
        request.stream ≡ false
        → (events : List Event) (text : Text) (w : ring.Writer)
        → Gives p ring healthy
            (relay p ring request response text events w)
            (verdict p (ending events))
            (last_writes p request response (text ++ concat (pieces events)) (ending events))
            w
    unfolding relay conclude_done conclude_failed include_usage write_error error_kind
    relay_buffer_lem h [] text w = (refl, sym (append-nil (written w)))
    relay_buffer_lem h (token piece ∷ events) text w =
        rw
          (
            relay-token_buffer p ring request response piece events text w h,
            sym (append_assoc text piece (concat (pieces events))),
          )
          (relay_buffer_lem h events (text ++ piece) w)
    relay_buffer_lem h (done stop prompt tokens elapsed ∷ events) text w =
        rw (h, append-nil text) (write_json_lem p ring healthy 200 _ w)
    relay_buffer_lem h (failed error ∷ events) text w =
        let (result, writes) = write_error_lem p ring healthy 500 error w in
        rw (h, and_then-ok (write_error p ring 500 error w) (λ w. (err error, w)) result)
          (refl, writes)

    relay_lem :
        (b : Bool)
        → request.stream ≡ b
        → (events : List Event) (w : ring.Writer)
        → Gives p ring healthy
            (relay p ring request response [] events w)
            (verdict p (ending events))
            (piece_writes p b response (pieces events)
              ++ last_writes p request response (concat (pieces events)) (ending events))
            w
    relay_lem true h events w = relay_stream_lem h events [] (concat (pieces events)) w
    relay_lem false h events w = relay_buffer_lem h events [] w

    open_stream-true :
        (w : ring.Writer)
        → request.stream ≡ true
        → open_stream p ring request response w
          ≡ and_then
              (ring.ensure_started w (response_head 200 sse_content_type))
              (λ w. ring.send_body w (stream_open p response))
    unfolding open_stream
    open_stream-true w h = rw h refl

    -- The head and the first chunk are written first, and only when the answer streams.
    open_stream_lem :
        (b : Bool)
        → request.stream ≡ b
        → (w : ring.Writer)
        → Gives p ring healthy
            (open_stream p ring request response w)
            (ok tt)
            (first_writes p b response)
            w
    unfolding open_stream
    open_stream_lem true h w =
        let head = response_head 200 sse_content_type in
        let t = stream_open p response in
        let v = (ring.ensure_started w head).1 in
        rw
          (open_stream-true w h
            ∙ and_then-ok (ring.ensure_started w head) (λ w. ring.send_body w t) (starts w head))
          (
            healthy.sends v t,
            extends (written w) (started head ∷ []) (sent_body t ∷ []) (written_start w head)
                (written_send v t),
          )
    open_stream_lem false h w = rw h (refl, sym (append-nil (written w)))

    pub respond_lem :
        (events : List Event) (w : ring.Writer)
        → Gives p ring healthy
            (respond p ring request response events w)
            (verdict p (ending events))
            (answer_writes p request response events)
            w
    unfolding respond
    respond_lem events w =
        let (opened, first) = open_stream_lem request.stream refl w in
        let v = (open_stream p ring request response w).1 in
        let (result, writes) = relay_lem request.stream refl events v in
        rw
          (and_then-ok (open_stream p ring request response w)
            (λ w. relay p ring request response [] events w) opened)
          (result, extends (written w) (first_writes p request.stream response) _ first writes)
