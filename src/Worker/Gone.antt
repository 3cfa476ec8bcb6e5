-- ===== src/Worker/Gone.antt =====
-- What llm-worker/src/worker.rs does when the client of a streamed answer goes away.
use llm_worker.Base.{◌≡◌, refl, sym, ap, concat, ◌∙◌, Text, true, List, [], ◌∷◌, ◌++◌}
use llm_worker.Engine.Handle.{JobQueue, Generation, submit}
use llm_worker.Engine.Host.{ok, err}
use llm_worker.Engine.Types.{Event, token, done, failed}
use llm_worker.Protocol.Json.{Printer}
use llm_worker.Protocol.Request.{
  ChatRequest, RequestDefaults, to_generate_request, model_name, include_usage,
}
use llm_worker.Protocol.Response.{
  ResponseWriter, stream_open, stream_token, stream_close, error_frame, new_usage,
}
use llm_worker.Worker.Answer.{answer_writes, ending, last_writes, piece_writes, pieces, verdict}
use llm_worker.Worker.Ids.{next_completion_id}
use llm_worker.Worker.Lane.{JobLane, read_request}
use llm_worker.Worker.Serve.{
  Outside, Serving, answer, drop_generation, open_stream, relay, respond, conclude_done,
  conclude_failed, serve, serve_request, then_some,
}
use llm_worker.Worker.Writer.{
  Done, Write, started, sent_body, finished, RingWriter, and_then, response_head, sse_content_type,
}

and_then_assoc :
    {S : Type 0} (r : Done × S) (f g : S → Done × S)
    → and_then (and_then r f) g ≡ and_then r (λ s. and_then (f s) g)
unfolding and_then
and_then_assoc (ok u, s) f g = refl
and_then_assoc (err e, s) f g = refl

and_then_unit : {S : Type 0} (r : Done × S) → and_then r (λ s. (ok tt, s)) ≡ r
unfolding and_then
and_then_unit (ok u, s) = refl
and_then_unit (err e, s) = refl

and_then_same :
    {S : Type 0} (r : Done × S) (f g : S → Done × S)
    → ((s : S) → f s ≡ g s)
    → and_then r f ≡ and_then r g
unfolding and_then
and_then_same (ok u, s) f g same = same s
and_then_same (err e, s) f g same = refl

module _ (ring : RingWriter) where
  -- One call of the writer, whatever it answers.
  abbrev pub perform : Write → ring.Writer → Done × ring.Writer
  perform (started head) w = ring.ensure_started w head
  perform (sent_body t) w = ring.send_body w t
  perform finished w = ring.finish w

  -- The writer takes these calls one after another.
  pub data Performs : ring.Writer → List Write → ring.Writer → Type 0 where
    performed : {w : ring.Writer} → Performs w [] w
    performs :
        {w v : ring.Writer} {x : Write} {writes : List Write}
        → (perform x w).0 ≡ ok tt
        → Performs (perform x w).1 writes v
        → Performs w (x ∷ writes) v

  -- The calls in order, up to the first that fails.
  perform_all : List Write → ring.Writer → Done × ring.Writer
  unfolding and_then
  perform_all [] w = (ok tt, w)
  perform_all (x ∷ writes) w = and_then (perform x w) (λ v. perform_all writes v)

  perform_all-gone :
      (x : Write) (rest : List Write) (error : Text)
      → (before : List Write) {w v : ring.Writer} → Performs w before v
      → (perform x v).0 ≡ err error
      → perform_all (before ++ x ∷ rest) w ≡ (err error, (perform x v).1)
  unfolding perform_all and_then
  perform_all-gone x rest error [] performed gone = rw (gone, and_then) refl
  perform_all-gone x rest error (b ∷ before) (performs here others) gone =
      rw (here, and_then) (perform_all-gone x rest error before others gone)

module _ (p : Printer) (ring : RingWriter) where
  abbrev streaming : ChatRequest → ChatRequest
  streaming request = record request { stream = true }

  module _ (request : ChatRequest) (response : ResponseWriter) where
    -- The calls that are left once `text` is gathered.
    abbrev remaining_writes : Text → List Event → List Write
    remaining_writes text events =
        piece_writes p true response (pieces events)
        ++ last_writes p (streaming request) response text (ending events)

    perform_last :
        (t : Text) (w : ring.Writer) (result : Done)
        → and_then (and_then (ring.send_body w t) (λ w. ring.finish w)) (λ w. (result, w))
          ≡ and_then (perform_all ring (sent_body t ∷ finished ∷ []) w) (λ w. (result, w))
    unfolding perform_all
    perform_last t w result =
        ap (λ r. and_then r (λ w. (result, w)))
          (and_then_same (ring.send_body w t) _ _ (λ w. sym (and_then_unit (ring.finish w))))

    -- The loop makes these calls and no other, and stops at the first that fails.
    relay_performs :
        (whole text : Text) (events : List Event) (w : ring.Writer)
        → relay p ring (streaming request) response text events w
          ≡ and_then
              (perform_all ring (remaining_writes whole events) w)
              (λ w. (verdict p (ending events), w))
    unfolding relay conclude_done conclude_failed perform_all and_then
    relay_performs whole text [] w = refl
    relay_performs whole text (token piece ∷ events) w =
        let sent = ring.send_body w (stream_token p response piece) in
        and_then_same sent _ _ (λ w. relay_performs whole text events w)
        ∙ sym (
            and_then_assoc sent (λ v. perform_all ring (remaining_writes whole events) v)
              (λ w. (verdict p (ending events), w)))
    relay_performs whole text (done stop prompt tokens elapsed ∷ events) w =
        let close =
          stream_close p response stop
            (then_some (include_usage (streaming request)) (new_usage prompt tokens)) in
        sym (and_then_unit (and_then (ring.send_body w close) (λ w. ring.finish w)))
        ∙ perform_last close w (ok tt)
    relay_performs whole text (failed error ∷ events) w =
        perform_last (error_frame p error) w (err error)

    respond_performs :
        (events : List Event) (w : ring.Writer)
        → respond p ring (streaming request) response events w
          ≡ and_then
              (perform_all ring (answer_writes p (streaming request) response events) w)
              (λ w. (verdict p (ending events), w))
    unfolding respond open_stream perform_all
    respond_performs events w =
        let whole = concat (pieces events) in
        let start = ring.ensure_started w (response_head 200 sse_content_type) in
        let opening = λ (w : ring.Writer). ring.send_body w (stream_open p response) in
        let remaining = λ (w : ring.Writer). perform_all ring (remaining_writes whole events) w in
        let conclude : ring.Writer → Done × ring.Writer = λ w. (verdict p (ending events), w) in
        and_then_assoc start opening (λ w. relay p ring (streaming request) response [] events w)
        ∙ and_then_same start _ _ (λ w.
          and_then_same (opening w) _ _ (λ v. relay_performs whole [] events v)
          ∙ sym (and_then_assoc (opening w) remaining conclude))
        ∙ sym (and_then_assoc start (λ w. and_then (opening w) remaining) conclude)

  respond-gone :
      (request : ChatRequest) (response : ResponseWriter) (events : List Event)
      (before rest : List Write) (x : Write) (error : Text) (w v : ring.Writer)
      → request.stream ≡ true
      → answer_writes p request response events ≡ before ++ x ∷ rest
      → Performs ring w before v
      → (perform ring x v).0 ≡ err error
      → respond p ring request response events w ≡ (err error, (perform ring x v).1)
  unfolding and_then
  respond-gone request response events before rest x error w v streams split taken gone =
      let same : request ≡ streaming request = ap (λ b. record request { stream = b }) streams in
      ap (λ r. respond p ring r response events w) same
      ∙ respond_performs request response events w
      ∙ ap (λ ws. and_then (perform_all ring ws w) (λ w. (verdict p (ending events), w)))
          (ap (λ r. answer_writes p r response events) (sym same) ∙ split)
      ∙ ap (λ r. and_then r (λ w. (verdict p (ending events), w)))
          (perform_all-gone ring x rest error before taken gone)

  module _ (queues : JobQueue) where
    abbrev pub chat_response : Outside → ChatRequest → Serving p ring queues → ResponseWriter
    chat_response o request s = record {
      id = (next_completion_id o.started s.counter).0;
      model = model_name request;
      created = o.created;
    }

    -- A request streams and is accepted. Of the calls of the writer that answer it, the head, the opening
    -- chunk, a chunk for each token, the closing chunk or the error, and the end, the writer takes some and
    -- then fails at the next, whichever it is. Whatever would still have been written, `serve` fails with
    -- the writer's error, makes no call after the failed one, and the generation is cancelled.
    pub serve-gone :
        (defaults : RequestDefaults) (o : Outside) (lane : JobLane) (s : Serving p ring queues)
        (request : ChatRequest) (generation : Generation) (before rest : List Write) (x : Write)
        (error : Text) (v : ring.Writer)
        → read_request o.from_slice o.late lane ≡ ok request
        → request.stream ≡ true
        → (submit queues (to_generate_request request defaults) o.generation s.engine).0
          ≡ ok generation
        → answer_writes p request (chat_response o request s) o.events ≡ before ++ x ∷ rest
        → Performs ring s.writer before v
        → (perform ring x v).0 ≡ err error
        → let r = serve p ring queues defaults o lane s in
          (r.0 ≡ err error)
          × (r.1.writer ≡ (perform ring x v).1)
          × (r.1.cancelled ≡ generation.cancel ∷ s.cancelled)
    unfolding serve serve_request answer
    serve-gone defaults o lane s request generation before rest x error v read streams accepted
          split taken gone =
        let response = chat_response o request s in
        let whole =
          ap (λ g. answer p ring request response o.events g s.writer) accepted
          ∙ respond-gone request response o.events before rest x error s.writer v streams split
              taken gone in
        rw (read, serve)
          (
            ap (λ r. r.0) whole,
            ap (λ r. r.1) whole,
            ap (λ g. drop_generation g s.cancelled) accepted,
          )
