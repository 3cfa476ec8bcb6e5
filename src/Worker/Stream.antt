-- ===== src/Worker/Stream.antt =====
-- What a client reads out of a streamed answer of llm-worker/src/worker.rs.
use llm_worker.Base.{
  concat, ◌≡◌, refl, ap, ◌∙◌, Text, codes, true, List, [], ◌∷◌, ◌++◌, map, append_assoc, Option,
  none, some,
}
use llm_worker.Engine.Types.{Event, token, done, failed}
use llm_worker.Protocol.Frames.{read_events, read_events-frame}
use llm_worker.Protocol.Json.{Json, Printer}
use llm_worker.Protocol.Request.{ChatRequest, include_usage}
use llm_worker.Protocol.Response.{
  ResponseWriter, Chunk, chunk_json, open_chunk, token_chunk, close_chunk, new_usage, frame,
  done_mark, sse, stream_open, stream_token, stream_close, error_json, error_body, error_frame,
}
use llm_worker.Worker.Answer.{
  answer_writes, ending, first_writes, last_writes, piece_writes, pieces,
}
use llm_worker.Worker.Serve.{then_some}
use llm_worker.Worker.Writer.{Write, started, sent_body, finished}

-- The body that the writes give.
abbrev pub body_text : List Write → Text
body_text [] = []
body_text (started head ∷ writes) = body_text writes
body_text (sent_body t ∷ writes) = t ++ body_text writes
body_text (finished ∷ writes) = body_text writes

module _ (p : Printer) (request : ChatRequest) (response : ResponseWriter) where
  open p use {to_string, one_line}

  abbrev pub payload : Chunk → Text
  payload c = to_string (chunk_json response c)

  -- The data of the events that a generation's end gives.
  abbrev pub last_payloads : Option Event → List Text
  last_payloads none = []
  last_payloads (some (token piece)) = []
  last_payloads (some (done stop prompt tokens elapsed)) =
      payload (close_chunk stop (then_some (include_usage request) (new_usage prompt tokens)))
      ∷ done_mark
      ∷ []
  last_payloads (some (failed error)) =
      to_string (error_json error (codes "server_error")) ∷ done_mark ∷ []

  abbrev pub payloads : List Event → List Text
  payloads events =
      payload open_chunk
      ∷ (map (λ t. payload (token_chunk t)) (pieces events) ++ last_payloads (ending events))

  read_events-sse :
      (c : Chunk) (rest : Text)
      → read_events (sse p response c ++ rest) ≡ payload c ∷ read_events rest
  unfolding sse
  read_events-sse c rest = read_events-frame (payload c) rest (one_line (chunk_json response c))

  read_events-nil : read_events [] ≡ []
  unfolding read_events
  read_events-nil = refl

  -- One event, the end mark, and nothing more.
  read_events-last :
      (j : Json)
      → read_events ((frame (to_string j) ++ frame done_mark) ++ []) ≡ to_string j ∷ done_mark ∷ []
  read_events-last j =
      ap read_events (append_assoc (frame (to_string j)) (frame done_mark) [])
      ∙ read_events-frame (to_string j) (frame done_mark ++ []) (one_line j)
      ∙ ap (λ events. to_string j ∷ events)
          (read_events-frame done_mark [] refl ∙ ap (λ events. done_mark ∷ events) read_events-nil)

  read_events-close :
      (c : Chunk)
      → read_events ((sse p response c ++ frame done_mark) ++ []) ≡ payload c ∷ done_mark ∷ []
  unfolding sse
  read_events-close c = read_events-last (chunk_json response c)

  read_events-last_writes :
      request.stream ≡ true
      → (whole : Text) (e : Option Event)
      → read_events (body_text (last_writes p request response whole e)) ≡ last_payloads e
  unfolding stream_close error_frame error_body include_usage
  read_events-last_writes h whole none = read_events-nil
  read_events-last_writes h whole (some (token piece)) = read_events-nil
  read_events-last_writes h whole (some (done stop prompt tokens elapsed)) = rw h (
      read_events-close
        (close_chunk stop (then_some (include_usage request) (new_usage prompt tokens))))
  read_events-last_writes h whole (some (failed error)) =
      rw h (read_events-last (error_json error (codes "server_error")))

  read_events-pieces :
      (texts : List Text) (writes : List Write)
      → read_events (body_text (piece_writes p true response texts ++ writes))
        ≡ map (λ t. payload (token_chunk t)) texts ++ read_events (body_text writes)
  unfolding stream_token
  read_events-pieces [] writes = refl
  read_events-pieces (t ∷ texts) writes =
      read_events-sse (token_chunk t) (body_text (piece_writes p true response texts ++ writes))
      ∙ ap (λ events. payload (token_chunk t) ∷ events) (read_events-pieces texts writes)

  -- What the client reads out of all that is written.
  pub read_events-answer_writes :
      (events : List Event)
      → request.stream ≡ true
      → read_events (body_text (answer_writes p request response events)) ≡ payloads events
  unfolding stream_open
  read_events-answer_writes events h =
      let last = last_writes p request response (concat (pieces events)) (ending events) in
      let rest = body_text (piece_writes p true response (pieces events) ++ last) in
      ap
        (λ b. read_events (
          body_text
            (first_writes p b response ++ (piece_writes p b response (pieces events) ++ last))))
        h
      ∙ read_events-sse open_chunk rest
      ∙ ap (λ data_read. payload open_chunk ∷ data_read)
          (read_events-pieces (pieces events) last
            ∙ ap (λ data_read. map (λ t. payload (token_chunk t)) (pieces events) ++ data_read)
                (read_events-last_writes h (concat (pieces events)) (ending events)))
