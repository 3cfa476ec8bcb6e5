-- ===== src/Worker/Writer.antt =====
-- llm-worker/src/worker.rs: what the worker does with the writer of a response lane.
use llm_worker.Base.{ℕ, ◌≡◌, ◌==◌, Text, codes, List, [], ◌∷◌, ◌++◌, if◌then◌else◌}
use llm_worker.Engine.Host.{Outcome, ok, err}
use llm_worker.Protocol.Json.{Printer}
use llm_worker.Protocol.Response.{error_body}

pub record Head : Type 0 where
  pub status : ℕ
  pub content_type : Text
  pub cache_control : Text

-- One call of the writer.
pub data Write : Type 0 where
  started : Head → Write
  sent_body : Text → Write
  finished : Write

abbrev pub Done : Type 0
Done = Outcome (Unit {0})

-- `ResponseCacheWriter` is the crate's. A call may fail, and then the caller stops writing.
pub record RingWriter : Type 1 where
  pub Writer : Type 0
  pub ensure_started : Writer → Head → Done × Writer
  pub send_body : Writer → Text → Done × Writer
  pub finish : Writer → Done × Writer

-- A writer whose stream stays open: every call is done and kept in order.
pub record Healthy (ring : RingWriter) : Type 0 where
  pub written : ring.Writer → List Write
  pub starts : (w : ring.Writer) (head : Head) → (ring.ensure_started w head).0 ≡ ok tt
  pub sends : (w : ring.Writer) (text : Text) → (ring.send_body w text).0 ≡ ok tt
  pub finishes : (w : ring.Writer) → (ring.finish w).0 ≡ ok tt
  pub written_start :
      (w : ring.Writer) (head : Head)
      → written (ring.ensure_started w head).1 ≡ written w ++ started head ∷ []
  pub written_send :
      (w : ring.Writer) (text : Text)
      → written (ring.send_body w text).1 ≡ written w ++ sent_body text ∷ []
  pub written_finish : (w : ring.Writer) → written (ring.finish w).1 ≡ written w ++ finished ∷ []

abbrev pub json_content_type : Text
json_content_type = codes "application/json"

abbrev pub sse_content_type : Text
sse_content_type = codes "text/event-stream; charset=utf-8"

abbrev pub response_head : ℕ → Text → Head
response_head status content_type = record {
  status = status;
  content_type = content_type;
  cache_control = codes "no-store";
}

-- The `?` of Rust, on a result that carries the state.
unfoldable pub and_then : {S : Type 0} → Done × S → (S → Done × S) → Done × S
and_then (ok u, s) next = next s
and_then (err e, s) next = (err e, s)

unfoldable pub error_kind : ℕ → Text
error_kind status =
    if status == 400
    then codes "invalid_request_error"
    else (if status == 503 then codes "overloaded_error" else codes "server_error")

module _ (p : Printer) (ring : RingWriter) where
  open ring use {Writer, ensure_started, send_body, finish}

  unfoldable pub write_json : ℕ → Text → Writer → Done × Writer
  unfolding and_then
  write_json status text w =
      and_then (ensure_started w (response_head status json_content_type))
        (λ w. and_then (send_body w text) (λ w. finish w))

  unfoldable pub write_error : ℕ → Text → Writer → Done × Writer
  unfolding write_json
  write_error status message w = write_json status (error_body p message (error_kind status)) w
