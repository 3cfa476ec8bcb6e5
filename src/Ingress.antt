-- ===== src/Ingress.antt =====
-- examples/serve/src/ingress.rs: which requests the example's router answers, and which it hands on
-- to the ring.
pub mod Routes
use llm_worker.Base.{
  ℕ, Text, codes, text_eq, decimal, Bool, true, false, ◌&&◌, ◌||◌, List, [], ◌∷◌, ◌++◌, Option,
  none, some, if◌then◌else◌,
}
use llm_worker.Engine.Handle.{JobQueue, Inner, capacity}
use llm_worker.Engine.Host.{Outcome, ok, err}
use llm_worker.Protocol.Json.{
  Json, num, str, arr, obj, Items, nil, cons, Fields, end, field, Printer,
}
use llm_worker.Protocol.Response.{error_body}

pub record HandlerResponse : Type 0 where
  pub status : ℕ
  pub body : Option Text
  pub content_type : Option Text
  pub headers : List (Text × Text)
  pub etag : Option Text

abbrev pub chat_completions_path : Text
chat_completions_path = codes "/v1/chat/completions"

unfoldable pub is_chat_path : Text → Bool
is_chat_path path = text_eq path chat_completions_path

abbrev pub respond_with : ℕ → Text → Text → HandlerResponse
respond_with status content_type body = record {
  status = status;
  body = some body;
  content_type = some content_type;
  headers = (codes "cache-control", codes "no-store") ∷ [];
  etag = none;
}

abbrev pub json_response : ℕ → Text → HandlerResponse
json_response status body = respond_with status (codes "application/json") body

-- `index` is the text of ui/index.html.
abbrev pub page : Text → HandlerResponse
page index = respond_with 200 (codes "text/html; charset=utf-8") index

abbrev pub is_get : Text → Bool
is_get method = text_eq method (codes "GET")

module _ (p : Printer) (queues : JobQueue) where
  pub record AppRouter : Type 0 where
    pub engine : Inner queues
    pub model_name : Text
    pub index : Text

  abbrev pub not_found : HandlerResponse
  not_found = json_response 404 (error_body p (codes "not found") (codes "invalid_request_error"))

  unfoldable pub health_json : AppRouter → Json
  health_json router =
      let report = capacity queues router.engine in
      let info = router.engine.info in
      obj (
        field (codes "status") (str (codes "ok")) (
          field (codes "model") (str router.model_name) (
            field (codes "model_path") (str info.path) (
              field (codes "n_params") (num info.n_params) (
                field (codes "n_ctx") (num info.n_ctx) (
                  field (codes "inflight") (num report.inflight) (
                    field (codes "decoding") (num report.decoding) (
                      field (codes "max_inflight") (num report.max_inflight)
                        (field (codes "available_slots") (num report.available_slots) end)))))))))

  unfoldable pub health : AppRouter → HandlerResponse
  unfolding health_json
  health router = json_response 200 (p.to_string (health_json router))

  unfoldable pub models : AppRouter → HandlerResponse
  models router = json_response 200 (
      p.to_string (
        obj (
          field (codes "object") (str (codes "list")) (
            field (codes "data")
              (arr (
                cons
                  (obj (
                    field (codes "id") (str router.model_name) (
                      field (codes "object") (str (codes "model"))
                        (field (codes "owned_by") (str (codes "llm")) end))))
                  nil))
              end))))

  unfoldable pub route : AppRouter → Text → Text → HandlerResponse
  unfolding health models
  route router method path =
      if is_get method && text_eq path (codes "/")
      then page router.index
      else (if is_get method && (text_eq path (codes "/health") || text_eq path (codes "/healthz"))
          then health router
          else (if is_get method && text_eq path (codes "/v1/models")
              then models router
              else not_found))

  unfoldable pub route_body : Text → Outcome HandlerResponse
  unfolding is_chat_path
  route_body path =
      if is_chat_path path
      then err (codes "chat completions need streaming request and response handling")
      else ok not_found

unfoldable pub has_body_handler : Text → Bool
unfolding is_chat_path
has_body_handler path = is_chat_path path

unfoldable pub has_body_stream_handler : Text → Bool
unfolding is_chat_path
has_body_stream_handler path = is_chat_path path

-- `upload` is what the ring's router makes of the request.
unfoldable pub route_body_stream : Text → Outcome (Unit {0}) → Outcome (Unit {0})
unfolding is_chat_path
route_body_stream path upload =
    if is_chat_path path then upload else err (codes "no streaming handler for this route")

abbrev pub is_streaming : Text → Bool
is_streaming path = false

abbrev pub route_stream : Outcome (Unit {0})
route_stream = err (codes "stream-only routes are not supported")

-- The handlers are types of the server crate.
abbrev pub webtransport_handler : {Handler : Type 0} → Option Handler
webtransport_handler = none

abbrev pub websocket_handler : {Handler : Type 0} → Text → Option Handler
websocket_handler path = none
