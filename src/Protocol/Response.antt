-- ===== src/Protocol/Response.antt =====
-- llm-worker/src/protocol.rs: how an answer is rendered.
use llm_worker.Base.{String, ℕ, ◌+◌, u32, Text, codes, ◌++◌, Option, none, some}
use llm_worker.Engine.Types.{Stop, end_of_generation, limit, context_full, cancelled}
use llm_worker.Protocol.Json.{
  Json, null, num, str, arr, obj, nil, cons, Fields, end, field, Printer,
}

unfoldable pub finish_reason : Stop → Text
finish_reason end_of_generation = codes "stop"
finish_reason limit = codes "length"
finish_reason context_full = codes "length"
finish_reason cancelled = codes "stop"

pub record Usage : Type 0 where
  pub prompt_tokens : ℕ
  pub completion_tokens : ℕ
  pub total_tokens : ℕ

-- The sum wraps, as in a release build.
unfoldable pub new_usage : ℕ → ℕ → Usage
new_usage prompt completion = record {
  prompt_tokens = prompt;
  completion_tokens = completion;
  total_tokens = u32 (prompt + completion);
}

pub record Delta : Type 0 where
  pub role : Option Text
  pub content : Option Text

pub record ChunkChoice : Type 0 where
  pub index : ℕ
  pub delta : Delta
  pub finish : Option Text

-- The one choice of a chunk; `object`, `id`, `created` and `model` are the writer's.
pub record Chunk : Type 0 where
  pub choice : ChunkChoice
  pub usage : Option Usage

pub record ResponseWriter : Type 0 where
  pub id : Text
  pub model : Text
  pub created : ℕ

-- A field that is skipped when it is `None`.
abbrev pub skip_none : String → Option Json → Fields → Fields
skip_none name none rest = rest
skip_none name (some j) rest = field (codes name) j rest

abbrev pub text_json : Option Text → Option Json
text_json none = none
text_json (some t) = some (str t)

abbrev pub or_null : Option Json → Json
or_null none = null
or_null (some j) = j

abbrev pub one : Json → Json
one j = arr (cons j nil)

unfoldable pub usage_json : Usage → Json
usage_json u = obj (
    field (codes "prompt_tokens") (num u.prompt_tokens) (
      field (codes "completion_tokens") (num u.completion_tokens)
        (field (codes "total_tokens") (num u.total_tokens) end)))

abbrev pub optional_usage : Option Usage → Option Json
unfolding usage_json
optional_usage none = none
optional_usage (some u) = some (usage_json u)

unfoldable pub delta_json : Delta → Json
delta_json d =
    obj (skip_none "role" (text_json d.role) (skip_none "content" (text_json d.content) end))

unfoldable pub choice_json : ChunkChoice → Json
unfolding delta_json
choice_json c = obj (
    field (codes "index") (num c.index) (
      field (codes "delta") (delta_json c.delta)
        (field (codes "finish_reason") (or_null (text_json c.finish)) end)))

-- What a chunk and a completion both begin with.
abbrev pub envelope : ResponseWriter → String → Json → Fields → Json
envelope w object choices rest = obj (
    field (codes "id") (str w.id) (
      field (codes "object") (str (codes object)) (
        field (codes "created") (num w.created)
          (field (codes "model") (str w.model) (field (codes "choices") choices rest)))))

unfoldable pub chunk_json : ResponseWriter → Chunk → Json
unfolding choice_json optional_usage
chunk_json w c =
    envelope w "chat.completion.chunk" (one (choice_json c.choice))
      (skip_none "usage" (optional_usage c.usage) end)

abbrev pub chunk : Delta → Option Text → Option Usage → Chunk
chunk delta finish usage = record {
  choice = record { index = 0; delta = delta; finish = finish };
  usage = usage;
}

abbrev pub open_chunk : Chunk
open_chunk = chunk (record { role = some (codes "assistant"); content = none }) none none

abbrev pub token_chunk : Text → Chunk
token_chunk text = chunk (record { role = none; content = some text }) none none

abbrev pub close_chunk : Stop → Option Usage → Chunk
close_chunk stop usage =
    chunk (record { role = none; content = none }) (some (finish_reason stop)) usage

unfoldable pub completion_json : ResponseWriter → Text → Stop → Usage → Json
unfolding usage_json
completion_json w text stop usage =
    envelope w "chat.completion"
      (one (
        obj (
          field (codes "index") (num 0) (
            field (codes "message")
              (obj (
                field (codes "role") (str (codes "assistant"))
                  (field (codes "content") (str text) end)))
              (field (codes "finish_reason") (str (finish_reason stop)) end)))))
      (field (codes "usage") (usage_json usage) end)

unfoldable pub error_json : Text → Text → Json
error_json message kind = obj (
    field (codes "error")
      (obj (
        field (codes "message") (str message) (
          field (codes "type") (str kind)
            (field (codes "param") null (field (codes "code") null end)))))
      end)

abbrev pub data_prefix : Text
data_prefix = codes "data: "

abbrev pub frame_end : Text
frame_end = codes "\n\n"

abbrev pub done_mark : Text
done_mark = codes "[DONE]"

-- `data: {json}` and an empty line.
unfoldable pub frame : Text → Text
frame payload = data_prefix ++ (payload ++ frame_end)

module _ (p : Printer) where
  open p use {to_string}

  unfoldable pub sse : ResponseWriter → Chunk → Text
  unfolding frame
  sse w c = frame (to_string (chunk_json w c))

  unfoldable pub stream_open : ResponseWriter → Text
  unfolding sse
  stream_open w = sse w open_chunk

  unfoldable pub stream_token : ResponseWriter → Text → Text
  unfolding sse
  stream_token w text = sse w (token_chunk text)

  unfoldable pub stream_close : ResponseWriter → Stop → Option Usage → Text
  unfolding sse frame
  stream_close w stop usage = sse w (close_chunk stop usage) ++ frame done_mark

  unfoldable pub completion : ResponseWriter → Text → Stop → Usage → Text
  completion w text stop usage = to_string (completion_json w text stop usage)

  unfoldable pub error_body : Text → Text → Text
  error_body message kind = to_string (error_json message kind)

  unfoldable pub error_frame : Text → Text
  unfolding error_body frame
  error_frame message = frame (error_body message (codes "server_error")) ++ frame done_mark
