-- ===== src/Protocol/Request.antt =====
-- llm-worker/src/protocol.rs: what a client sends, and the request that the engine gets.
use llm_worker.Base.{
  ℕ, ℤ, Text, codes, text_eq, Bool, false, List, [], ◌∷◌, ◌++◌, Option, none, some, map,
  if◌then◌else◌,
}
use llm_worker.Engine.Host.{Outcome, ok, err}
use llm_worker.Engine.Types.{Message, GenerateRequest, default_request}

abbrev pub default_model : Text
default_model = codes "llm"

pub record ChatTemplateKwargs : Type 0 where
  pub enable_thinking : Option Bool

pub record StreamOptions : Type 0 where
  pub include_usage : Bool

pub record ContentPart : Type 0 where
  pub kind : Text
  pub text : Option Text

pub data Content : Type 0 where
  plain : Text → Content
  parts : List ContentPart → Content

pub record ChatMessage : Type 0 where
  pub role : Text
  pub content : Option Content

pub record ChatRequest : Type 0 where
  pub model : Option Text
  pub messages : List ChatMessage
  pub stream : Bool
  pub stream_options : Option StreamOptions
  pub max_tokens : Option ℤ
  pub max_completion_tokens : Option ℤ
  pub temperature : Option ℕ
  pub top_p : Option ℕ
  pub seed : Option ℕ
  pub think : Option Bool
  pub chat_template_kwargs : Option ChatTemplateKwargs

pub record RequestDefaults : Type 0 where
  pub max_tokens : ℤ
  pub temperature : ℕ
  pub top_p : ℕ
  pub seed : ℕ
  pub think : Bool

abbrev pub default_defaults : RequestDefaults
default_defaults = record {
  max_tokens = default_request.max_tokens;
  temperature = default_request.temperature;
  top_p = default_request.top_p;
  seed = default_request.seed;
  think = default_request.think;
}

-- The text of a part that is of kind `text` and has one.
unfoldable pub part_text : ContentPart → Text
part_text part =
    if text_eq part.kind (codes "text") then elim part.text [ none ↦ [] | some t ↦ t ] else []

-- The filters and `join("")`.
unfoldable pub join_parts : List ContentPart → Text
join_parts [] = []
join_parts (part ∷ rest) = part_text part ++ join_parts rest

unfoldable pub content_text : Content → Text
unfolding join_parts part_text
content_text (plain text) = text
content_text (parts list) = join_parts list

-- `unwrap_or`, and `or`.
abbrev pub unwrap_or {ℓ} : {A : Type ℓ} → Option A → A → A
unwrap_or none a = a
unwrap_or (some a) b = a

abbrev pub or_else {ℓ} : {A : Type ℓ} → Option A → Option A → Option A
or_else none o = o
or_else (some a) o = some a

-- `from_slice` is serde_json's parser at this type.
unfoldable pub parse : (List ℕ → Outcome ChatRequest) → List ℕ → Outcome ChatRequest
parse from_slice body = elim (from_slice body) [
  | ok request ↦ elim request.messages [
    | [] ↦ err (codes "messages must not be empty")
    | m ∷ ms ↦ ok request
  ]
  | err e ↦ err e
]

unfoldable pub model_name : ChatRequest → Text
model_name request = unwrap_or request.model default_model

unfoldable pub include_usage : ChatRequest → Bool
include_usage request = elim request.stream_options [ none ↦ false | some o ↦ o.include_usage ]

unfoldable pub kwargs_thinking : Option ChatTemplateKwargs → Option Bool
kwargs_thinking none = none
kwargs_thinking (some kwargs) = kwargs.enable_thinking

unfoldable pub message_text : Option Content → Text
unfolding content_text
message_text none = []
message_text (some content) = content_text content

unfoldable pub to_message : ChatMessage → Message
unfolding message_text
to_message m = record { role = m.role; content = message_text m.content }

unfoldable pub to_generate_request : ChatRequest → RequestDefaults → GenerateRequest
unfolding kwargs_thinking to_message
to_generate_request request defaults = record {
  messages = map to_message request.messages;
  max_tokens =
      unwrap_or (or_else request.max_completion_tokens request.max_tokens) defaults.max_tokens;
  temperature = unwrap_or request.temperature defaults.temperature;
  top_p = unwrap_or request.top_p defaults.top_p;
  seed = unwrap_or request.seed defaults.seed;
  think =
      unwrap_or (or_else request.think (kwargs_thinking request.chat_template_kwargs))
        defaults.think;
}
