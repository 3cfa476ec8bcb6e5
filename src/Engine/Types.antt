-- ===== src/Engine/Types.antt =====
-- llm-engine/src/lib.rs: the values that the engine takes and gives.
use llm_worker.Base.{ℕ, ℤ, pos, Text, codes, Bool, true, false, List, [], ◌∷◌}

-- A path is held as its text.
pub data ModelSource : Type 0 where
  local : Text → ModelSource
  hugging_face : Text → Text → ModelSource

pub record EngineConfig : Type 0 where
  pub model : ModelSource
  pub n_ctx : ℕ
  pub n_gpu_layers : ℕ
  pub max_inflight : ℕ
  pub queue_depth : ℕ
  pub target_step_ms : ℕ
  pub native_logs : Bool

abbrev pub default_config : EngineConfig
default_config = record {
  model = hugging_face (codes "unsloth/Qwen3.5-0.8B-GGUF") (codes "Qwen3.5-0.8B-Q4_K_M.gguf");
  n_ctx = 8192;
  n_gpu_layers = 99;
  max_inflight = 1;
  queue_depth = 32;
  target_step_ms = 0;
  native_logs = true;
}

pub record Message : Type 0 where
  pub role : Text
  pub content : Text

abbrev pub system_message : Text → Message
system_message content = record { role = codes "system"; content = content }

abbrev pub user_message : Text → Message
user_message content = record { role = codes "user"; content = content }

abbrev pub assistant_message : Text → Message
assistant_message content = record { role = codes "assistant"; content = content }

-- `max_tokens` is an `i32`; `temperature` and `top_p` are the bit patterns of an `f32`.
pub record GenerateRequest : Type 0 where
  pub messages : List Message
  pub max_tokens : ℤ
  pub temperature : ℕ
  pub top_p : ℕ
  pub seed : ℕ
  pub think : Bool

abbrev pub default_request : GenerateRequest
default_request = record {
  messages = [];
  max_tokens = pos 128;
  temperature = 0;
  top_p = 0x3f66_6666;
  seed = 42;
  think = false;
}

abbrev pub user_request : Text → GenerateRequest
user_request prompt = record default_request { messages = user_message prompt ∷ [] }

pub data Stop : Type 0 where
  end_of_generation limit context_full cancelled : Stop

pub data Event : Type 0 where
  token : Text → Event
  done : (stop : Stop) (prompt_tokens tokens elapsed_ms : ℕ) → Event
  failed : Text → Event

pub record Capacity : Type 0 where
  pub inflight : ℕ
  pub decoding : ℕ
  pub max_inflight : ℕ
  pub available_slots : ℕ

pub record ModelInfo : Type 0 where
  pub path : Text
  pub n_params : ℕ
  pub n_layer : ℕ
  pub n_ctx : ℕ

-- The sender of events and the cancel flag are shared with the caller: each is held as the number of
-- the channel or the flag that it stands for.
pub record Job : Type 0 where
  pub request : GenerateRequest
  pub events : ℕ
  pub cancel : ℕ
