-- ===== src/Protocol.antt =====
-- llm-worker/src/protocol.rs: the chat-completions wire format.
pub mod Request
pub mod Json
pub mod Response
pub mod Frames
pub mod Reader
