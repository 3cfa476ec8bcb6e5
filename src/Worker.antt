-- ===== src/Worker.antt =====
-- llm-worker/src/worker.rs: one job of the ring, from its request to its answer.
pub mod Lane
pub mod Writer
pub mod Ids
pub mod Serve
pub mod Answer
pub mod Relay
pub mod Stream
pub mod Whole
pub mod Answered
pub mod Refused
pub mod Setup
pub mod Process
pub mod Through
pub mod Gone
pub mod Alike
pub mod Decode
pub mod Config
pub mod Body
pub mod Jobs
