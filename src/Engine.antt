-- ===== src/Engine.antt =====
-- llm-engine/src/lib.rs, module by module.
pub mod Types
pub mod Host
pub mod Slot
pub mod Pool
pub mod Prefill
pub mod Admit
pub mod Cancelled
pub mod Step
pub mod Serve
pub mod Handle
pub mod Moves
pub mod Occupancy
pub mod Race
pub mod Window
pub mod Ledger
pub mod Exit
pub mod Terminals
pub mod Starved
pub mod Ordered
pub mod Isolation
pub mod Overtaking
pub mod Stream
pub mod Startup
pub mod Overspent
pub mod Shutdown
