-- ===== src/Tests.antt =====
-- The theorems at concrete inputs, and runs of the definitions.
pub mod Toy
pub mod Engines
pub mod Printing
pub mod Workers
pub mod Starving
pub mod Ingresses
pub mod Ordering
pub mod Refusals
pub mod Prefills
pub mod Setups
pub mod Overtakers
pub mod Leaving
pub mod Streaming
pub mod Throughs
pub mod Alikes
pub mod Startups
pub mod Commands
pub mod Servers
pub mod Identities
pub mod Overspending
pub mod Paces
pub mod Races
pub mod Endings
pub mod Jobs
