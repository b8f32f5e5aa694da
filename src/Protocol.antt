-- ===== src/Protocol.antt =====
-- endure/protocol: the round phases, the commit and reveal verdicts, and the services.
pub mod RoundEngine
pub mod Synapses
pub mod Canonical
pub mod Validation
pub mod Calls
pub mod Handlers
pub mod Vertical
mod Examples
