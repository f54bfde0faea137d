-- ===== src/Agent.antt =====
-- crates/simferret/src/agent.rs: the guest agent.
pub mod Machine
pub mod Dispatch
pub mod Invariant
pub mod Preservation
pub mod Stops
pub mod Examples
