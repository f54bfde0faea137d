-- ===== src/Protocol.antt =====
-- crates/simferret/src/protocol.rs: the control protocol between the host and the guest agent.
pub mod Process
pub mod Violation
pub mod Event
pub mod Command
pub mod Hex
pub mod Framing
pub mod Examples
