-- ===== src/Scenario.antt =====
-- crates/simferret/src/scenario.rs: the versioned scenarios and their seeded choice plans.
pub mod Types
pub mod Random
pub mod Peer
pub mod Validate
pub mod Choices
pub mod Placement
pub mod Requests
pub mod Examples
