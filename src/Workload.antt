-- ===== src/Workload.antt =====
-- crates/simferret/src/workload: the packaged workload.
pub mod Limits
pub mod Launch
pub mod Path
pub mod Tree
pub mod Symlinks
pub mod Fields
pub mod Contract
pub mod Utf8
pub mod Directory
pub mod Elf
pub mod Overlay
pub mod Spec
pub mod Assembly
pub mod Layer
pub mod Image
mod Examples
