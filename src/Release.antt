-- ===== src/Release.antt =====
-- xtask/src/main.rs: the release tool, on the manifest and the frozen files of crates/outbe-zk-canonical.
pub mod Names
mod Runs
pub mod Reproduced
pub mod Kept
pub mod Identity
pub mod Reconcile
pub mod Check
pub mod Freeze
pub mod Workspace
pub mod Bumps
pub mod Fresh
pub mod Run
