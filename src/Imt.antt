-- ===== src/Imt.antt =====
-- crates/outbe-protocol/src/protocol/imt.rs: the append-only Merkle tree. `usize` and `u64` values
-- are natural numbers; a depth of 63 at most keeps `1u64 << depth` inside 64 bits.
pub mod Node
pub mod Frontier
pub mod Path
pub mod Tree
pub mod Spec
pub mod Levels
pub mod Append
pub mod Trailing
pub mod AppendLaws
pub mod NewLaws
pub mod PathLaws
pub mod Binding
pub mod FrontierLoop
pub mod FrontierLaws
mod Runs
