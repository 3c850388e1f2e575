-- ===== src/Registry.antt =====
-- crates/outbe-zk-canonical: the manifest, the registry that build.rs generates, and its lookup in src/lib.rs.
pub mod Manifest
pub mod Load
pub mod Version
pub mod Heads
pub mod Ordered
pub mod Chains
pub mod Search
pub mod Generate
pub mod Verified
mod Runs
mod DecoderRuns
mod BuildRuns
pub mod Widths
pub mod Flatten
pub mod Counted
pub mod Decoder
pub mod ReadBack
pub mod RoundTrip
pub mod Alloy
pub mod FromAlloy
pub mod AlloyLeaves
pub mod AlloyLaws
pub mod Combined
pub mod Declared
pub mod Enabled
