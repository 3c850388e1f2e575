-- ===== src/Signature.antt =====
-- crates/outbe-protocol/src/primitive/signature.rs: Schnorr signatures. The 64 bytes are a list, a counter
-- is a `u32`.
pub mod Sign
pub mod Accepted
pub mod SignLaws
pub mod Runs
