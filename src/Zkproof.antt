-- ===== src/Zkproof.antt =====
-- crates/outbe-protocol/src/protocol/zkproof.rs: the wire format of verifier calls. Bytes are natural
-- numbers below 256; `usize` has 64 bits, so `usize::try_from` of a `u64` succeeds.
pub mod Words
pub mod Call
pub mod CallLaws
pub mod CallSound
pub mod PublicWords
pub mod PublicLaws
pub mod Errors
mod Runs
pub mod Total
