-- ===== src/Codec.antt =====
-- crates/outbe-protocol/src/codec.rs: typed values as field elements and as bytes. A value of a machine
-- type is a natural number, a byte array the list of its bytes; an encoder returns the vector that it
-- appends to, which its callers drop on an error.
pub mod Bytes
pub mod Limbs
pub mod Scalars
pub mod Sets
pub mod Canonical
pub mod Arrays
pub mod LimbLaws
pub mod LimbInverse
pub mod SetLaws
pub mod Ascents
pub mod SortLaws
mod Runs
