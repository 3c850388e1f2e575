-- ===== src/Notes.antt =====
-- crates/outbe-zk-canonical: the note formulas of the three shielded pools. An `Address` is the list of
-- its 20 bytes, a `U256` a number.
pub mod Paynote
pub mod EmitMint
pub mod Pledgenote
pub mod NoteLaws
pub mod Binding
pub mod Runs
