-- ===== src/Piece.antt =====
-- crates/piece/src/lib.rs: the bitfield of pieces and the choice of the piece to ask for next.
pub mod Bits
pub mod Bitfield
pub mod Picker
pub mod Rarest
pub mod Choice
mod Checks
