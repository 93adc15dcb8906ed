-- ===== src/Magnet.antt =====
-- crates/core/src/magnet.rs and the hexadecimal print of crates/core/src/lib.rs: info hashes as text, and
-- magnet links.
pub mod Hex
pub mod UrlDecode
pub mod Link
pub mod BareHash
mod Checks
