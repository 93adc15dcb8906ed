-- ===== src/Bencode.antt =====
-- crates/core/src/bencode.rs: bencoded values, their decoder and encoder, and the search for the
-- bytes of the info dictionary.
pub mod Value
pub mod Order
pub mod Decode
pub mod Encode
pub mod Progress
pub mod Scalars
pub mod Merge
pub mod RoundTrip
pub mod InfoSlice
pub mod Panics
mod Checks
