-- ===== src/Meta.antt =====
-- crates/core/src/meta.rs: the contents of a torrent file.
pub mod Types
pub mod Fields
pub mod Parse
pub mod Print
pub mod Pieces
pub mod Lists
pub mod RoundTrip
mod Checks
