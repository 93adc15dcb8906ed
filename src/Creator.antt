-- ===== src/Creator.antt =====
-- crates/daemon/src/creator.rs: the metadata of files on disk.
pub mod Pieces
pub mod Reads
pub mod Torrent
mod Checks
