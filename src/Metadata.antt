-- ===== src/Metadata.antt =====
-- crates/daemon/src/magnet_worker.rs: the metadata of a magnet link, from a peer.
pub mod Exchange
pub mod Cache
pub mod Verified
pub mod InfoHash
pub mod Restored
mod Checks
