-- ===== src/Engine.antt =====
-- crates/daemon/src/engine.rs: the files of a torrent on disk, and the session with a peer.
pub mod Files
pub mod Splice
pub mod Flat
pub mod Session
pub mod Verify
pub mod Initialize
pub mod Verified
pub mod Fetch
mod Checks
