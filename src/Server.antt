-- ===== src/Server.antt =====
-- crates/daemon/src/server.rs: the daemon's table of torrents, its state file, and its requests.
pub mod Table
pub mod Types
pub mod Text
pub mod State
pub mod Restore
pub mod Add
pub mod Requests
pub mod Connection
pub mod Consistent
pub mod Kept
pub mod KeptByRestores
pub mod KeptByAdds
pub mod KeptByRequests
pub mod Runs
pub mod Reachable
pub mod Persisted
pub mod Restart
pub mod Listing
pub mod Adding
pub mod Incoming
pub mod Example
pub mod Lifetime
mod Checks
