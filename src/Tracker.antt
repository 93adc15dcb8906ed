-- ===== src/Tracker.antt =====
-- crates/tracker/src/lib.rs: the announces to UDP and HTTP trackers.
pub mod Peers
pub mod Udp
pub mod Http
mod Checks
