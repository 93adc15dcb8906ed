-- ===== src/Peer.antt =====
-- crates/peer/src/protocol.rs: the handshake and the messages between peers.
pub mod Message
pub mod Handshake
pub mod Read
pub mod RoundTrip
pub mod Frames
mod Checks
