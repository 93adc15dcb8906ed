-- ===== src/Rpc.antt =====
-- crates/rpc: the requests and responses between the command line and the daemon, and the packets
-- that carry them.
pub mod Types
pub mod Packet
pub mod Exchange
mod Checks
