-- ===== src/Lib.antt =====
-- A model of the BitTorrent client torrent-rust-cli: a daemon that downloads and serves torrents, and a
-- command line that talks to it.
--
-- The parts, and the files that model them:
-- - Bencode (crates/core/src/bencode.rs): bencoded values, `Bencode::decode_inner` on an offset and the
--   bytes that are left there, `Bencode::encode`, and `find_info_dict_slice`.
-- - Meta (crates/core/src/meta.rs): torrent files, `TorrentMeta::into_bytes` and `from_bytes`, which
--   stand on Bencode. The digest SHA-1 is a parameter.
-- - Magnet (crates/core/src/magnet.rs and lib.rs): `MagnetLink::parse`, hexadecimal digests, and the
--   links that the daemon makes from a bare info hash.
-- - Peer (crates/peer/src/protocol.rs): the handshake and the messages between peers.
-- - Piece (crates/piece/src/lib.rs): bit fields over the interface of bitvec, and the piece picker.
-- - Rpc (crates/rpc/src/transport.rs and lib.rs): packets, requests and responses. The serialisation of
--   bincode is a parameter with its round trip as a law.
-- - Tracker (crates/tracker/src/lib.rs): the announces over UDP and HTTP, which use Bencode for the
--   answers. The resolver, the sockets and the numbers of `rand_u32` are parameters.
-- - Creator (crates/daemon/src/creator.rs): `create_torrent`, which writes a Meta. What is on disk, and
--   how it is read, is a parameter.
-- - Engine (crates/daemon/src/engine.rs): the files of a torrent, which `write_block` and
--   `read_piece_from_disk` see as one sequence of bytes, and the session with a peer (`peer_loop`): a
--   function for each message of Peer that arrives, on the state that the sessions of a torrent share.
--   Engine.Verify is the check of the files against the hashes (`verify_and_resume`), after the files
--   are made in their lengths on a store of files by path (`initialize_files`).
-- - Server (crates/daemon/src/server.rs): the table of torrents, the saved paths and the state file, with
--   a function for each request of Rpc (`process_request`), the restores that they spawn
--   (`restore_torrent`), the start on a state file, and the connection with a client over Rpc. It adds
--   what Magnet and Meta parse, writes what Creator makes, and checks with Engine. Server.Table has the
--   maps, Server.Kept the changes that requests and restores are made of, Server.Runs the runs of
--   requests, restores and flushes (`flush_progress`) in any order, and Server.Reachable the states that
--   follow from a start, while which restores may run already. The libraries and the file system are the record `Env`.
-- - Metadata (crates/daemon/src/magnet_worker.rs): how the worker for a magnet link takes the info
--   dictionary from a peer (ut_metadata), over Peer and Bencode (`try_fetch_from_peer_static`), and the
--   file that `fetch_metadata` leaves in the cache, which Meta reads on a restart.
-- - Common: results, words, decimal numbers, UTF-8 and streams, as the standard library has them.
-- In each part the module Checks holds concrete runs, and the theorems at concrete inputs.
--
-- A byte is a natural number, a text is the list of its bytes, and a function that may fail, panic or
-- run out of fuel returns an `Outcome`. Arithmetic that leaves its type is a panic, as in a build with
-- overflow checks, except where the source casts, which is written out with `% 2 ^ w`. Streams are the
-- interface `ByteStreams` with the laws of `read_exact`, and lists of bytes meet them.
--
-- Fuel: `decode` gives twice the length of the input and one, since of two calls one takes a byte, and
-- the theorems on termination show that this is enough for any input. `chunks_exact` takes the length.
-- The loop of a connection gives one more than the requests that arrive. The waits of Metadata give
-- the 20 and 30 messages of the source.
--
-- Not modelled: sockets, timeouts and the runtime, the file system, logging, the parsing of arguments
-- and of the configuration file, the connection types, which only pass calls on, and how the locks of
-- the server let its handlers run between each other: a request is one step here, and so is a restore.
-- Nor the search for peers and the retries of a magnet link, the announces of the engine, and how the
-- messages of several sessions of a torrent interleave.
pub mod Common
pub mod Bencode
pub mod Peer
pub mod Rpc
pub mod Server
pub mod Piece
pub mod Magnet
pub mod Metadata
pub mod Meta
pub mod Tracker
pub mod Creator
pub mod Engine
