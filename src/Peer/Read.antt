-- ===== src/Peer/Read.antt =====
-- crates/peer/src/protocol.rs: `PeerMessage::read`, over the streams of Common/Streams.antt.
use torrent_rust_cli.Common.{
  ℕ, ◌-◌, Bytes, drop, ltb, ◌==◌, if◌then◌else◌, Outcome, ok, err, panic, ◌>>=◌,
}
use torrent_rust_cli.Common.Streams.{
  ByteStreams, fill, word32, word16, first_byte, IoError, invalid_data,
}
use torrent_rust_cli.Peer.Message.{
  PeerMessage, keep_alive, choke, unchoke, interested, not_interested, have, bitfield, request,
  piece, cancel, extended, port, unknown,
}

module _ (s : ByteStreams) where
  open s use {Stream}

  -- A message, and the stream behind it.
  abbrev pub Received : Type 0
  Received = Outcome IoError (PeerMessage × Stream)

  -- `len - 9` below 0 panics: an overflow where it is checked, else a vector that is too large.
  unfoldable pub read_block : ℕ → Bytes → Stream → Received
  read_block len header st =
      if ltb len 9
      then panic
      else fill s (len - 9) st >>= λ (block, st').
          ok (piece (word32 header) (word32 (drop 4 header)) block, st')

  unfoldable pub read_extended : ℕ → Stream → Received
  read_extended len st =
      if ltb len 2
      then err invalid_data
      else fill s 1 st >>= λ (id, st₁).
          fill s (len - 2) st₁ >>= λ (payload, st₂). ok (extended (first_byte id) payload, st₂)

  -- The match on the message's id; `len` is at least 1.
  unfoldable pub read_body : ℕ → ℕ → Stream → Received
  unfolding read_block read_extended
  read_body id len st =
      if id == 0
      then ok (choke, st)
      else if id == 1
      then ok (unchoke, st)
      else if id == 2
      then ok (interested, st)
      else if id == 3
      then ok (not_interested, st)
      else if id == 4
      then (fill s 4 st >>= λ (buf, st'). ok (have (word32 buf), st'))
      else if id == 5
      then (fill s (len - 1) st >>= λ (bits, st'). ok (bitfield bits, st'))
      else if id == 6
      then (fill s 12 st >>= λ (buf, st').
          ok (request (word32 buf) (word32 (drop 4 buf)) (word32 (drop 8 buf)), st'))
      else if id == 7
      then (fill s 8 st >>= λ (header, st'). read_block len header st')
      else if id == 8
      then (fill s 12 st >>= λ (buf, st').
          ok (cancel (word32 buf) (word32 (drop 4 buf)) (word32 (drop 8 buf)), st'))
      else if id == 9
      then (fill s 2 st >>= λ (buf, st'). ok (port (word16 buf), st'))
      else if id == 20
      then read_extended len st
      else (fill s (len - 1) st >>= λ (rest, st'). ok (unknown id rest, st'))

  unfoldable pub read : Stream → Received
  read st = fill s 4 st >>= λ (len_bytes, st₁).
      let len = word32 len_bytes in
      if len == 0
      then ok (keep_alive, st₁)
      else (fill s 1 st₁ >>= λ (id_bytes, st₂). read_body (first_byte id_bytes) len st₂)
