-- ===== src/Server/Incoming.antt =====
-- `handle_incoming_peer` of crates/daemon/src/server.rs: the torrent that a peer is handed to. The limit on
-- the time of the handshake is left out.
use torrent_rust_cli.Common.{
  ℕ, ◌≡◌, ap, ◌∙◌, [], ◌∷◌, Option, none, some, Bytes, All, bytes_eq, bytes_eq→eq, Outcome, ok, err,
  panic, out_of_fuel, ◌>>=◌, Bool-cases, inl, inr,
}
use torrent_rust_cli.Common.Streams.{ByteStreams, IoError}
use torrent_rust_cli.Peer.Handshake.{Handshake, read}
use torrent_rust_cli.Magnet.Hex.{to_hex}
use torrent_rust_cli.Server.Table.{Table}
use torrent_rust_cli.Server.Types.{TorrentHandle, Downloader, RpcServer}
use torrent_rust_cli.Server.Add.{find_hash}
use torrent_rust_cli.Server.Consistent.{IsConsistent, IsOwn}

unfoldable pub engine_of : Option TorrentHandle → Option Downloader
engine_of none = none
engine_of (some handle) = handle.engine

-- The handshake, the engine that goes on with the peer, if there is one, and the stream.
unfoldable pub handed :
    {S : Type 0} → RpcServer → Handshake × S → Outcome IoError (Handshake × Option Downloader × S)
unfolding engine_of
handed server (handshake, st) =
    ok (handshake, engine_of (find_hash (to_hex handshake.info_hash) server.torrents), st)

module _ (s : ByteStreams) where
  open s use {Stream}

  unfoldable pub handle_incoming_peer :
      RpcServer → Stream → Outcome IoError (Handshake × Option Downloader × Stream)
  unfolding handed
  handle_incoming_peer server st = read s st >>= λ found. handed server found

found_engine :
    (n : ℕ) (hash : Bytes) (t : Table TorrentHandle) (d : Downloader)
    → All (IsOwn n) t
    → engine_of (find_hash hash t) ≡ some d
    → to_hex d.meta.info_hash ≡ hash
unfolding engine_of find_hash
found_engine n hash [] d own e = cc
found_engine n hash ((id, handle) ∷ t) d own e =
    elim (Bool-cases (bytes_eq handle.state.info_hash hash)) [
      | inl f ↦ own.0.2 d (rw (f, find_hash) at e) ∙ bytes_eq→eq handle.state.info_hash hash f
      | inr f ↦ found_engine n hash t d own.1 (rw (f, find_hash) at e)
    ]

-- A peer is handed only to an engine of the torrent that its handshake names.
pub handle_incoming_peer_own :
    (s : ByteStreams) (server : RpcServer) (st st' : s.Stream) (h : Handshake) (d : Downloader)
    → IsConsistent server
    → handle_incoming_peer s server st ≡ ok (h, some d, st')
    → to_hex d.meta.info_hash ≡ to_hex h.info_hash
unfolding handle_incoming_peer handed
handle_incoming_peer_own s server st st' h d c e = named (read s st) e
  where
    named :
        (r : Outcome IoError (Handshake × s.Stream))
        → r >>= (λ found. handed server found) ≡ ok (h, some d, st')
        → to_hex d.meta.info_hash ≡ to_hex h.info_hash
    named (ok (h₁, st₁)) q =
        let same : h₁ ≡ h = cc in
        let found : engine_of (find_hash (to_hex h₁.info_hash) server.torrents) ≡ some d = cc in
        found_engine server.next_id (to_hex h₁.info_hash) server.torrents d c.torrents_own found
        ∙ ap (λ x. to_hex x.info_hash) same
    named (err x) q = cc
    named panic q = cc
    named out_of_fuel q = cc
