-- ===== src/Peer/Checks.antt =====
-- Concrete runs of crates/peer/src/protocol.rs, and the theorems at concrete inputs.
use torrent_rust_cli.Common.{
  ℕ, ◌≡◌, ◌↔◌, ◌<◌, ◌≤◌, refl, [], ◌∷◌, ◌++◌, Bytes, drop, length, replicate, ok, panic, arith,
}
use torrent_rust_cli.Common.Words.{be32}
use torrent_rust_cli.Common.Streams.{list_streams, fill, read_list}
use torrent_rust_cli.Peer.Message.{have, piece, serialize}
use torrent_rust_cli.Peer.Handshake.{Handshake}
use torrent_rust_cli.Peer.Read.{read, read_body}
use torrent_rust_cli.Peer.RoundTrip.{read-serialize}
use torrent_rust_cli.Peer.Frames.{read-panic_iff, read_any_length, HasFixedLength}

-- A frame that announces a length of nine, read as `have`: the last four bytes of it stay behind.
test_long_have : read list_streams (be32 9 ++ (4 ∷ (be32 3 ++ be32 5))) ≡ ok (have 3, be32 5)
unfolding read read_body fill read_list
test_long_have = refl

read-serialize_example :
    read list_streams (serialize (piece 1 2 (7 ∷ 8 ∷ [])) ++ (9 ∷ []))
    ≡ ok (piece 1 2 (7 ∷ 8 ∷ []), 9 ∷ [])
read-serialize_example =
    read-serialize list_streams (piece 1 2 (7 ∷ 8 ∷ [])) (9 ∷ [])
      (omega arith, omega arith, omega arith)

abbrev seven : ℕ
seven = 7

abbrev header : Bytes
header = replicate 8 0

read-panic_iff_example :
    (read list_streams (be32 8 ++ (7 ∷ header)) ≡ panic)
    ↔ ((seven ≡ 7) × (8 < 9) × (8 ≤ length header))
read-panic_iff_example = read-panic_iff list_streams seven 8 header (omega arith) (omega arith)

read_any_length_example :
    read list_streams (be32 9 ++ (drop 4 (serialize (have 3)) ++ be32 5)) ≡ ok (have 3, be32 5)
unfolding HasFixedLength
read_any_length_example =
    read_any_length list_streams (have 3) 9 (be32 5) (omega arith) tt (omega arith) (omega arith)

abbrev greeting : Handshake
greeting = record {
  info_hash = replicate 20 1;
  peer_id = replicate 20 2;
  extensions = replicate 8 0;
}
