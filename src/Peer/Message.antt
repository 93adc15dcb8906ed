-- ===== src/Peer/Message.antt =====
-- crates/peer/src/protocol.rs: `PeerMessage` and `PeerMessage::serialize`.
use torrent_rust_cli.Common.{ℕ, ◌+◌, ◌%◌, ◌^◌, [], ◌∷◌, ◌++◌, Bytes, length}
use torrent_rust_cli.Common.Words.{be16, be32}

pub data PeerMessage : Type 0 where
  keep_alive choke unchoke interested not_interested : PeerMessage
  have : ℕ → PeerMessage
  bitfield : Bytes → PeerMessage
  request : ℕ → ℕ → ℕ → PeerMessage
  piece : ℕ → ℕ → Bytes → PeerMessage
  cancel : ℕ → ℕ → ℕ → PeerMessage
  extended : ℕ → Bytes → PeerMessage
  port : ℕ → PeerMessage
  unknown : ℕ → Bytes → PeerMessage

-- `len as u32`
abbrev as_u32 : ℕ → ℕ
as_u32 n = n % 2 ^ 32

unfoldable pub serialize : PeerMessage → Bytes
serialize keep_alive = be32 0
serialize choke = be32 1 ++ (0 ∷ [])
serialize unchoke = be32 1 ++ (1 ∷ [])
serialize interested = be32 1 ++ (2 ∷ [])
serialize not_interested = be32 1 ++ (3 ∷ [])
serialize (have index) = be32 5 ++ (4 ∷ be32 index)
serialize (bitfield bits) = be32 (as_u32 (1 + length bits)) ++ (5 ∷ bits)
serialize (request index begin len) = be32 13 ++ (6 ∷ (be32 index ++ (be32 begin ++ be32 len)))
serialize (piece index begin block) =
    be32 (as_u32 (9 + length block)) ++ (7 ∷ (be32 index ++ (be32 begin ++ block)))
serialize (cancel index begin len) = be32 13 ++ (8 ∷ (be32 index ++ (be32 begin ++ be32 len)))
serialize (extended msg_id payload) = be32 (as_u32 (2 + length payload)) ++ (20 ∷ msg_id ∷ payload)
serialize (port p) = be32 3 ++ (9 ∷ be16 p)
serialize (unknown id body) = be32 (as_u32 (1 + length body)) ++ (id ∷ body)
