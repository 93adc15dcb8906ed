-- ===== src/Peer/RoundTrip.antt =====
-- `PeerMessage::read` takes back what `PeerMessage::serialize` wrote (crates/peer/src/protocol.rs).
use torrent_rust_cli.Common.{
  ℕ, ◌+◌, ◌-◌, ◌^◌, ◌<◌, ◌≡◌, ◌≢◌, refl, ◌∙◌, [], ◌∷◌, ◌++◌, Bytes, length, ok, arith, ne→==,
  le→ltb,
}
use native.Mathlib.Nat.{mod-eq_of_lt}
use torrent_rust_cli.Common.Words.{be16, be32, from_be16-be16, from_be32-be32}
use torrent_rust_cli.Common.Streams.{ByteStreams, fill, fill_enough}
use torrent_rust_cli.Peer.Message.{
  PeerMessage, serialize, keep_alive, choke, unchoke, interested, not_interested, have, bitfield,
  request, piece, cancel, extended, port, unknown,
}
use torrent_rust_cli.Peer.Read.{read, read_body}

abbrev pub IsU32 : ℕ → Type 0
IsU32 n = n < 2 ^ 32

-- Ids that stand for no message of the protocol.
abbrev pub IsUnknownId : ℕ → Type 0
IsUnknownId id = (9 < id) × (id ≢ 20)

-- The fields fit the types that the enum gives them, and the length of the frame fits a u32.
abbrev pub IsValid : PeerMessage → Type 0
IsValid (have index) = IsU32 index
IsValid (bitfield bits) = IsU32 (1 + length bits)
IsValid (request index begin len) = IsU32 index × IsU32 begin × IsU32 len
IsValid (piece index begin block) = IsU32 index × IsU32 begin × IsU32 (9 + length block)
IsValid (cancel index begin len) = IsU32 index × IsU32 begin × IsU32 len
IsValid (extended msg_id payload) = IsU32 (2 + length payload)
IsValid (port p) = p < 2 ^ 16
IsValid (unknown id body) = IsUnknownId id × IsU32 (1 + length body)
IsValid _ = Unit

module _ (s : ByteStreams) where
  open s use {delivers}

  -- A frame of length `len` leads into the match on its id.
  pub read_frame :
      (len id : ℕ) (after : Bytes)
      → 0 < len
      → IsU32 len
      → read s (delivers (be32 len ++ (id ∷ after))) ≡ read_body s id len (delivers after)
  unfolding read
  read_frame len id after p h = rw (
    fill_enough s 4 (be32 len) (id ∷ after) refl,
    from_be32-be32 len h,
    ne→== len 0 (omega arith),
    fill_enough s 1 (id ∷ []) after refl,
  )

  read_unknown :
      (id len : ℕ) (body rest : Bytes)
      → IsUnknownId id
      → length body + 1 ≡ len
      → read_body s id len (delivers (body ++ rest)) ≡ ok (unknown id body, delivers rest)
  unfolding read_body
  read_unknown id len body rest h e = ground (arith, fill_enough s (len - 1) body rest)

  three_words :
      (a b c : ℕ) (rest : Bytes)
      → fill s 12 (delivers (be32 a ++ (be32 b ++ (be32 c ++ rest))))
        ≡ ok (be32 a ++ (be32 b ++ be32 c), delivers rest)
  three_words a b c rest = fill_enough s 12 (be32 a ++ (be32 b ++ be32 c)) rest refl

  -- `read` takes back any message whose fields fit their types and whose frame length fits a u32,
  -- and leaves the stream at what follows it.
  pub read-serialize :
      (m : PeerMessage) (rest : Bytes)
      → IsValid m
      → read s (delivers (serialize m ++ rest)) ≡ ok (m, delivers rest)
  unfolding serialize read_body
  read-serialize keep_alive rest h = unfold read in rw (fill_enough s 4 (be32 0) rest refl)
  read-serialize choke rest h = read_frame 1 0 rest (omega arith) (omega arith)
  read-serialize unchoke rest h = read_frame 1 1 rest (omega arith) (omega arith)
  read-serialize interested rest h = read_frame 1 2 rest (omega arith) (omega arith)
  read-serialize not_interested rest h = read_frame 1 3 rest (omega arith) (omega arith)
  read-serialize (have index) rest h =
      read_frame 5 4 (be32 index ++ rest) (omega arith) (omega arith)
      ∙ rw (fill_enough s 4 (be32 index) rest refl, from_be32-be32 index h)
  read-serialize (bitfield bits) rest h = rw (mod-eq_of_lt h) (
      read_frame (1 + length bits) 5 (bits ++ rest) (omega arith) h
      ∙ rw (fill_enough s (1 + length bits - 1) bits rest (omega arith)))
  read-serialize (request index begin len) rest h =
      read_frame 13 6 (be32 index ++ (be32 begin ++ (be32 len ++ rest))) (omega arith) (omega arith)
      ∙ rw (
        three_words index begin len rest,
        from_be32-be32 index h.0,
        from_be32-be32 begin h.1,
        from_be32-be32 len h.2,
      )
  read-serialize (piece index begin block) rest h = rw (mod-eq_of_lt h.2) (
      read_frame (9 + length block) 7 (be32 index ++ (be32 begin ++ (block ++ rest))) (omega arith)
        h.2
      ∙ rw (
        fill_enough s 8 (be32 index ++ be32 begin) (block ++ rest) refl,
        le→ltb (9 + length block) 9 (omega arith),
        fill_enough s (9 + length block - 9) block rest (omega arith),
        from_be32-be32 index h.0,
        from_be32-be32 begin h.1,
      ))
  read-serialize (cancel index begin len) rest h =
      read_frame 13 8 (be32 index ++ (be32 begin ++ (be32 len ++ rest))) (omega arith) (omega arith)
      ∙ rw (
        three_words index begin len rest,
        from_be32-be32 index h.0,
        from_be32-be32 begin h.1,
        from_be32-be32 len h.2,
      )
  read-serialize (extended id payload) rest h = rw (mod-eq_of_lt h) (
      read_frame (2 + length payload) 20 (id ∷ (payload ++ rest)) (omega arith) h
      ∙ rw (
        le→ltb (2 + length payload) 2 (omega arith),
        fill_enough s 1 (id ∷ []) (payload ++ rest) refl,
        fill_enough s (2 + length payload - 2) payload rest (omega arith),
      ))
  read-serialize (port p) rest h =
      read_frame 3 9 (be16 p ++ rest) (omega arith) (omega arith)
      ∙ rw (fill_enough s 2 (be16 p) rest refl, from_be16-be16 p h)
  read-serialize (unknown id body) rest h = rw (mod-eq_of_lt h.1) (
      read_frame (1 + length body) id (body ++ rest) (omega arith) h.1
      ∙ read_unknown id (1 + length body) body rest h.0 (omega arith))
