-- ===== src/Peer/Handshake.antt =====
-- crates/peer/src/protocol.rs: `Handshake` with its `new`, `serialize` and `read`.
use Prim.Native.Nat.{bit_or}
use torrent_rust_cli.Common.{
  ◌≡◌, ◌≢◌, refl, [], ◌∷◌, ◌++◌, append_assoc, Bytes, length, replicate, set, bytes_eq,
  bytes_eq_self, if◌then◌else◌, Outcome, ok, err, ◌>>=◌, Bool-cases, bytes_eq→eq, inl, inr,
}
use torrent_rust_cli.Common.Streams.{ByteStreams, fill, fill_enough, IoError, invalid_data}

-- b"\x13BitTorrent protocol"
abbrev pub handshake_prefix : Bytes
handshake_prefix =
    0x13 ∷ b'B' ∷ b'i' ∷ b't' ∷ b'T' ∷ b'o' ∷ b'r' ∷ b'r' ∷ b'e' ∷ b'n' ∷ b't' ∷ b' ' ∷ b'p' ∷ b'r'
    ∷ b'o' ∷ b't' ∷ b'o' ∷ b'c' ∷ b'o' ∷ b'l' ∷ []

pub record Handshake : Type 0 where
  pub info_hash : Bytes
  pub peer_id : Bytes
  pub extensions : Bytes

-- `extensions[5] |= 0x10` on an array of zeros.
unfoldable pub new : Bytes → Bytes → Handshake
new info_hash peer_id = record {
  info_hash = info_hash;
  peer_id = peer_id;
  extensions = set (replicate 8 0) 5 (bit_or 0 0x10);
}

unfoldable pub serialize : Handshake → Bytes
serialize h = handshake_prefix ++ (h.extensions ++ (h.info_hash ++ h.peer_id))

-- The arrays have the sizes of their types.
pub record IsValid (h : Handshake) : Type 0 where
  pub extensions_size : length h.extensions ≡ 8
  pub info_hash_size : length h.info_hash ≡ 20
  pub peer_id_size : length h.peer_id ≡ 20

module _ (s : ByteStreams) where
  open s use {Stream, delivers}

  unfoldable pub read : Stream → Outcome IoError (Handshake × Stream)
  read st = fill s 20 st >>= λ (prefix, st₁).
      if bytes_eq prefix handshake_prefix
      then (fill s 8 st₁ >>= λ (reserved, st₂). fill s 20 st₂ >>= λ (info_hash, st₃).
          fill s 20 st₃ >>= λ (peer_id, st₄).
          ok (record { info_hash = info_hash; peer_id = peer_id; extensions = reserved }, st₄))
      else err invalid_data

  -- `read` takes back a handshake that `serialize` wrote, and leaves the stream at what follows.
  pub read-serialize_handshake :
      (h : Handshake) (rest : Bytes)
      → IsValid h
      → read (delivers (serialize h ++ rest)) ≡ ok (h, delivers rest)
  unfolding read serialize
  read-serialize_handshake h rest v = rw (
    append_assoc h.extensions (h.info_hash ++ h.peer_id) rest,
    append_assoc h.info_hash h.peer_id rest,
    fill_enough s 20 handshake_prefix (h.extensions ++ (h.info_hash ++ (h.peer_id ++ rest))) refl,
    bytes_eq_self handshake_prefix,
    fill_enough s 8 h.extensions (h.info_hash ++ (h.peer_id ++ rest)) v.extensions_size,
    fill_enough s 20 h.info_hash (h.peer_id ++ rest) v.info_hash_size,
    fill_enough s 20 h.peer_id rest v.peer_id_size,
  )

  -- A stream that opens with twenty other bytes is refused.
  pub read_other_prefix :
      (prefix rest : Bytes)
      → length prefix ≡ 20
      → prefix ≢ handshake_prefix
      → read (delivers (prefix ++ rest)) ≡ err invalid_data
  unfolding read
  read_other_prefix prefix rest l h =
      rw (fill_enough s 20 prefix rest l) (elim (Bool-cases (bytes_eq prefix handshake_prefix)) [
        | inl e ↦ absurd (h (bytes_eq→eq _ _ e))
        | inr e ↦ rw e
      ])

-- What `new` makes has arrays of the right sizes if its arguments have.
pub new-IsValid :
    (info_hash peer_id : Bytes)
    → length info_hash ≡ 20
    → length peer_id ≡ 20
    → IsValid (new info_hash peer_id)
unfolding new
new-IsValid info_hash peer_id p q = record {
  extensions_size = refl;
  info_hash_size = p;
  peer_id_size = q;
}
