-- ===== src/Metadata/Exchange.antt =====
-- `try_fetch_from_peer_static` of crates/daemon/src/magnet_worker.rs, on what the peer sends once the
-- connection stands; a limit on the time that passes is a read that fails. SHA-1 is a parameter.
use Prim.Native.Nat.{bit_and}
use torrent_rust_cli.Common.{
  ℕ, zero, suc, ◌+◌, ◌-◌, ◌*◌, ◌/◌, ◌%◌, List, [], ◌∷◌, ◌++◌, Option, none, some, Bytes, Bool,
  false, length, take, drop, replicate, get_or, min, ltb, ◌==◌, bytes_eq, if◌then◌else◌, Outcome,
  ok, err, panic, out_of_fuel, ◌>>=◌, map_err,
}
use torrent_rust_cli.Common.Ints.{ℤ, pos, i64_to_u64}
use torrent_rust_cli.Common.Texts.{codes}
use torrent_rust_cli.Common.Streams.{ByteStreams, IoError}
use torrent_rust_cli.Bencode.Value.{
  Bencode, BencodeError, int, byte_string, dict, empty, insert, get,
}
use torrent_rust_cli.Bencode.Encode.{encode}
use torrent_rust_cli.Bencode.Decode.{decode, decode_inner, fuel_for}
use torrent_rust_cli.Meta.Types.{TorrentMeta, MetaError}
use torrent_rust_cli.Meta.Parse.{from_bytes}
use torrent_rust_cli.Peer.Handshake as Handshake
use torrent_rust_cli.Peer.Read as Message
use torrent_rust_cli.Peer.Message.{PeerMessage, extended, interested}

pub data FetchError : Type 0 where
  read_failed : IoError → FetchError
  hash_mismatch no_extensions no_ut_metadata no_metadata_size metadata_mismatch : FetchError
  decode_failed : BencodeError → FetchError
  too_large rejected no_piece : ℕ → FetchError
  meta_failed : MetaError → FetchError

-- The messages that are sent: the extended handshake, and the request for a piece.
unfoldable pub ext_handshake : PeerMessage
ext_handshake = extended 0 (
    encode
      (dict (insert (codes "m") (dict (insert (codes "ut_metadata") (int (pos 1)) empty)) empty)))

unfoldable pub piece_request : ℕ → ℕ → PeerMessage
piece_request ut_metadata_id i = extended ut_metadata_id (
    encode
      (dict (insert (codes "piece") (int (pos i)) (insert (codes "msg_type") (int (pos 0)) empty))))

-- `*id as u8` and `*size as usize`
unfoldable pub int_of : Option Bencode → Option ℕ
int_of (some (int i)) = some (i64_to_u64 i)
int_of _ = none

unfoldable pub id_in : Option Bencode → Option ℕ
unfolding int_of
id_in (some (dict m)) = elim (int_of (get (codes "ut_metadata") m)) [
  | none ↦ none
  | some i ↦ some (i % 256)
]
id_in _ = none

-- The two fields of the extended handshake, as far as they are there.
unfoldable pub offered : Bencode → Option ℕ × Option ℕ
unfolding int_of id_in
offered (dict d) = (id_in (get (codes "m") d), int_of (get (codes "metadata_size") d))
offered _ = (none, none)

-- The type of a message on a metadata piece.
unfoldable pub msg_type : Bencode → Option ℤ
msg_type (dict d) = elim (get (codes "msg_type") d) [ some (int i) ↦ some i | _ ↦ none ]
msg_type _ = none

-- `metadata_bytes[start..end].copy_from_slice(&data[..end - start])`
unfoldable pub put_piece : ℕ → Bytes → Bytes → Bytes
put_piece i data_bytes metadata_bytes =
    let start = i * 16384 in
    let end = min (start + length data_bytes) (length metadata_bytes) in
    take start metadata_bytes ++ (take (end - start) data_bytes ++ drop end metadata_bytes)

module _ (s : ByteStreams) where
  open s use {Stream}

  abbrev pub Fields : Type 0
  Fields = Outcome FetchError (Option ℕ × Option ℕ × Stream)

  unfoldable pub fields_of : Stream → Bencode → Fields
  unfolding offered
  fields_of st v = let (id, size) = offered v in ok (id, size, st)

  -- What a message means for the wait: the extended handshake ends it, and any other goes on.
  unfoldable pub took_handshake : (Stream → Fields) → PeerMessage × Stream → Fields
  unfolding fields_of
  took_handshake more (extended msg_id payload, st) =
      let found = map_err decode_failed (decode payload) >>= λ v. fields_of st v in
      let later = more st in if msg_id == 0 then found else later
  took_handshake more (m, st) = more st

  unfoldable pub wait_handshake : ℕ → Stream → Fields
  unfolding took_handshake
  wait_handshake zero st = ok (none, none, st)
  wait_handshake (suc f) st = map_err read_failed (Message.read s st) >>= λ m.
      took_handshake (λ st'. wait_handshake f st') m

  abbrev pub Piece : Type 0
  Piece = Outcome FetchError (Bytes × Stream)

  abbrev is_type : ℕ → Option ℤ → Bool
  is_type n (some (pos m)) = m == n
  is_type n _ = false

  -- The header of the message, and the bytes behind it.
  unfoldable pub took_header :
      Piece → ℕ → Stream → Outcome BencodeError (Bencode × ℕ × Bytes) → Piece
  unfolding msg_type
  took_header later i st (ok (v, offset, data_bytes)) =
      if is_type 1 (msg_type v)
      then ok (data_bytes, st)
      else if is_type 2 (msg_type v)
      then err (rejected i)
      else later
  took_header later i st (err e) = later
  took_header later i st panic = panic
  took_header later i st out_of_fuel = out_of_fuel

  unfoldable pub took_piece : (Stream → Piece) → ℕ → PeerMessage × Stream → Piece
  unfolding took_header
  took_piece more i (extended msg_id payload, st) =
      let later = more st in
      let found = took_header later i st (decode_inner (fuel_for payload) 0 payload) in
      if msg_id == 1 then found else later
  took_piece more i (m, st) = more st

  -- The data of a piece, among at most so many messages.
  unfoldable pub wait_piece : ℕ → ℕ → Stream → Piece
  unfolding took_piece
  wait_piece zero i st = err (no_piece i)
  wait_piece (suc f) i st =
      map_err read_failed (Message.read s st) >>= λ m. took_piece (λ st'. wait_piece f i st') i m

  -- The pieces from one on, as many as are left: the buffer, and the requests that are sent.
  unfoldable pub fetch_pieces :
      ℕ
      → ℕ
      → ℕ
      → Bytes
      → List PeerMessage
      → Stream
      → Outcome FetchError (Bytes × List PeerMessage × Stream)
  fetch_pieces id zero i metadata_bytes sent st = ok (metadata_bytes, sent, st)
  fetch_pieces id (suc left) i metadata_bytes sent st = wait_piece 30 i st >>= λ (data_bytes, st').
      fetch_pieces id left (i + 1) (put_piece i data_bytes metadata_bytes)
        (sent ++ (piece_request id i ∷ [])) st'

-- The torrent file that the info dictionary is read from, with an empty announce.
unfoldable pub synthetic_bytes : Bencode → Bytes
synthetic_bytes info_dict =
    encode
      (dict (insert (codes "announce") (byte_string []) (insert (codes "info") info_dict empty)))

module _ (sha1 : Bytes → Bytes) where
  -- The metadata, after the check, and the info dictionary.
  unfoldable pub synthesise : Bytes → Outcome FetchError (TorrentMeta × Bencode)
  synthesise metadata_bytes = map_err decode_failed (decode metadata_bytes) >>= λ info_dict.
      map_err meta_failed (from_bytes sha1 (synthetic_bytes info_dict)) >>= λ meta.
      ok (meta, info_dict)

  unfoldable pub verified : Bytes → Bytes → Outcome FetchError (TorrentMeta × Bencode)
  unfolding synthesise
  verified info_hash metadata_bytes =
      let good = synthesise metadata_bytes in
      if bytes_eq (sha1 metadata_bytes) info_hash then good else err metadata_mismatch

  module _ (s : ByteStreams) where
    open s use {Stream}

    -- From the two fields on.
    unfoldable pub fetch_offered :
        Bytes
        → List PeerMessage
        → Option ℕ × Option ℕ × Stream
        → Outcome FetchError ((TorrentMeta × Bencode) × List PeerMessage)
    fetch_offered info_hash sent (none, size, st) = err no_ut_metadata
    fetch_offered info_hash sent (some id, none, st) = err no_metadata_size
    fetch_offered info_hash sent (some id, some size, st) =
        if ltb (10 * 1024 * 1024) size
        then err (too_large size)
        else fetch_pieces s id ((size + 16383) / 16384) 0 (replicate size 0) sent st
          >>= λ (metadata_bytes, requests, st').
              verified info_hash metadata_bytes >>= λ (found : TorrentMeta × Bencode).
              ok (found, requests)

    unfoldable pub greet : Bytes → Handshake.Handshake × Stream → Outcome FetchError Stream
    greet info_hash (h, st) =
        if bytes_eq h.info_hash info_hash
        then (if bit_and (get_or h.extensions 5 0) 0x10 == 0 then err no_extensions else ok st)
        else err hash_mismatch

    -- The metadata and the info dictionary, and the messages that were sent behind the handshake.
    unfoldable pub try_fetch_from_peer :
        Bytes → Stream → Outcome FetchError ((TorrentMeta × Bencode) × List PeerMessage)
    unfolding fetch_offered greet
    try_fetch_from_peer info_hash st =
        map_err read_failed (Handshake.read s st) >>= λ (h : Handshake.Handshake × Stream).
        greet info_hash h >>= λ st₁.
        wait_handshake s 20 st₁ >>= λ f. fetch_offered info_hash (ext_handshake ∷ interested ∷ []) f
