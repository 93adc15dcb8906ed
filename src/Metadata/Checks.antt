-- ===== src/Metadata/Checks.antt =====
-- Concrete runs of crates/daemon/src/magnet_worker.rs, with an invented digest, and the theorems at
-- concrete inputs.
use torrent_rust_cli.Common.{
  ◌<◌, ◌^◌, ◌≡◌, refl, [], ◌∷◌, ◌++◌, none, Bytes, true, All, length, replicate, ok, arith,
  bytes_eq,
}
use torrent_rust_cli.Common.Ints.{pos, i64_to_u64}
use torrent_rust_cli.Common.Texts.{codes}
use torrent_rust_cli.Common.Utf8.{is_utf8, from_utf8_lossy}
use torrent_rust_cli.Common.Decimal.{
  print_nat, print_int, parse_i64, parse_usize, parse_nat, is_digit,
}
use torrent_rust_cli.Common.Streams.{list_streams, fill, read_list}
use torrent_rust_cli.Bencode.Value.{
  Bencode, IsWellFormed, int, byte_string, dict, empty, entry, contains_key, insert, get,
  compare_bytes,
}
use torrent_rust_cli.Bencode.Encode.{encode, encode_string}
use torrent_rust_cli.Bencode.Decode.{
  decode, decode_inner, decode_items, decode_entries, scan_to, read_int, read_string, take_string,
  key_of,
}
use torrent_rust_cli.Bencode.InfoSlice.{find_info_dict_slice, info_loop}
use torrent_rust_cli.Meta.Fields.{
  get_string, get_bytes, get_int, get_field, as_bytes, as_int, get_announce_list,
}
use torrent_rust_cli.Meta.Types.{TorrentMeta, single}
use torrent_rust_cli.Meta.Parse.{
  from_bytes, as_dict, read_info, read_pieces, read_mode, chunks_exact, hash_info,
}
use torrent_rust_cli.Peer.Handshake as Handshake
use torrent_rust_cli.Peer.Message as Message
use torrent_rust_cli.Peer.Message.{PeerMessage, extended, interested}
use torrent_rust_cli.Peer.Read as Read
use torrent_rust_cli.Metadata.Exchange.{
  took_handshake, fields_of, int_of, id_in, took_piece, took_header, try_fetch_from_peer, greet,
  wait_handshake, fetch_offered, fetch_pieces, wait_piece, put_piece, offered, msg_type, verified,
  synthesise, synthetic_bytes, ext_handshake, piece_request,
}
use torrent_rust_cli.Metadata.Verified.{IsAuthentic, try_fetch_from_peer-IsAuthentic}
use torrent_rust_cli.Metadata.InfoHash.{IsAuthentic-info_hash}
use torrent_rust_cli.Metadata.Cache.{cached_bytes, cached_root}
use torrent_rust_cli.Metadata.Restored.{from_bytes-cached_bytes, restored_of}

abbrev digest : Bytes → Bytes
digest bs = replicate 20 (length bs)

-- The info dictionary of a file of three bytes, and a peer that has it.
abbrev metadata : Bytes
metadata = codes "d6:lengthi3e4:name1:n12:piece lengthi4e6:pieces20:AAAAAAAAAAAAAAAAAAAAe"

abbrev asked_for : Bytes
asked_for = digest metadata

abbrev from_peer : Bytes
from_peer =
    Handshake.serialize (record {
      info_hash = asked_for;
      peer_id = replicate 20 7;
      extensions = 0 ∷ 0 ∷ 0 ∷ 0 ∷ 0 ∷ 0x10 ∷ 0 ∷ 0 ∷ [];
    })
    ++ (Message.serialize (extended 0 (codes "d1:md11:ut_metadatai3ee13:metadata_sizei71ee"))
        ++ Message.serialize (extended 1 (codes "d8:msg_typei1e5:piecei0ee" ++ metadata)))

abbrev info_dict : Bencode
info_dict = dict (
    entry (codes "length") (int (pos 3)) (
      entry (codes "name") (byte_string (codes "n")) (
        entry (codes "piece length") (int (pos 4))
          (entry (codes "pieces") (byte_string (replicate 20 b'A')) empty))))

abbrev found : TorrentMeta × Bencode
found = (
  record {
    announce = [];
    announce_list = none;
    info = record {
      name = codes "n";
      piece_length = 4;
      pieces = replicate 20 b'A' ∷ [];
      mode = single 3;
    };
    info_hash = asked_for;
  },
  info_dict,
)

test_length : length metadata ≡ 71
test_length = refl

fetched :
    try_fetch_from_peer digest list_streams asked_for from_peer
    ≡ ok (found, ext_handshake ∷ interested ∷ piece_request 3 0 ∷ [])
unfolding try_fetch_from_peer greet wait_handshake fetch_offered fetch_pieces wait_piece put_piece
    offered msg_type verified synthesise synthetic_bytes took_handshake fields_of int_of id_in
    took_piece took_header Handshake.serialize Handshake.read Message.serialize Read.read
    Read.read_body Read.read_extended fill read_list bytes_eq decode decode_inner decode_items
    decode_entries scan_to read_int read_string take_string is_utf8 parse_i64 parse_usize parse_nat
    is_digit key_of insert get compare_bytes encode encode_string print_nat print_int i64_to_u64
    from_bytes as_dict get_string get_bytes get_int get_field as_bytes as_int read_info read_pieces
    read_mode chunks_exact contains_key hash_info find_info_dict_slice info_loop get_announce_list
    from_utf8_lossy
fetched = refl

try_fetch_from_peer-IsAuthentic_example : IsAuthentic digest asked_for found
try_fetch_from_peer-IsAuthentic_example =
    try_fetch_from_peer-IsAuthentic digest asked_for list_streams from_peer found
      (ext_handshake ∷ interested ∷ piece_request 3 0 ∷ []) fetched

abbrev found-IsAuthentic : IsAuthentic digest asked_for found
unfolding synthetic_bytes decode decode_inner decode_items decode_entries scan_to read_int
    read_string take_string is_utf8 parse_i64 parse_usize parse_nat is_digit key_of insert get
    compare_bytes encode encode_string print_nat print_int i64_to_u64 from_bytes as_dict get_string
    get_bytes get_int get_field as_bytes as_int read_info read_pieces read_mode chunks_exact
    contains_key hash_info find_info_dict_slice info_loop get_announce_list from_utf8_lossy bytes_eq
found-IsAuthentic = record {
  metadata_bytes = metadata;
  digest = refl;
  bounded = omega arith;
  decoded = refl;
  read = refl;
}

canonical : metadata ≡ encode info_dict
unfolding encode encode_string print_nat print_int
canonical = refl

found-IsWellFormed : IsWellFormed info_dict
unfolding compare_bytes
found-IsWellFormed = (
  ((refl, (refl, (refl, tt))), ((refl, (refl, tt)), ((refl, tt), (tt, tt)))),
  (omega arith, (tt, (omega arith, (tt, tt)))),
)

found_short : length (synthetic_bytes info_dict) < 2 ^ 64
unfolding synthetic_bytes insert compare_bytes encode encode_string print_nat print_int
found_short = omega arith

cached_short : length (cached_bytes (codes "http://t" ∷ codes "udp://u" ∷ []) info_dict) < 2 ^ 64
unfolding cached_bytes cached_root insert compare_bytes encode encode_string print_nat print_int
cached_short = omega arith

trackers_utf8 : All (λ t. is_utf8 t ≡ true) (codes "http://t" ∷ codes "udp://u" ∷ [])
unfolding is_utf8
trackers_utf8 = (refl, (refl, tt))

from_bytes-cached_bytes_example :
    from_bytes digest (cached_bytes (codes "http://t" ∷ codes "udp://u" ∷ []) info_dict)
    ≡ ok (record found.0 { announce = codes "http://t" })
unfolding restored_of
from_bytes-cached_bytes_example =
    from_bytes-cached_bytes digest (codes "http://t" ∷ codes "udp://u" ∷ []) info_dict found.0
      trackers_utf8 found-IsWellFormed found_short cached_short found-IsAuthentic.read

IsAuthentic-info_hash_example : found.0.info_hash ≡ asked_for
unfolding found-IsAuthentic
IsAuthentic-info_hash_example =
    IsAuthentic-info_hash digest asked_for found found-IsAuthentic canonical found-IsWellFormed
      found_short
