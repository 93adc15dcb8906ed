-- ===== src/Meta/Print.antt =====
-- crates/core/src/meta.rs: `to_bencode_fields`, `to_bencode` and `into_bytes`.
use torrent_rust_cli.Common.{[], ◌∷◌, ◌++◌, List, Option, none, some, Bytes}
use torrent_rust_cli.Common.Ints.{u64_to_i64}
use torrent_rust_cli.Common.Texts.{codes}
use torrent_rust_cli.Bencode.Value.{
  Bencode, Items, Dict, int, byte_string, list, dict, nil, cons, empty, insert,
}
use torrent_rust_cli.Bencode.Encode.{encode}
use torrent_rust_cli.Meta.Types.{TorrentFile, FileMode, single, multi, InfoDict, TorrentMeta}

-- A list of strings: a path, or a tier of trackers.
unfoldable pub string_items : List Bytes → Items
string_items [] = nil
string_items (s ∷ ss) = cons (byte_string s) (string_items ss)

unfoldable pub file_dict : TorrentFile → Dict
file_dict f =
    insert (codes "path") (list (string_items f.path))
      (insert (codes "length") (int (u64_to_i64 f.length)) empty)

unfoldable pub file_items : List TorrentFile → Items
file_items [] = nil
file_items (f ∷ fs) = cons (dict (file_dict f)) (file_items fs)

unfoldable pub to_bencode_fields : FileMode → Dict → Dict
to_bencode_fields (single length) d = insert (codes "length") (int (u64_to_i64 length)) d
to_bencode_fields (multi files) d = insert (codes "files") (list (file_items files)) d

unfoldable pub concat_pieces : List Bytes → Bytes
concat_pieces [] = []
concat_pieces (p ∷ ps) = p ++ concat_pieces ps

unfoldable pub info_to_dict : InfoDict → Dict
info_to_dict info =
    let named = insert (codes "name") (byte_string info.name) empty in
    let sized = insert (codes "piece length") (int (u64_to_i64 info.piece_length)) named in
    let pieced = insert (codes "pieces") (byte_string (concat_pieces info.pieces)) sized in
    to_bencode_fields info.mode pieced

unfoldable pub info_to_bencode : InfoDict → Bencode
info_to_bencode info = dict (info_to_dict info)

unfoldable pub tier_items : List (List Bytes) → Items
tier_items [] = nil
tier_items (t ∷ ts) = cons (list (string_items t)) (tier_items ts)

unfoldable pub insert_announce_list : Option (List (List Bytes)) → Dict → Dict
insert_announce_list none d = d
insert_announce_list (some tiers) d = insert (codes "announce-list") (list (tier_items tiers)) d

unfoldable pub to_dict : TorrentMeta → Dict
to_dict m =
    let announced = insert (codes "announce") (byte_string m.announce) empty in
    let listed = insert_announce_list m.announce_list announced in
    insert (codes "info") (info_to_bencode m.info) listed

unfoldable pub to_bencode : TorrentMeta → Bencode
to_bencode m = dict (to_dict m)

unfoldable pub into_bytes : TorrentMeta → Bytes
into_bytes m = encode (to_bencode m)
