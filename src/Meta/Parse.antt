-- ===== src/Meta/Parse.antt =====
-- crates/core/src/meta.rs: `TorrentMeta::from_bytes`. The digest of the crate sha1 is the parameter
-- `sha1`.
use torrent_rust_cli.Common.{
  ℕ, zero, suc, ◌%◌, [], ◌∷◌, List, none, some, Bytes, length, take, drop, ltb, ◌==◌, if◌then◌else◌,
  Outcome, ok, err, ◌>>=◌, map_err,
}
use torrent_rust_cli.Common.Ints.{i64_to_u64}
use torrent_rust_cli.Common.Utf8.{from_utf8_lossy}
use torrent_rust_cli.Common.Texts.{codes}
use torrent_rust_cli.Bencode.Value.{
  Bencode, Items, Dict, byte_string, list, dict, nil, cons, contains_key,
}
use torrent_rust_cli.Bencode.Decode.{decode}
use torrent_rust_cli.Bencode.InfoSlice.{find_info_dict_slice}
use torrent_rust_cli.Meta.Types.{
  MetaError, bencode_error, missing_field, invalid_type, missing_info_slice, invalid_pieces_length,
  TorrentFile, FileMode, single, multi, InfoDict, TorrentMeta,
}
use torrent_rust_cli.Meta.Fields.{get_field, get_bytes, get_int, get_string, get_announce_list}

-- `match value { Bencode::Dict(d) => d, _ => return Err(…) }`, and so for lists.
unfoldable pub as_dict : Bytes → Bencode → Outcome MetaError Dict
as_dict what (dict d) = ok d
as_dict what _ = err (invalid_type what)

unfoldable pub as_list : Bytes → Bencode → Outcome MetaError Items
as_list what (list xs) = ok xs
as_list what _ = err (invalid_type what)

-- `chunks_exact(n)`; each round takes n bytes, so the length is enough fuel for 0 < n.
unfoldable pub chunks_exact : ℕ → ℕ → Bytes → List Bytes
chunks_exact zero n bs = []
chunks_exact (suc f) n bs =
    let rest = chunks_exact f n (drop n bs) in if ltb (length bs) n then [] else take n bs ∷ rest

unfoldable pub segment : Bencode → Outcome MetaError Bytes
segment (byte_string s) = ok (from_utf8_lossy s)
segment _ = err (invalid_type (codes "path segment"))

unfoldable pub read_path : Items → Outcome MetaError (List Bytes)
unfolding segment
read_path nil = ok []
read_path (cons v xs) = segment v >>= λ s. read_path xs >>= λ rest. ok (s ∷ rest)

unfoldable pub read_file : Bencode → Outcome MetaError TorrentFile
unfolding as_dict as_list
read_file v = as_dict (codes "file item") v >>= λ d. get_int d (codes "length") >>= λ n.
    get_field d (codes "path") >>= λ p. as_list (codes "path") p >>= λ xs.
    read_path xs >>= λ path. ok (record { length = i64_to_u64 n; path = path })

unfoldable pub read_files : Items → Outcome MetaError (List TorrentFile)
read_files nil = ok []
read_files (cons v xs) = read_file v >>= λ f. read_files xs >>= λ rest. ok (f ∷ rest)

unfoldable pub read_mode : Dict → Outcome MetaError FileMode
unfolding as_list
read_mode d =
    if contains_key (codes "length") d
    then (get_int d (codes "length") >>= λ n. ok (single (i64_to_u64 n)))
    else if contains_key (codes "files") d
    then (get_field d (codes "files") >>= λ v.
        as_list (codes "files") v >>= λ xs. read_files xs >>= λ files. ok (multi files))
    else err (missing_field (codes "length or files"))

unfoldable pub read_pieces : Bytes → Outcome MetaError (List Bytes)
unfolding chunks_exact
read_pieces bs =
    if length bs % 20 == 0
    then ok (chunks_exact (length bs) 20 bs)
    else err (invalid_pieces_length (length bs))

unfoldable pub read_info : Dict → Outcome MetaError InfoDict
read_info d = get_string d (codes "name") >>= λ name.
    get_int d (codes "piece length") >>= λ piece_length. get_bytes d (codes "pieces") >>= λ bs.
    read_pieces bs >>= λ pieces. read_mode d >>= λ mode.
    ok
      (record { name = name; piece_length = i64_to_u64 piece_length; pieces = pieces; mode = mode })

module _ (sha1 : Bytes → Bytes) where
  unfoldable pub hash_info : Bytes → Outcome MetaError Bytes
  hash_info bytes = map_err bencode_error (find_info_dict_slice bytes) >>= λ found. elim found [
    | none ↦ err missing_info_slice
    | some slice ↦ ok (sha1 slice)
  ]

  unfoldable pub from_bytes : Bytes → Outcome MetaError TorrentMeta
  unfolding as_dict
  from_bytes bytes = map_err bencode_error (decode bytes) >>= λ root.
      as_dict (codes "root") root >>= λ d. get_string d (codes "announce") >>= λ announce.
      get_field d (codes "info") >>= λ v. as_dict (codes "info") v >>= λ info.
      read_info info >>= λ info_dict. hash_info bytes >>= λ info_hash. ok (record {
        announce = announce;
        announce_list = get_announce_list d;
        info = info_dict;
        info_hash = info_hash;
      })
