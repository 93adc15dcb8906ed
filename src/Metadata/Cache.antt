-- ===== src/Metadata/Cache.antt =====
-- The file that `fetch_metadata` of crates/daemon/src/magnet_worker.rs leaves in the cache.
use torrent_rust_cli.Common.{◌^◌, ◌<◌, ◌≡◌, refl, List, [], ◌∷◌, some, Bytes, length, err}
use torrent_rust_cli.Common.Texts.{codes}
use torrent_rust_cli.Common.Utf8.{from_utf8_lossy, is_utf8}
use torrent_rust_cli.Bencode.Value.{
  Bencode, Dict, byte_string, dict, empty, insert, get, compare_bytes, IsWellFormed,
}
use torrent_rust_cli.Bencode.Encode.{encode}
use torrent_rust_cli.Bencode.RoundTrip.{decode-encode}
use torrent_rust_cli.Meta.Types.{TorrentMeta, missing_field}
use torrent_rust_cli.Meta.Fields.{get_field, get_bytes, get_string}
use torrent_rust_cli.Meta.Parse.{as_dict, from_bytes}

-- The first of the trackers is the announce, where there is one.
unfoldable pub cached_root : List Bytes → Bencode → Dict
cached_root [] info_dict = insert (codes "info") info_dict empty
cached_root (t ∷ ts) info_dict =
    insert (codes "announce") (byte_string t) (insert (codes "info") info_dict empty)

unfoldable pub cached_bytes : List Bytes → Bencode → Bytes
unfolding cached_root
cached_bytes trackers info_dict = encode (dict (cached_root trackers info_dict))

-- The metadata that is kept of what the peer sent.
unfoldable pub with_trackers : List Bytes → TorrentMeta → TorrentMeta
with_trackers [] meta = meta
with_trackers (t ∷ ts) meta = record meta { announce = t; announce_list = some ((t ∷ ts) ∷ []) }

pub from_bytes_cached_bare :
    (sha1 : Bytes → Bytes) (info_dict : Bencode)
    → IsWellFormed info_dict
    → length (cached_bytes [] info_dict) < 2 ^ 64
    → from_bytes sha1 (cached_bytes [] info_dict) ≡ err (missing_field (codes "announce"))
unfolding cached_bytes cached_root insert get compare_bytes from_bytes as_dict get_string get_bytes
    get_field from_utf8_lossy is_utf8
from_bytes_cached_bare sha1 info_dict w l =
    let root = dict (cached_root [] info_dict) in rw (decode-encode root ((tt, tt), (w, tt)) l) refl
