-- ===== src/Metadata/InfoHash.antt =====
-- The info hash of the metadata that `try_fetch_from_peer_static` of crates/daemon/src/magnet_worker.rs
-- gives back, which `TorrentMeta::from_bytes` computes anew from the dictionary as it is printed.
use torrent_rust_cli.Common.{
  ◌^◌, ◌<◌, ◌≡◌, refl, sym, ap, ◌∙◌, [], Bytes, length, ok, map_err, Yields, Yields-bind, Yields-ok,
  Yields-self,
}
use torrent_rust_cli.Common.Texts.{codes}
use torrent_rust_cli.Bencode.Value.{
  Bencode, byte_string, empty, insert, get, compare_bytes, IsWellFormed,
}
use torrent_rust_cli.Bencode.Encode.{encode}
use torrent_rust_cli.Bencode.Decode.{decode}
use torrent_rust_cli.Bencode.InfoSlice.{find_info_dict_slice-encode}
use torrent_rust_cli.Meta.Types.{TorrentMeta, bencode_error}
use torrent_rust_cli.Meta.Fields.{get_field, get_string}
use torrent_rust_cli.Meta.Parse.{as_dict, read_info, hash_info, from_bytes}
use torrent_rust_cli.Metadata.Exchange.{synthetic_bytes}
use torrent_rust_cli.Metadata.Verified.{IsAuthentic}

from_bytes-hash_info :
    (sha1 : Bytes → Bytes) (bs : Bytes)
    → Yields (λ meta. hash_info sha1 bs ≡ ok meta.info_hash) (from_bytes sha1 bs)
unfolding from_bytes
from_bytes-hash_info sha1 bs =
    let Q : TorrentMeta → Type 0 = λ meta. hash_info sha1 bs ≡ ok meta.info_hash in
    Yields-bind _ Q (map_err bencode_error (decode bs)) _ (Yields-self _) (λ root e₁.
      Yields-bind _ Q (as_dict (codes "root") root) _ (Yields-self _) (λ d e₂.
        Yields-bind _ Q (get_string d (codes "announce")) _ (Yields-self _) (λ announce e₃.
          Yields-bind _ Q (get_field d (codes "info")) _ (Yields-self _) (λ v e₄.
            Yields-bind _ Q (as_dict (codes "info") v) _ (Yields-self _) (λ info e₅.
              Yields-bind _ Q (read_info info) _ (Yields-self _) (λ info_dict e₆.
                Yields-bind _ Q (hash_info sha1 bs) _ (Yields-self _) (λ h e₇. e₇)))))))

hash_info-synthetic_bytes :
    (sha1 : Bytes → Bytes) (v : Bencode)
    → IsWellFormed v
    → length (synthetic_bytes v) < 2 ^ 64
    → hash_info sha1 (synthetic_bytes v) ≡ ok (sha1 (encode v))
unfolding hash_info synthetic_bytes insert get compare_bytes
hash_info-synthetic_bytes sha1 v w l =
    let d = insert (codes "announce") (byte_string []) (insert (codes "info") v empty) in
    rw (find_info_dict_slice-encode d (((refl, tt), (tt, tt)), (tt, (w, tt))) l) refl

-- Metadata that are taken from a peer are of the torrent that was asked for, where they are the print of
-- their dictionary, which is well formed, and short of 2 ^ 64 bytes with an announce.
pub IsAuthentic-info_hash :
    (sha1 : Bytes → Bytes) (info_hash : Bytes) (found : TorrentMeta × Bencode)
    (a : IsAuthentic sha1 info_hash found)
    → a.metadata_bytes ≡ encode found.1
    → IsWellFormed found.1
    → length (synthetic_bytes found.1) < 2 ^ 64
    → found.0.info_hash ≡ info_hash
IsAuthentic-info_hash sha1 info_hash found a canonical w l =
    let bs = synthetic_bytes found.1 in
    let hashed = Yields-ok _ (from_bytes sha1 bs) found.0 (from_bytes-hash_info sha1 bs) a.read in
    let same : ok (sha1 (encode found.1)) ≡ ok found.0.info_hash =
      sym (hash_info-synthetic_bytes sha1 found.1 w l) ∙ hashed in
    let digest : sha1 (encode found.1) ≡ found.0.info_hash = cc in
    sym digest ∙ ap sha1 (sym canonical) ∙ a.digest
