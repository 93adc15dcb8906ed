-- ===== src/Metadata/Restored.antt =====
-- The file that `fetch_metadata` of crates/daemon/src/magnet_worker.rs leaves in the cache, as `TorrentMeta::from_bytes` reads it.
use torrent_rust_cli.Common.{
  ◌^◌, ◌<◌, ◌≡◌, refl, sym, ap, ◌∙◌, List, [], ◌∷◌, none, Bytes, true, length, All, Outcome, ok,
  err, ◌>>=◌, bind-ok,
}
use torrent_rust_cli.Common.Texts.{codes}
use torrent_rust_cli.Common.Utf8.{from_utf8_lossy_of_valid, is_utf8}
use torrent_rust_cli.Bencode.Value.{
  Bencode, Dict, byte_string, dict, empty, insert, get, compare_bytes, IsWellFormed,
}
use torrent_rust_cli.Bencode.Encode.{encode}
use torrent_rust_cli.Bencode.RoundTrip.{decode-encode}
use torrent_rust_cli.Bencode.InfoSlice.{find_info_dict_slice-encode}
use torrent_rust_cli.Meta.Types.{TorrentMeta, InfoDict, MetaError, missing_field}
use torrent_rust_cli.Meta.Fields.{get_field, get_bytes, get_string, get_announce_list}
use torrent_rust_cli.Meta.Parse.{as_dict, read_info, hash_info, from_bytes}
use torrent_rust_cli.Metadata.Exchange.{synthetic_bytes}
use torrent_rust_cli.Metadata.Cache.{cached_bytes, cached_root, from_bytes_cached_bare}

-- The file with an announce and an info dictionary.
unfoldable announced_root : Bytes → Bencode → Dict
announced_root a v = insert (codes "announce") (byte_string a) (insert (codes "info") v empty)

module _ (sha1 : Bytes → Bytes) where
  unfoldable announced_meta : Bytes → Bencode → InfoDict → Outcome MetaError TorrentMeta
  announced_meta a v info =
      ok (record { announce = a; announce_list = none; info = info; info_hash = sha1 (encode v) })

  unfoldable read_announced : Bytes → Bencode → Outcome MetaError TorrentMeta
  unfolding announced_meta
  read_announced a v =
      as_dict (codes "info") v >>= λ d. read_info d >>= λ info. announced_meta a v info

  from_bytes-announced_root :
      (a : Bytes) (v : Bencode)
      → is_utf8 a ≡ true
      → IsWellFormed v
      → length (encode (dict (announced_root a v))) < 2 ^ 64
      → from_bytes sha1 (encode (dict (announced_root a v))) ≡ read_announced a v
  unfolding announced_root read_announced announced_meta insert get compare_bytes from_bytes as_dict
      get_string get_bytes get_field get_announce_list hash_info
  from_bytes-announced_root a v u w l =
      let root = announced_root a v in
      let good : IsWellFormed (dict root) = (((refl, tt), (tt, tt)), (tt, (w, tt))) in
      rw
        (
          decode-encode (dict root) good l,
          find_info_dict_slice-encode root good l,
          from_utf8_lossy_of_valid a u,
        )
        refl

  read_announced_other :
      (a t : Bytes) (v : Bencode) (meta : TorrentMeta)
      → read_announced a v ≡ ok meta
      → read_announced t v ≡ ok (record meta { announce = t })
  unfolding read_announced announced_meta
  read_announced_other a t v meta e =
      let (d, e₁, rest) = bind-ok (as_dict (codes "info") v) _ meta e in
      let (info, e₂, last) = bind-ok (read_info d) _ meta rest in
      let made : TorrentMeta = record {
        announce = a;
        announce_list = none;
        info = info;
        info_hash = sha1 (encode v);
      } in
      let whole : made ≡ meta = cc in
      rw (e₁, e₂) (ap (λ (m : TorrentMeta). ok (record m { announce = t })) whole)

  from_bytes_cached_trackers :
      (t : Bytes) (ts : List Bytes) (info_dict : Bencode) (meta : TorrentMeta)
      → is_utf8 t ≡ true
      → IsWellFormed info_dict
      → length (synthetic_bytes info_dict) < 2 ^ 64
      → length (cached_bytes (t ∷ ts) info_dict) < 2 ^ 64
      → from_bytes sha1 (synthetic_bytes info_dict) ≡ ok meta
      → from_bytes sha1 (cached_bytes (t ∷ ts) info_dict) ≡ ok (record meta { announce = t })
  unfolding synthetic_bytes cached_bytes cached_root announced_root is_utf8
  from_bytes_cached_trackers t ts v meta u w l k e =
      from_bytes-announced_root t v u w k
      ∙ read_announced_other [] t v meta (sym (from_bytes-announced_root [] v refl w l) ∙ e)

  -- What a restart reads: the torrent with the first of the trackers, or an error.
  unfoldable pub restored_of : List Bytes → TorrentMeta → Outcome MetaError TorrentMeta
  restored_of [] meta = err (missing_field (codes "announce"))
  restored_of (t ∷ ts) meta = ok (record meta { announce = t })

  -- The file that is cached for a link is read back, on a restart or when the link is added again, as the
  -- torrent that was taken from the peer, with its info hash and with the first of the trackers only; for
  -- a link without trackers it is refused, since it has no announce. The trackers are UTF-8, the info
  -- dictionary is well formed, and both prints are short of 2 ^ 64 bytes.
  pub from_bytes-cached_bytes :
      (trackers : List Bytes) (info_dict : Bencode) (meta : TorrentMeta)
      → All (λ t. is_utf8 t ≡ true) trackers
      → IsWellFormed info_dict
      → length (synthetic_bytes info_dict) < 2 ^ 64
      → length (cached_bytes trackers info_dict) < 2 ^ 64
      → from_bytes sha1 (synthetic_bytes info_dict) ≡ ok meta
      → from_bytes sha1 (cached_bytes trackers info_dict) ≡ restored_of trackers meta
  unfolding restored_of
  from_bytes-cached_bytes [] v meta us w l k e = from_bytes_cached_bare sha1 v w k
  from_bytes-cached_bytes (t ∷ ts) v meta us w l k e =
      from_bytes_cached_trackers t ts v meta us.0 w l k e
