-- ===== src/Meta/RoundTrip.antt =====
-- A torrent file that `into_bytes` wrote, read back by `from_bytes` (crates/core/src/meta.rs).
use torrent_rust_cli.Common.{
  ℕ, ◌^◌, ◌<◌, ◌≡◌, ◌≢◌, refl, [], List, Option, none, some, Bytes, length, All, ok,
}
use torrent_rust_cli.Common.Ints.{i64_to_u64-u64_to_i64, u64_to_i64-IsI64}
use torrent_rust_cli.Common.Utf8.{from_utf8_lossy_of_valid}
use torrent_rust_cli.Common.Texts.{codes}
use torrent_rust_cli.Bencode.Value.{dict, get, insert, contains_key, compare_bytes, IsWellFormed}
use torrent_rust_cli.Bencode.Encode.{encode}
use torrent_rust_cli.Bencode.RoundTrip.{decode-encode}
use torrent_rust_cli.Bencode.InfoSlice.{find_info_dict_slice-encode}
use torrent_rust_cli.Meta.Types.{FileMode, single, multi, InfoDict, TorrentMeta}
use torrent_rust_cli.Meta.Fields.{get_field, get_int, get_string, get_announce_list}
use torrent_rust_cli.Meta.Parse.{read_mode, read_info, hash_info, from_bytes}
use torrent_rust_cli.Meta.Print.{
  to_bencode_fields, info_to_dict, info_to_bencode, insert_announce_list, to_dict, to_bencode,
  into_bytes,
}
use torrent_rust_cli.Meta.Pieces.{IsHash, read_pieces-concat_pieces}
use torrent_rust_cli.Meta.Lists.{
  IsText, IsValidFile, IsValidTier, read_files-file_items, file_items-AllWellFormed,
  tiers-tier_items, tier_items-AllWellFormed, nonempty_tiers_of,
}

abbrev pub IsValidMode : FileMode → Type 0
IsValidMode (single n) = n < 2 ^ 64
IsValidMode (multi files) = All IsValidFile files

-- A list of tiers that the parser keeps as it is: tiers, and strings in each.
abbrev pub IsValidTiers : Option (List (List Bytes)) → Type 0
IsValidTiers none = Unit
IsValidTiers (some ts) = All IsValidTier ts × (ts ≢ [])

-- The texts are well-formed UTF-8, the lengths fit a u64, a hash has 20 bytes, and no tier is empty.
pub record IsValid (m : TorrentMeta) : Type 0 where
  pub announce_text : IsText m.announce
  pub tiers_kept : IsValidTiers m.announce_list
  pub name_text : IsText m.info.name
  pub piece_length_u64 : m.info.piece_length < 2 ^ 64
  pub hashes : All IsHash m.info.pieces
  pub mode_valid : IsValidMode m.info.mode

module _ (name : Bytes) (n : ℕ) (pieces : List Bytes) where
  abbrev info_of : FileMode → InfoDict
  info_of mode = record { name = name; piece_length = n; pieces = pieces; mode = mode }

  read_info_of :
      (mode : FileMode)
      → IsText name
      → n < 2 ^ 64
      → All IsHash pieces
      → IsValidMode mode
      → read_info (info_to_dict (info_of mode)) ≡ ok (info_of mode)
  unfolding read_info info_to_dict to_bencode_fields read_mode contains_key get insert compare_bytes
      get_int get_string
  read_info_of (single l) t h p m = rw (
    from_utf8_lossy_of_valid name t,
    read_pieces-concat_pieces pieces p,
    i64_to_u64-u64_to_i64 l m,
    i64_to_u64-u64_to_i64 n h,
  )
  read_info_of (multi files) t h p m = rw (
    from_utf8_lossy_of_valid name t,
    read_pieces-concat_pieces pieces p,
    read_files-file_items files m,
    i64_to_u64-u64_to_i64 n h,
  )

  info_IsWellFormed :
      (mode : FileMode)
      → n < 2 ^ 64
      → IsValidMode mode
      → IsWellFormed (dict (info_to_dict (info_of mode)))
  unfolding info_to_dict to_bencode_fields insert compare_bytes
  info_IsWellFormed (single l) h m = (
    ((refl, (refl, (refl, tt))), ((refl, (refl, tt)), ((refl, tt), (tt, tt)))),
    (u64_to_i64-IsI64 l m, (tt, (u64_to_i64-IsI64 n h, (tt, tt)))),
  )
  info_IsWellFormed (multi files) h m = (
    ((refl, (refl, (refl, tt))), ((refl, (refl, tt)), ((refl, tt), (tt, tt)))),
    (file_items-AllWellFormed files m, (tt, (u64_to_i64-IsI64 n h, (tt, tt)))),
  )

module _ (announce : Bytes) (info : InfoDict) (hash : Bytes) where
  abbrev meta_of : Option (List (List Bytes)) → TorrentMeta
  meta_of listed = record {
    announce = announce;
    announce_list = listed;
    info = info;
    info_hash = hash;
  }

  -- The fields of the dictionary that is written.
  fields_of :
      (listed : Option (List (List Bytes)))
      → IsText announce
      → IsValidTiers listed
      → (get_string (to_dict (meta_of listed)) (codes "announce") ≡ ok announce)
        × (get_field (to_dict (meta_of listed)) (codes "info") ≡ ok (dict (info_to_dict info)))
        × (get_announce_list (to_dict (meta_of listed)) ≡ listed)
        × (get (codes "info") (to_dict (meta_of listed)) ≡ some (dict (info_to_dict info)))
  unfolding to_dict insert_announce_list info_to_bencode get insert compare_bytes get_string
      get_announce_list
  fields_of none t k = (rw (from_utf8_lossy_of_valid announce t), refl, refl, refl)
  fields_of (some ts) t k = (
    rw (from_utf8_lossy_of_valid announce t),
    refl,
    rw (tiers-tier_items ts k.0) (nonempty_tiers_of ts k.1),
    refl,
  )

  to_dict-IsWellFormed :
      (listed : Option (List (List Bytes)))
      → IsWellFormed (dict (info_to_dict info))
      → IsWellFormed (to_bencode (meta_of listed))
  unfolding to_bencode to_dict insert_announce_list info_to_bencode insert compare_bytes
  to_dict-IsWellFormed none w = (((refl, tt), (tt, tt)), (tt, (w, tt)))
  to_dict-IsWellFormed (some ts) w =
      (((refl, (refl, tt)), ((refl, tt), (tt, tt))), (tt, (tier_items-AllWellFormed ts, (w, tt))))

module _ (sha1 : Bytes → Bytes) where
  -- A torrent file that was written is read back as it was, with the info hash computed anew as the
  -- digest of the printed info dictionary: for metadata whose texts are UTF-8, whose lengths fit a u64,
  -- whose hashes have 20 bytes and whose tiers are not empty, and a file below 2 ^ 64 bytes.
  pub from_bytes-into_bytes :
      (m : TorrentMeta)
      → IsValid m
      → length (into_bytes m) < 2 ^ 64
      → from_bytes sha1 (into_bytes m)
        ≡ ok (record m { info_hash = sha1 (encode (info_to_bencode m.info)) })
  unfolding from_bytes into_bytes hash_info to_bencode info_to_bencode
  from_bytes-into_bytes m v l =
      let info = m.info in
      let (a, i, t, g) =
        fields_of m.announce m.info m.info_hash m.announce_list v.announce_text v.tiers_kept in
      let w = to_dict-IsWellFormed m.announce m.info m.info_hash m.announce_list (
        info_IsWellFormed info.name info.piece_length info.pieces info.mode v.piece_length_u64
          v.mode_valid) in
      rw (
        decode-encode (to_bencode m) w l,
        a,
        i,
        read_info_of info.name info.piece_length info.pieces info.mode v.name_text
            v.piece_length_u64 v.hashes v.mode_valid,
        find_info_dict_slice-encode (to_dict m) w l,
        g,
        t,
      )
