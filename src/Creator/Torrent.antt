-- ===== src/Creator/Torrent.antt =====
-- `create_torrent` of crates/daemon/src/creator.rs. What is on disk is a parameter: the length and the
-- reads of each file, the files of a directory in the order of their paths.
use torrent_rust_cli.Common.{
  concat, ℕ, ◌^◌, ◌<◌, ◌≡◌, refl, ap, subst, ◌∙◌, [], ◌∷◌, ◌++◌, List, map, Option, none, some,
  Bytes, length, All, ok, arith,
}
use torrent_rust_cli.Common.Texts.{codes}
use torrent_rust_cli.Common.Utf8.{is_utf8}
use torrent_rust_cli.Bencode.Encode.{encode}
use torrent_rust_cli.Meta.Types.{TorrentMeta, InfoDict, TorrentFile, FileMode, single, multi}
use torrent_rust_cli.Meta.Print.{info_to_bencode, into_bytes}
use torrent_rust_cli.Meta.Parse.{from_bytes}
use torrent_rust_cli.Meta.Pieces.{IsHash}
use torrent_rust_cli.Meta.Lists.{IsText, IsValidTier}
use torrent_rust_cli.Meta.RoundTrip.{IsValidMode, IsValidTiers, from_bytes-into_bytes}
use torrent_rust_cli.Creator.Pieces.{
  default_piece_length, hash_reads, finish, nothing_hashed, pieces_of,
}
use torrent_rust_cli.Creator.Reads.{finish-hash_reads}

-- A file under its directory: the components of its path, its length and what its reads bring.
pub record FileRead : Type 0 where
  pub path : List Bytes
  pub size : ℕ
  pub reads : List Bytes

pub data Source : Type 0 where
  file : ℕ → List Bytes → Source
  directory : List FileRead → Source

unfoldable pub all_reads : List FileRead → List Bytes
all_reads [] = []
all_reads (f ∷ fs) = f.reads ++ all_reads fs

unfoldable pub torrent_files : List FileRead → List TorrentFile
torrent_files [] = []
torrent_files (f ∷ fs) = record { length = f.size; path = f.path } ∷ torrent_files fs

unfoldable pub reads_of : Source → List Bytes
reads_of (file size reads) = reads
reads_of (directory files) = all_reads files

unfoldable pub mode_of : Source → FileMode
mode_of (file size reads) = single size
mode_of (directory files) = multi (torrent_files files)

unfoldable pub announce_of : List Bytes → Bytes
announce_of [] = codes "udp://tracker.opentrackr.org:1337/announce"
announce_of (t ∷ ts) = t

-- A tier for each tracker, where there are several.
unfoldable pub announce_list_of : List Bytes → Option (List (List Bytes))
announce_list_of [] = none
announce_list_of (t ∷ []) = none
announce_list_of (t ∷ u ∷ ts) = some (map (λ v. v ∷ []) (t ∷ u ∷ ts))

module _ (sha1 : Bytes → Bytes) (name : Bytes) (source : Source) (trackers : List Bytes) where
  abbrev pub info_with : List Bytes → InfoDict
  info_with pieces = record {
    name = name;
    piece_length = default_piece_length;
    pieces = pieces;
    mode = mode_of source;
  }

  abbrev pub meta_with : List Bytes → TorrentMeta
  meta_with pieces = record {
    announce = announce_of trackers;
    announce_list = announce_list_of trackers;
    info = info_with pieces;
    info_hash = sha1 (encode (info_to_bencode (info_with pieces)));
  }

  unfoldable pub created : TorrentMeta
  created = meta_with (
      finish sha1 default_piece_length
        (hash_reads sha1 default_piece_length (reads_of source) nothing_hashed))

  unfoldable pub create_torrent : Bytes
  create_torrent = into_bytes created

tiers-IsValidTier : (ts : List Bytes) → All IsText ts → All IsValidTier (map (λ v. v ∷ []) ts)
tiers-IsValidTier [] h = tt
tiers-IsValidTier (t ∷ ts) h =
    (record { texts = (h.0, tt); nonempty = λ e. cc }, tiers-IsValidTier ts h.1)

announce_list_of-IsValidTiers :
    (ts : List Bytes) → All IsText ts → IsValidTiers (announce_list_of ts)
unfolding announce_list_of
announce_list_of-IsValidTiers [] h = tt
announce_list_of-IsValidTiers (t ∷ []) h = tt
announce_list_of-IsValidTiers (t ∷ u ∷ ts) h = (tiers-IsValidTier (t ∷ u ∷ ts) h, λ e. cc)

announce_of-IsText : (ts : List Bytes) → All IsText ts → IsText (announce_of ts)
unfolding announce_of is_utf8
announce_of-IsText [] h = refl
announce_of-IsText (t ∷ ts) h = h.0

digests-IsHash :
    (sha1 : Bytes → Bytes) (bs : List Bytes)
    → ((b : Bytes) → length (sha1 b) ≡ 20)
    → All IsHash (map sha1 bs)
digests-IsHash sha1 [] h = tt
digests-IsHash sha1 (b ∷ bs) h = (h b, digests-IsHash sha1 bs h)

created_lem :
    (sha1 : Bytes → Bytes) (name : Bytes) (source : Source) (trackers : List Bytes)
    → created sha1 name source trackers
      ≡ meta_with sha1 name source trackers
          (map sha1 (pieces_of default_piece_length (concat (reads_of source))))
unfolding created
created_lem sha1 name source trackers =
    ap (meta_with sha1 name source trackers)
      (finish-hash_reads sha1 default_piece_length (omega arith) (reads_of source))

-- The torrent file that is created is read back as the metadata of what is on disk: the pieces are
-- the digests of the pieces of the files' bytes in their order, the length and the paths of the
-- files are those found, and the info hash is the one computed at the creation. This holds where
-- digests have 20 bytes, the names and trackers are UTF-8, the lengths fit a u64 and the torrent
-- file has fewer than 2 ^ 64 bytes.
pub from_bytes-create_torrent :
    (sha1 : Bytes → Bytes) (name : Bytes) (source : Source) (trackers : List Bytes)
    → ((b : Bytes) → length (sha1 b) ≡ 20)
    → IsText name
    → All IsText trackers
    → IsValidMode (mode_of source)
    → length (create_torrent sha1 name source trackers) < 2 ^ 64
    → from_bytes sha1 (create_torrent sha1 name source trackers)
      ≡ ok (
          meta_with sha1 name source trackers
            (map sha1 (pieces_of default_piece_length (concat (reads_of source)))))
unfolding create_torrent
from_bytes-create_torrent sha1 name source trackers digest named texts mode l =
    let pieces = map sha1 (pieces_of default_piece_length (concat (reads_of source))) in
    let e = created_lem sha1 name source trackers in
    ap (λ m. from_bytes sha1 (into_bytes m)) e
    ∙ from_bytes-into_bytes sha1 (meta_with sha1 name source trackers pieces)
        (record {
          announce_text = announce_of-IsText trackers texts;
          tiers_kept = announce_list_of-IsValidTiers trackers texts;
          name_text = named;
          piece_length_u64 = omega arith;
          hashes = digests-IsHash sha1 _ digest;
          mode_valid = mode;
        })
        (subst (λ m. length (into_bytes m) < 2 ^ 64) e l)
