-- ===== src/Meta/Lists.antt =====
-- The lists inside a torrent file (crates/core/src/meta.rs): paths, files and tiers of trackers, printed
-- and read back.
use torrent_rust_cli.Common.{
  ◌^◌, ◌<◌, ◌≡◌, ◌≢◌, refl, ap₂, ◌∙◌, true, [], ◌∷◌, List, some, Bytes, All, ok,
}
use torrent_rust_cli.Common.Ints.{i64_to_u64-u64_to_i64, u64_to_i64-IsI64}
use torrent_rust_cli.Common.Utf8.{is_utf8, from_utf8_lossy_of_valid}
use torrent_rust_cli.Bencode.Value.{dict, get, insert, compare_bytes, IsWellFormed, AllWellFormed}
use torrent_rust_cli.Meta.Types.{TorrentFile}
use torrent_rust_cli.Meta.Fields.{get_int, tier_strings, tiers, push_tier, nonempty_tiers}
use torrent_rust_cli.Meta.Parse.{read_path, read_file, read_files}
use torrent_rust_cli.Meta.Print.{string_items, file_dict, file_items, tier_items}

abbrev pub IsText : Bytes → Type 0
IsText s = is_utf8 s ≡ true

pub record IsValidFile (f : TorrentFile) : Type 0 where
  pub length_u64 : f.length < 2 ^ 64
  pub path_texts : All IsText f.path

pub string_items-AllWellFormed : (ss : List Bytes) → AllWellFormed (string_items ss)
unfolding string_items
string_items-AllWellFormed [] = tt
string_items-AllWellFormed (s ∷ ss) = (tt, string_items-AllWellFormed ss)

read_path-string_items : (ss : List Bytes) → All IsText ss → read_path (string_items ss) ≡ ok ss
unfolding read_path string_items
read_path-string_items [] h = refl
read_path-string_items (s ∷ ss) h =
    rw (from_utf8_lossy_of_valid s h.0, read_path-string_items ss h.1)

read_file-file_dict : (f : TorrentFile) → IsValidFile f → read_file (dict (file_dict f)) ≡ ok f
unfolding read_file file_dict get insert compare_bytes get_int
read_file-file_dict f h =
    rw (read_path-string_items f.path h.path_texts, i64_to_u64-u64_to_i64 f.length h.length_u64)

pub read_files-file_items :
    (fs : List TorrentFile) → All IsValidFile fs → read_files (file_items fs) ≡ ok fs
unfolding read_files file_items
read_files-file_items [] h = refl
read_files-file_items (f ∷ fs) h = rw (read_file-file_dict f h.0, read_files-file_items fs h.1)

file_dict-IsWellFormed : (f : TorrentFile) → IsValidFile f → IsWellFormed (dict (file_dict f))
unfolding file_dict insert compare_bytes
file_dict-IsWellFormed f h = (
  ((refl, tt), (tt, tt)),
  (u64_to_i64-IsI64 f.length h.length_u64, (string_items-AllWellFormed f.path, tt)),
)

pub file_items-AllWellFormed :
    (fs : List TorrentFile) → All IsValidFile fs → AllWellFormed (file_items fs)
unfolding file_items
file_items-AllWellFormed [] h = tt
file_items-AllWellFormed (f ∷ fs) h =
    (file_dict-IsWellFormed f h.0, file_items-AllWellFormed fs h.1)

-- A tier of trackers that the parser keeps.
pub record IsValidTier (t : List Bytes) : Type 0 where
  pub texts : All IsText t
  pub nonempty : t ≢ []

tier_strings-string_items : (ss : List Bytes) → All IsText ss → tier_strings (string_items ss) ≡ ss
unfolding tier_strings string_items
tier_strings-string_items [] h = refl
tier_strings-string_items (s ∷ ss) h =
    ap₂ (λ a b. a ∷ b) (from_utf8_lossy_of_valid s h.0) (tier_strings-string_items ss h.1)

push_tier_nonempty : (t : List Bytes) (ts : List (List Bytes)) → t ≢ [] → push_tier t ts ≡ t ∷ ts
unfolding push_tier
push_tier_nonempty [] ts h = absurd (h refl)
push_tier_nonempty (u ∷ us) ts h = refl

pub tiers-tier_items : (ts : List (List Bytes)) → All IsValidTier ts → tiers (tier_items ts) ≡ ts
unfolding tiers tier_items
tiers-tier_items [] h = refl
tiers-tier_items (t ∷ ts) h =
    ap₂ push_tier (tier_strings-string_items t h.0.texts) (tiers-tier_items ts h.1)
    ∙ push_tier_nonempty t ts h.0.nonempty

pub tier_items-AllWellFormed : (ts : List (List Bytes)) → AllWellFormed (tier_items ts)
unfolding tier_items
tier_items-AllWellFormed [] = tt
tier_items-AllWellFormed (t ∷ ts) = (string_items-AllWellFormed t, tier_items-AllWellFormed ts)

pub nonempty_tiers_of : (ts : List (List Bytes)) → ts ≢ [] → nonempty_tiers ts ≡ some ts
unfolding nonempty_tiers
nonempty_tiers_of [] h = absurd (h refl)
nonempty_tiers_of (t ∷ ts) h = refl
