-- ===== src/Magnet/Link.antt =====
-- crates/core/src/magnet.rs: `MagnetLink` and `MagnetLink::parse`.
use torrent_rust_cli.Common.{
  ℕ, [], ◌∷◌, ◌++◌, List, Option, none, some, Bytes, length, ◌==◌, if◌then◌else◌, ok, err, Outcome,
}
use torrent_rust_cli.Magnet.Hex.{decode_hex}
use torrent_rust_cli.Magnet.UrlDecode.{MagnetError, invalid_prefix, missing_xt, url_decode}

pub record MagnetLink : Type 0 where
  pub info_hash : Bytes
  pub trackers : List Bytes
  pub name : Option Bytes

-- b"magnet:?", b"xt=", b"urn:btih:", b"tr=" and b"dn="
abbrev pub magnet_prefix : Bytes
magnet_prefix = b'm' ∷ b'a' ∷ b'g' ∷ b'n' ∷ b'e' ∷ b't' ∷ b':' ∷ b'?' ∷ []

abbrev pub xt_prefix : Bytes
xt_prefix = b'x' ∷ b't' ∷ b'=' ∷ []

abbrev pub btih_prefix : Bytes
btih_prefix = b'u' ∷ b'r' ∷ b'n' ∷ b':' ∷ b'b' ∷ b't' ∷ b'i' ∷ b'h' ∷ b':' ∷ []

abbrev pub tr_prefix : Bytes
tr_prefix = b't' ∷ b'r' ∷ b'=' ∷ []

abbrev pub dn_prefix : Bytes
dn_prefix = b'd' ∷ b'n' ∷ b'=' ∷ []

-- `strip_prefix`
unfoldable pub strip_prefix : Bytes → Bytes → Option Bytes
strip_prefix [] s = some s
strip_prefix (p ∷ ps) [] = none
strip_prefix (p ∷ ps) (c ∷ s) = let rest = strip_prefix ps s in if p == c then rest else none

-- `split('&')`: one piece at least.
abbrev onto_first : ℕ → List Bytes → List Bytes
onto_first c [] = (c ∷ []) ∷ []
onto_first c (x ∷ xs) = (c ∷ x) ∷ xs

unfoldable pub split_on : ℕ → Bytes → List Bytes
split_on sep [] = [] ∷ []
split_on sep (c ∷ s) =
    let rest = split_on sep s in if c == sep then [] ∷ rest else onto_first c rest

-- What the loop over the pairs has found.
pub record Found : Type 0 where
  pub hash : Option Bytes
  pub urls : List Bytes
  pub title : Option Bytes

unfoldable pub take_hash : Bytes → Found → Found
take_hash xt found = elim (strip_prefix btih_prefix xt) [
  | none ↦ found
  | some hex ↦
      if length hex == 40
      then elim (decode_hex 20 hex) [
        | none ↦ found
        | some bytes ↦ record found { hash = some bytes }
      ]
      else found
]

unfoldable pub take_tracker : Bytes → Found → Found
take_tracker tr found = elim (url_decode tr) [
  | ok url ↦ record found { urls = found.urls ++ (url ∷ []) }
  | _ ↦ found
]

unfoldable pub take_name : Bytes → Found → Found
take_name dn found = elim (url_decode dn) [
  | ok name ↦ record found { title = some name }
  | _ ↦ found
]

-- One round of the loop.
unfoldable pub take_pair : Bytes → Found → Found
take_pair pair found = elim (strip_prefix xt_prefix pair) [
  | some xt ↦ take_hash xt found
  | none ↦ elim (strip_prefix tr_prefix pair) [
    | some tr ↦ take_tracker tr found
    | none ↦ elim (strip_prefix dn_prefix pair) [ some dn ↦ take_name dn found | none ↦ found ]
  ]
]

unfoldable pub take_pairs : List Bytes → Found → Found
take_pairs [] found = found
take_pairs (p ∷ ps) found = take_pairs ps (take_pair p found)

abbrev pub nothing_found : Found
nothing_found = record { hash = none; urls = []; title = none }

unfoldable pub link_of : Found → Outcome MagnetError MagnetLink
link_of found = elim found.hash [
  | none ↦ err missing_xt
  | some h ↦ ok (record { info_hash = h; trackers = found.urls; name = found.title })
]

unfoldable pub parse : Bytes → Outcome MagnetError MagnetLink
parse url = elim (strip_prefix magnet_prefix url) [
  | none ↦ err invalid_prefix
  | some query ↦ link_of (take_pairs (split_on b'&' query) nothing_found)
]
