-- ===== src/Server/Text.antt =====
-- What crates/daemon/src/server.rs uses of `str`: `trim`, `to_lowercase` before a prefix, and the test
-- for a bare info hash.
use torrent_rust_cli.Common.{
  ℕ, zero, suc, ◌+◌, List, [], ◌∷◌, ◌++◌, map, Option, none, some, Bytes, length, Bool, true, false,
  ◌&&◌, ◌||◌, leb, ◌==◌, if◌then◌else◌,
}
use torrent_rust_cli.Magnet.Link.{strip_prefix, magnet_prefix}

-- The characters of the property White_Space in UTF-8.
abbrev spaces : List Bytes
spaces =
    (9 ∷ [])
    ∷ (10 ∷ [])
    ∷ (11 ∷ [])
    ∷ (12 ∷ [])
    ∷ (13 ∷ [])
    ∷ (32 ∷ [])
    ∷ (194 ∷ 133 ∷ [])
    ∷ (194 ∷ 160 ∷ [])
    ∷ (225 ∷ 154 ∷ 128 ∷ [])
    ∷ (226 ∷ 128 ∷ 128 ∷ [])
    ∷ (226 ∷ 128 ∷ 129 ∷ [])
    ∷ (226 ∷ 128 ∷ 130 ∷ [])
    ∷ (226 ∷ 128 ∷ 131 ∷ [])
    ∷ (226 ∷ 128 ∷ 132 ∷ [])
    ∷ (226 ∷ 128 ∷ 133 ∷ [])
    ∷ (226 ∷ 128 ∷ 134 ∷ [])
    ∷ (226 ∷ 128 ∷ 135 ∷ [])
    ∷ (226 ∷ 128 ∷ 136 ∷ [])
    ∷ (226 ∷ 128 ∷ 137 ∷ [])
    ∷ (226 ∷ 128 ∷ 138 ∷ [])
    ∷ (226 ∷ 128 ∷ 168 ∷ [])
    ∷ (226 ∷ 128 ∷ 169 ∷ [])
    ∷ (226 ∷ 128 ∷ 175 ∷ [])
    ∷ (226 ∷ 129 ∷ 159 ∷ [])
    ∷ (227 ∷ 128 ∷ 128 ∷ [])
    ∷ []

abbrev pub reverse : Bytes → Bytes
reverse [] = []
reverse (c ∷ s) = reverse s ++ (c ∷ [])

-- One of the characters off the front.
unfoldable pub strip_any : List Bytes → Bytes → Option Bytes
strip_any [] s = none
strip_any (p ∷ ps) s = elim (strip_prefix p s) [ some rest ↦ some rest | none ↦ strip_any ps s ]

-- All of them off the front. Each round takes a byte, so the length is enough fuel.
unfoldable pub strip_all : ℕ → List Bytes → Bytes → Bytes
strip_all zero ps s = s
strip_all (suc f) ps s = elim (strip_any ps s) [ none ↦ s | some rest ↦ strip_all f ps rest ]

unfoldable pub trim : Bytes → Bytes
unfolding strip_all
trim s =
    let front = strip_all (length s) spaces s in
    reverse (strip_all (length front) (map reverse spaces) (reverse front))

abbrev to_lower : ℕ → ℕ
to_lower c = if leb b'A' c && leb c b'Z' then c + 32 else c

unfoldable pub starts_with : Bytes → Bytes → Bool
starts_with p s = elim (strip_prefix p s) [ none ↦ false | some rest ↦ true ]

-- `s.to_lowercase().starts_with("magnet:?")`. No character but the ASCII letters has a lower case with a
-- letter of the prefix in it.
unfoldable pub is_magnet : Bytes → Bool
unfolding starts_with
is_magnet s = starts_with magnet_prefix (map to_lower s)

abbrev is_ascii_hexdigit : ℕ → Bool
is_ascii_hexdigit c =
    (leb b'0' c && leb c b'9') || ((leb b'a' c && leb c b'f') || (leb b'A' c && leb c b'F'))

unfoldable pub all_hex : Bytes → Bool
all_hex [] = true
all_hex (c ∷ s) = is_ascii_hexdigit c && all_hex s

unfoldable pub is_bare_hash : Bytes → Bool
unfolding all_hex
is_bare_hash s = length s == 40 && all_hex s
