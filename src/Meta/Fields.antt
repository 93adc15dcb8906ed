-- ===== src/Meta/Fields.antt =====
-- crates/core/src/meta.rs: the helpers that take values out of a dictionary.
use torrent_rust_cli.Common.{[], ◌∷◌, List, Option, none, some, Bytes, Outcome, ok, err, ◌>>=◌}
use torrent_rust_cli.Common.Ints.{ℤ}
use torrent_rust_cli.Common.Utf8.{from_utf8_lossy}
use torrent_rust_cli.Common.Texts.{codes}
use torrent_rust_cli.Bencode.Value.{Bencode, Items, Dict, int, byte_string, list, nil, cons, get}
use torrent_rust_cli.Meta.Types.{MetaError, missing_field, invalid_type}

unfoldable pub as_bytes : Bytes → Bencode → Outcome MetaError Bytes
as_bytes key (byte_string s) = ok s
as_bytes key _ = err (invalid_type (from_utf8_lossy key))

unfoldable pub as_int : Bytes → Bencode → Outcome MetaError ℤ
as_int key (int i) = ok i
as_int key _ = err (invalid_type (from_utf8_lossy key))

-- `dict.get(key).ok_or_else(…)?`
unfoldable pub get_field : Dict → Bytes → Outcome MetaError Bencode
get_field d key = elim (get key d) [
  | none ↦ err (missing_field (from_utf8_lossy key))
  | some v ↦ ok v
]

unfoldable pub get_bytes : Dict → Bytes → Outcome MetaError Bytes
unfolding as_bytes get_field
get_bytes d key = get_field d key >>= λ v. as_bytes key v

unfoldable pub get_int : Dict → Bytes → Outcome MetaError ℤ
unfolding as_int get_field
get_int d key = get_field d key >>= λ v. as_int key v

unfoldable pub get_string : Dict → Bytes → Outcome MetaError Bytes
unfolding get_bytes
get_string d key = get_bytes d key >>= λ s. ok (from_utf8_lossy s)

-- The strings of a tier; other values are passed over.
unfoldable pub tier_strings : Items → List Bytes
tier_strings nil = []
tier_strings (cons (byte_string s) xs) = from_utf8_lossy s ∷ tier_strings xs
tier_strings (cons _ xs) = tier_strings xs

-- `if !sub_result.is_empty() { result.push(sub_result); }`
unfoldable pub push_tier : List Bytes → List (List Bytes) → List (List Bytes)
push_tier [] ts = ts
push_tier (u ∷ us) ts = (u ∷ us) ∷ ts

unfoldable pub tiers : Items → List (List Bytes)
unfolding tier_strings push_tier
tiers nil = []
tiers (cons (list xs) rest) = push_tier (tier_strings xs) (tiers rest)
tiers (cons _ rest) = tiers rest

unfoldable pub nonempty_tiers : List (List Bytes) → Option (List (List Bytes))
nonempty_tiers [] = none
nonempty_tiers (t ∷ ts) = some (t ∷ ts)

unfoldable pub list_tiers : Bencode → Option (List (List Bytes))
unfolding tiers nonempty_tiers
list_tiers (list xs) = nonempty_tiers (tiers xs)
list_tiers _ = none

unfoldable pub get_announce_list : Dict → Option (List (List Bytes))
unfolding list_tiers
get_announce_list d = elim (get (codes "announce-list") d) [ none ↦ none | some v ↦ list_tiers v ]
