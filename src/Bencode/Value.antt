-- ===== src/Bencode/Value.antt =====
-- crates/core/src/bencode.rs: the values and errors, and the ordered map of a dictionary with the
-- operations of `BTreeMap` that the program calls.
use torrent_rust_cli.Common.{
  ℕ, ◌≡◌, Bool, true, false, [], ◌∷◌, Option, none, some, Bytes, compare, Ordering,
}
use torrent_rust_cli.Common.Ints.{ℤ, IsI64}

pub data BencodeError : Type 0 where
  unexpected_eof : BencodeError
  invalid_char : ℕ → BencodeError
  invalid_integer invalid_length utf8_error : BencodeError

-- `Items` is the vector of a list, and `Dict` the map of a dictionary in the order of its keys.
mutual
  pub data Bencode : Type 0 where
    int : ℤ → Bencode
    byte_string : Bytes → Bencode
    list : Items → Bencode
    dict : Dict → Bencode

  pub data Items : Type 0 where
    nil : Items
    cons : Bencode → Items → Items

  pub data Dict : Type 0 where
    empty : Dict
    entry : Bytes → Bencode → Dict → Dict

-- The order of `Vec<u8>`: lexicographic.
unfoldable pub compare_bytes : Bytes → Bytes → Ordering
compare_bytes [] [] = Ordering.eq
compare_bytes [] (y ∷ ys) = Ordering.lt
compare_bytes (x ∷ xs) [] = Ordering.gt
compare_bytes (x ∷ xs) (y ∷ ys) =
    let rest = compare_bytes xs ys in
    elim (compare x y) [
      | Ordering.lt ↦ Ordering.lt
      | Ordering.gt ↦ Ordering.gt
      | Ordering.eq ↦ rest
    ]

-- `BTreeMap::insert`: the entry takes its place in the order, and replaces one of the same key.
unfoldable pub insert : Bytes → Bencode → Dict → Dict
insert k v empty = entry k v empty
insert k v (entry j w d) =
    let rest = insert k v d in
    elim (compare_bytes k j) [
      | Ordering.lt ↦ entry k v (entry j w d)
      | Ordering.eq ↦ entry k v d
      | Ordering.gt ↦ entry j w rest
    ]

-- `BTreeMap::get`
unfoldable pub get : Bytes → Dict → Option Bencode
get k empty = none
get k (entry j w d) =
    let rest = get k d in
    elim (compare_bytes k j) [ Ordering.lt ↦ rest | Ordering.eq ↦ some w | Ordering.gt ↦ rest ]

-- `BTreeMap::contains_key`
unfoldable pub contains_key : Bytes → Dict → Bool
contains_key k d = elim (get k d) [ none ↦ false | some v ↦ true ]

abbrev pub Before : Bytes → Bytes → Type 0
Before k j = compare_bytes k j ≡ Ordering.lt

-- Every key of the map comes after `k`.
abbrev pub AllAfter : Bytes → Dict → Type 0
AllAfter k empty = Unit
AllAfter k (entry j w d) = Before k j × AllAfter k d

abbrev pub IsSorted : Dict → Type 0
IsSorted empty = Unit
IsSorted (entry k v d) = AllAfter k d × IsSorted d

-- A value that the Rust type can hold: integers of i64, and maps in the order of their keys.
abbrev mutual
  pub IsWellFormed : Bencode → Type 0
  IsWellFormed (int i) = IsI64 i
  IsWellFormed (byte_string s) = Unit
  IsWellFormed (list xs) = AllWellFormed xs
  IsWellFormed (dict d) = IsSorted d × ValuesWellFormed d

  pub AllWellFormed : Items → Type 0
  AllWellFormed nil = Unit
  AllWellFormed (cons v xs) = IsWellFormed v × AllWellFormed xs

  pub ValuesWellFormed : Dict → Type 0
  ValuesWellFormed empty = Unit
  ValuesWellFormed (entry k v d) = IsWellFormed v × ValuesWellFormed d
