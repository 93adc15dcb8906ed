-- ===== src/Bencode/Encode.antt =====
-- crates/core/src/bencode.rs: `Bencode::encode` and `encode_inner`, as the bytes that the call
-- appends to its buffer.
use torrent_rust_cli.Common.{[], ◌∷◌, ◌++◌, Bytes, length}
use torrent_rust_cli.Common.Decimal.{print_nat, print_int}
use torrent_rust_cli.Bencode.Value.{
  Bencode, Items, Dict, int, byte_string, list, dict, nil, cons, empty, entry,
}

unfoldable pub encode_string : Bytes → Bytes
encode_string s = print_nat (length s) ++ (b':' ∷ s)

unfoldable mutual
  pub encode : Bencode → Bytes
  encode (int i) = b'i' ∷ (print_int i ++ (b'e' ∷ []))
  encode (byte_string s) = encode_string s
  encode (list xs) = b'l' ∷ (encode_items xs ++ (b'e' ∷ []))
  encode (dict d) = b'd' ∷ (encode_entries d ++ (b'e' ∷ []))

  pub encode_items : Items → Bytes
  encode_items nil = []
  encode_items (cons v xs) = encode v ++ encode_items xs

  pub encode_entries : Dict → Bytes
  encode_entries empty = []
  encode_entries (entry k v d) = encode_string k ++ (encode v ++ encode_entries d)
