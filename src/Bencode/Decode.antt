-- ===== src/Bencode/Decode.antt =====
-- crates/core/src/bencode.rs: `Bencode::decode` and `decode_inner`. The place that `offset` holds in
-- `bytes` is given by its number and by the bytes from there on. A usize has 64 bits.
use torrent_rust_cli.Common.{
  ℕ, zero, suc, ◌+◌, ◌*◌, ◌^◌, [], ◌∷◌, none, some, Bytes, length, take, drop, ltb, ◌==◌,
  if◌then◌else◌, Outcome, ok, err, panic, out_of_fuel, ◌>>=◌,
}
use torrent_rust_cli.Common.Decimal.{is_digit, parse_i64, parse_usize}
use torrent_rust_cli.Common.Utf8.{is_utf8}
use torrent_rust_cli.Bencode.Value.{
  BencodeError, unexpected_eof, invalid_char, invalid_integer, invalid_length, utf8_error, Bencode,
  Items, Dict, int, byte_string, list, dict, nil, cons, empty, insert,
}

-- A result with the new offset and the bytes that are left there.
abbrev pub Decoded {ℓ} : Type ℓ → Type ℓ
Decoded A = Outcome BencodeError (A × ℕ × Bytes)

-- `while offset < bytes.len() && bytes[offset] != stop { offset += 1 }`: the bytes passed over, and
-- those that are left.
unfoldable pub scan_to : ℕ → Bytes → Bytes × Bytes
scan_to stop [] = ([], [])
scan_to stop (b ∷ bs) =
    let (front, back) = scan_to stop bs in if b == stop then ([], b ∷ bs) else (b ∷ front, back)

unfoldable pub read_int : ℕ → Bytes → Bytes → Decoded Bencode
read_int start text [] = err unexpected_eof
read_int start text (e ∷ after) =
    if is_utf8 text
    then elim (parse_i64 text) [
      | none ↦ err invalid_integer
      | some i ↦ ok (int i, start + length text + 1, after)
    ]
    else err utf8_error

-- `offset + len` overflows, or the slice that ends there has its start behind its end: a panic
-- either way.
unfoldable pub take_string : ℕ → ℕ → Bytes → Decoded Bencode
take_string start len after =
    if ltb (start + len) (2 ^ 64)
    then if ltb (length after) len
      then err unexpected_eof
      else ok (byte_string (take len after), start + len, drop len after)
    else panic

unfoldable pub read_string : ℕ → Bytes → Bytes → Decoded Bencode
read_string start text [] = err unexpected_eof
read_string start text (colon ∷ after) =
    if is_utf8 text
    then elim (parse_usize text) [
      | none ↦ err invalid_length
      | some len ↦ take_string (start + length text + 1) len after
    ]
    else err utf8_error

-- The error for a key that is no string names the byte at the offset, which may be past the end.
unfoldable pub key_error : Bytes → Outcome BencodeError Bytes
key_error [] = panic
key_error (b ∷ bs) = err (invalid_char b)

unfoldable pub key_of : Bencode → Bytes → Outcome BencodeError Bytes
key_of (byte_string s) left = ok s
key_of _ left = key_error left

-- `decode_items` and `decode_entries` are the loops of the `l` and `d` arms.
unfoldable mutual
  pub decode_inner : ℕ → ℕ → Bytes → Decoded Bencode
  decode_inner zero o bs = out_of_fuel
  decode_inner (suc f) o [] = err unexpected_eof
  decode_inner (suc f) o (b ∷ bs) =
      let items = decode_items f (o + 1) bs >>= λ (xs, o', r). ok (list xs, o', r) in
      let entries = decode_entries f (o + 1) bs empty >>= λ (d, o', r). ok (dict d, o', r) in
      if b == b'i'
      then (let (text, left) = scan_to b'e' bs in read_int (o + 1) text left)
      else if b == b'l'
      then items
      else if b == b'd'
      then entries
      else if is_digit b
      then (let (text, left) = scan_to b':' (b ∷ bs) in read_string o text left)
      else err (invalid_char b)

  pub decode_items : ℕ → ℕ → Bytes → Decoded Items
  decode_items zero o bs = out_of_fuel
  decode_items (suc f) o [] = err unexpected_eof
  decode_items (suc f) o (b ∷ bs) =
      let more = decode_inner f o (b ∷ bs) >>= λ (v, o₁, r₁).
      decode_items f o₁ r₁ >>= λ (xs, o₂, r₂). ok (cons v xs, o₂, r₂) in
      if b == b'e' then ok (nil, o + 1, bs) else more

  pub decode_entries : ℕ → ℕ → Bytes → Dict → Decoded Dict
  decode_entries zero o bs d = out_of_fuel
  decode_entries (suc f) o [] d = err unexpected_eof
  decode_entries (suc f) o (b ∷ bs) d =
      let more = decode_inner f o (b ∷ bs) >>= λ (j, o₁, r₁). key_of j r₁ >>= λ k.
      decode_inner f o₁ r₁ >>= λ (v, o₂, r₂). decode_entries f o₂ r₂ (insert k v d) in
      if b == b'e' then ok (d, o + 1, bs) else more

-- A call spends one unit of fuel, and two calls at most are made for each byte.
abbrev pub fuel_for : Bytes → ℕ
fuel_for bs = 2 * length bs + 1

unfoldable pub decode : Bytes → Outcome BencodeError Bencode
decode bs = decode_inner (fuel_for bs) 0 bs >>= λ (v, o, left). ok v
