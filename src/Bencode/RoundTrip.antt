-- ===== src/Bencode/RoundTrip.antt =====
-- Encoding a bencoded value and decoding it again (crates/core/src/bencode.rs).
use torrent_rust_cli.Common.{
  ℕ, zero, suc, ◌+◌, ◌*◌, ◌^◌, ◌<◌, ◌≡◌, ◌≢◌, refl, ap, ◌∙◌, [], ◌∷◌, ◌++◌, append_assoc,
  append-nil, Bytes, length, lengths, arith, ok, ◌>>=◌, ne→==,
}
use torrent_rust_cli.Common.Decimal.{print_int, print_nat_head}
use torrent_rust_cli.Bencode.Value.{
  Bencode, Items, Dict, int, byte_string, list, dict, nil, cons, empty, entry, insert, IsWellFormed,
  AllWellFormed, ValuesWellFormed,
}
use torrent_rust_cli.Bencode.Decode.{
  Decoded, key_of, decode_inner, decode_items, decode_entries, decode, fuel_for,
}
use torrent_rust_cli.Bencode.Encode.{encode_string, encode, encode_items, encode_entries}
use torrent_rust_cli.Bencode.Scalars.{
  scan_to-append, print_int_ne, read_int-print_int, decode_inner-encode_string,
}
use torrent_rust_cli.Bencode.Merge.{insert_all, insert_all_of_sorted}

-- What the loops of the `l` and `d` arms do where no `e` stands.
abbrev next_item : ℕ → ℕ → Bytes → Decoded Items
next_item f o bs = decode_inner f o bs >>= λ (v, o₁, r₁).
    decode_items f o₁ r₁ >>= λ (xs, o₂, r₂). ok (cons v xs, o₂, r₂)

abbrev next_entry : ℕ → ℕ → Bytes → Dict → Decoded Dict
next_entry f o bs d = decode_inner f o bs >>= λ (j, o₁, r₁). key_of j r₁ >>= λ k.
    decode_inner f o₁ r₁ >>= λ (v, o₂, r₂). decode_entries f o₂ r₂ (insert k v d)

decode_items_next :
    (f o c : ℕ) (cs : Bytes) → c ≢ b'e' → decode_items (suc f) o (c ∷ cs) ≡ next_item f o (c ∷ cs)
unfolding decode_inner
decode_items_next f o c cs h = rw (ne→== c b'e' h)

decode_entries_next :
    (f o c : ℕ) (cs : Bytes) (d : Dict)
    → c ≢ b'e'
    → decode_entries (suc f) o (c ∷ cs) d ≡ next_entry f o (c ∷ cs) d
unfolding decode_inner
decode_entries_next f o c cs d h = rw (ne→== c b'e' h)

-- No print of a value begins with `e`.
pub encode_head : (v : Bencode) → (c : ℕ) × (cs : Bytes) × (encode v ≡ c ∷ cs) × (c ≢ b'e')
unfolding encode encode_string
encode_head (int i) = (b'i', _, refl, omega arith)
encode_head (byte_string s) =
    let (c, cs, e, d) = print_nat_head (length s) in (c, cs ++ (b':' ∷ s), rw e, omega arith)
encode_head (list xs) = (b'l', _, refl, omega arith)
encode_head (dict d) = (b'd', _, refl, omega arith)

decode_items-encode :
    (f o : ℕ) (v : Bencode) (after : Bytes)
    → decode_items (suc f) o (encode v ++ after) ≡ next_item f o (encode v ++ after)
decode_items-encode f o v after =
    let (c, cs, e, h) = encode_head v in rw e (decode_items_next f o c (cs ++ after) h)

decode_entries-encode :
    (f o : ℕ) (k after : Bytes) (d : Dict)
    → decode_entries (suc f) o (encode_string k ++ after) d
      ≡ next_entry f o (encode_string k ++ after) d
decode_entries-encode f o k after d =
    let (c, cs, e, h) = encode_head (byte_string k) in
    let e' : encode_string k ≡ c ∷ cs = unfold encode in e in
    rw e' (decode_entries_next f o c (cs ++ after) d h)

pub length-encode_pos : (v : Bencode) → 0 < length (encode v)
length-encode_pos v = let (c, cs, e, h) = encode_head v in rw e (omega arith)

mutual
  unfolding encode decode_inner insert_all key_of

  read_value :
      (v : Bencode) (f o o' : ℕ) (rest : Bytes)
      → IsWellFormed v
      → 2 * length (encode v) < f
      → o + length (encode v) ≡ o'
      → o' < 2 ^ 64
      → decode_inner f o (encode v ++ rest) ≡ ok (v, o', rest)
  read_value (int i) zero o o' rest w l e h = absurd (omega arith)
  read_value (int i) (suc f) o o' rest w l e h =
      rw
        (
          append_assoc (print_int i) (b'e' ∷ []) rest,
          scan_to-append b'e' (print_int i) rest (print_int_ne i),
        )
        (read_int-print_int (o + 1) i rest w ∙ ap (λ n. ok (int i, n, rest)) (omega lengths))
  read_value (byte_string s) zero o o' rest w l e h = absurd (omega arith)
  read_value (byte_string s) (suc f) o o' rest w l e h =
      decode_inner-encode_string f o o' s rest e h
  read_value (list xs) zero o o' rest w l e h = absurd (omega arith)
  read_value (list xs) (suc f) o o' rest w l e h = rw (
    append_assoc (encode_items xs) (b'e' ∷ []) rest,
    read_items xs f (o + 1) o' rest w (omega lengths) (omega lengths) h,
  )
  read_value (dict d) zero o o' rest w l e h = absurd (omega arith)
  read_value (dict d) (suc f) o o' rest w l e h = rw (
    append_assoc (encode_entries d) (b'e' ∷ []) rest,
    read_entries d empty f (o + 1) o' rest w.1 (omega lengths) (omega lengths) h,
    insert_all_of_sorted d w.0,
  )

  read_items :
      (xs : Items) (f o o' : ℕ) (rest : Bytes)
      → AllWellFormed xs
      → 2 * length (encode_items xs) + 1 < f
      → o + length (encode_items xs) + 1 ≡ o'
      → o' < 2 ^ 64
      → decode_items f o (encode_items xs ++ (b'e' ∷ rest)) ≡ ok (xs, o', rest)
  read_items nil zero o o' rest w l e h = absurd (omega arith)
  read_items nil (suc f) o o' rest w l e h = ap (λ n. ok (nil, n, rest)) (omega arith)
  read_items (cons v xs) zero o o' rest w l e h = absurd (omega arith)
  read_items (cons v xs) (suc f) o o' rest w l e h =
      let left = encode_items xs ++ (b'e' ∷ rest) in
      rw (append_assoc (encode v) (encode_items xs) (b'e' ∷ rest), decode_items-encode f o v left)
        (rw (
          read_value v f o (o + length (encode v)) left w.0 (omega (lengths, length-encode_pos v))
              refl (omega lengths),
          read_items xs f (o + length (encode v)) o' rest w.1 (omega (lengths, length-encode_pos v))
              (omega lengths) h,
        ))

  read_entries :
      (d acc : Dict) (f o o' : ℕ) (rest : Bytes)
      → ValuesWellFormed d
      → 2 * length (encode_entries d) + 1 < f
      → o + length (encode_entries d) + 1 ≡ o'
      → o' < 2 ^ 64
      → decode_entries f o (encode_entries d ++ (b'e' ∷ rest)) acc ≡ ok (insert_all acc d, o', rest)
  read_entries empty acc zero o o' rest w l e h = absurd (omega arith)
  read_entries empty acc (suc f) o o' rest w l e h = ap (λ n. ok (acc, n, rest)) (omega arith)
  read_entries (entry k v d) acc zero o o' rest w l e h = absurd (omega arith)
  read_entries (entry k v d) acc (suc zero) o o' rest w l e h = absurd (omega lengths)
  read_entries (entry k v d) acc (suc (suc f)) o o' rest w l e h =
      let left = encode_entries d ++ (b'e' ∷ rest) in
      let o₁ = o + length (encode_string k) in
      let o₂ = o₁ + length (encode v) in
      rw
        (
          append_assoc (encode_string k) (encode v ++ encode_entries d) (b'e' ∷ rest),
          append_assoc (encode v) (encode_entries d) (b'e' ∷ rest),
          decode_entries-encode (suc f) o k (encode v ++ left) acc,
        )
        (rw (decode_inner-encode_string f o o₁ k (encode v ++ left) refl (omega lengths)) (
          rw (
            read_value v (suc f) o₁ o₂ left w.0 (omega lengths) refl (omega lengths),
            read_entries d (insert k v acc) (suc f) o₂ o' rest w.1
                (omega (lengths, length-encode_pos v)) (omega lengths) h,
          )))

-- What `encode` prints of a well-formed value, `decode_inner` reads off the front of any input, from
-- any offset: it returns the value and moves the offset past the print, given fuel above twice the
-- length of the print and a buffer whose offsets fit a usize.
pub decode_inner-encode :
    (v : Bencode) (f o : ℕ) (rest : Bytes)
    → IsWellFormed v
    → 2 * length (encode v) < f
    → o + length (encode v) < 2 ^ 64
    → decode_inner f o (encode v ++ rest) ≡ ok (v, o + length (encode v), rest)
decode_inner-encode v f o rest w l h = read_value v f o _ rest w l refl h

-- Decoding what was encoded gives the value back: for every value whose integers are in the range of
-- i64 and whose dictionaries are in order, and whose print has fewer than 2 ^ 64 bytes.
pub decode-encode :
    (v : Bencode) → IsWellFormed v → length (encode v) < 2 ^ 64 → decode (encode v) ≡ ok v
unfolding decode
decode-encode v w h =
    let whole = decode_inner-encode v (fuel_for (encode v)) 0 [] w (omega arith) (omega arith) in
    rw (rw append-nil at whole)
