-- ===== src/Bencode/Progress.antt =====
-- `decode_inner` of crates/core/src/bencode.rs on any input: it ends, it advances its offset over the
-- bytes that it reads, and what it returns is a value that the Rust type can hold.
use torrent_rust_cli.Common.{
  ℕ, zero, suc, ◌+◌, ◌*◌, ◌^◌, ◌<◌, ◌≡◌, ◌≢◌, refl, sym, ap, ◌∙◌, [], ◌∷◌, ◌++◌, append_assoc,
  Bytes, length, lengths, arith, ok, out_of_fuel, Settles, returns, fails, panics, Settles-ok,
  Settles-out_of_fuel, Settles-if, Settles-bind, Settles-weaken, ◌==◌, ltb, false, take, drop,
  take-append-drop, length-take, length-append, Option-cases, inl, inr,
}
use torrent_rust_cli.Common.Decimal.{is_digit, parse_i64, parse_usize, parse_i64-IsI64}
use torrent_rust_cli.Common.Utf8.{is_utf8}
use torrent_rust_cli.Bencode.Value.{
  Bencode, Dict, int, byte_string, list, dict, empty, insert, IsSorted, IsWellFormed, AllWellFormed,
  ValuesWellFormed,
}
use torrent_rust_cli.Bencode.Order.{insert-IsSorted, insert-ValuesWellFormed}
use torrent_rust_cli.Bencode.Decode.{
  scan_to, read_int, read_string, take_string, key_error, key_of, decode_inner, decode_items,
  decode_entries, decode, fuel_for,
}

-- From offset `o` with `bs` left, a call has read `front` and stopped at offset `o'` with `r` left.
pub record Advances (o : ℕ) (bs : Bytes) (o' : ℕ) (r : Bytes) : Type 0 where
  pub front : Bytes
  pub split : bs ≡ front ++ r
  pub moved : o' ≡ o + length front
  pub nonempty : 0 < length front

pub Advances-shorter : {o o' : ℕ} {bs r : Bytes} → Advances o bs o' r → length r < length bs
Advances-shorter a = omega (lengths, ap length a.split, a.nonempty)

pub Advances-trans :
    {o o₁ o₂ : ℕ} {bs r₁ r₂ : Bytes}
    → Advances o bs o₁ r₁
    → Advances o₁ r₁ o₂ r₂
    → Advances o bs o₂ r₂
Advances-trans {r₂ = r₂} a b = record {
  front = a.front ++ b.front;
  split = a.split ∙ ap (λ t. a.front ++ t) b.split ∙ sym (append_assoc a.front b.front r₂);
  moved = omega (lengths, a.moved, b.moved);
  nonempty = omega (lengths, a.nonempty);
}

-- One byte more in front.
Advances-cons :
    (b : ℕ) {o o' : ℕ} {bs r : Bytes} → Advances (o + 1) bs o' r → Advances o (b ∷ bs) o' r
Advances-cons b a = record {
  front = b ∷ a.front;
  split = ap (λ t. b ∷ t) a.split;
  moved = omega (arith, a.moved);
  nonempty = omega arith;
}

abbrev step_over : (b o : ℕ) (bs : Bytes) → Advances o (b ∷ bs) (o + 1) bs
step_over b o bs = record {
  front = b ∷ [];
  split = refl;
  moved = omega arith;
  nonempty = omega arith;
}

scan_to_split : (stop : ℕ) (bs : Bytes) → bs ≡ (scan_to stop bs).0 ++ (scan_to stop bs).1
unfolding scan_to
scan_to_split stop [] = refl
scan_to_split stop (b ∷ bs) = ground (arith, scan_to_split stop bs)

-- A call returns a value fit for the Rust type and has advanced.
abbrev pub Reads : ℕ → Bytes → Bencode × ℕ × Bytes → Type 0
Reads o bs (v, o', r) = IsWellFormed v × Advances o bs o' r

read_int-Settles :
    (o : ℕ) (text left bs : Bytes) → bs ≡ text ++ left → Settles (Reads o bs) (read_int o text left)
unfolding read_int
read_int-Settles o text [] bs e = fails
read_int-Settles o text (c ∷ after) bs e =
    Settles-if (is_utf8 text)
      (λ u. elim (Option-cases (parse_i64 text)) [
        | inl p ↦ rw p fails
        | inr (i, p) ↦ rw p (returns (parse_i64-IsI64 text i p, past))
      ])
      (λ u. fails)
  where
    past : Advances o bs (o + length text + 1) after
    past = record {
      front = text ++ (c ∷ []);
      split = e ∙ sym (append_assoc text (c ∷ []) after);
      moved = omega lengths;
      nonempty = omega lengths;
    }

take_string-Settles :
    (o start len : ℕ) (bs after : Bytes)
    → Advances o bs start after
    → Settles (Reads o bs) (take_string start len after)
unfolding take_string
take_string-Settles o start len bs after a =
    Settles-if (ltb (start + len) (2 ^ 64))
      (λ t. Settles-if (ltb (length after) len) (λ u. fails) (λ u. returns (tt, past u)))
      (λ t. panics)
  where
    past : ltb (length after) len ≡ false → Advances o bs (start + len) (drop len after)
    past u = record {
      front = a.front ++ take len after;
      split =
          a.split
          ∙ ap (λ t. a.front ++ t) (sym (take-append-drop len after))
          ∙ sym (append_assoc a.front (take len after) (drop len after));
      moved =
          ground (arith, a.moved, length-append a.front (take len after), length-take len after);
      nonempty = omega (lengths, a.nonempty);
    }

read_string-Settles :
    (o : ℕ) (text left bs : Bytes)
    → bs ≡ text ++ left
    → Settles (Reads o bs) (read_string o text left)
unfolding read_string
read_string-Settles o text [] bs e = fails
read_string-Settles o text (c ∷ after) bs e =
    Settles-if (is_utf8 text)
      (λ u. elim (Option-cases (parse_usize text)) [
        | inl p ↦ rw p fails
        | inr (len, p) ↦ rw p (take_string-Settles o (o + length text + 1) len bs after past)
      ])
      (λ u. fails)
  where
    past : Advances o bs (o + length text + 1) after
    past = record {
      front = text ++ (c ∷ []);
      split = e ∙ sym (append_assoc text (c ∷ []) after);
      moved = omega lengths;
      nonempty = omega lengths;
    }

key_error-Settles : (left : Bytes) → Settles (λ k. Unit {0}) (key_error left)
unfolding key_error
key_error-Settles [] = panics
key_error-Settles (b ∷ bs) = fails

key_of-Settles : (v : Bencode) (left : Bytes) → Settles (λ k. Unit {0}) (key_of v left)
unfolding key_of
key_of-Settles (byte_string s) left = returns tt
key_of-Settles (int i) left = key_error-Settles left
key_of-Settles (list xs) left = key_error-Settles left
key_of-Settles (dict d) left = key_error-Settles left

mutual
  unfolding decode_inner

  decode_inner-Settles :
      (f o : ℕ) (bs : Bytes) → 2 * length bs < f → Settles (Reads o bs) (decode_inner f o bs)
  decode_inner-Settles zero o bs h = absurd (omega arith)
  decode_inner-Settles (suc f) o [] h = fails
  decode_inner-Settles (suc f) o (b ∷ bs) h =
      Settles-if (b == b'i')
        (λ e.
          Settles-weaken (read_int-Settles (o + 1) _ _ bs (scan_to_split b'e' bs))
            λ (v, o', r) (w, a). (w, Advances-cons b a))
        (λ e.
          Settles-if (b == b'l')
            (λ e.
              Settles-bind (decode_items-Settles f (o + 1) bs (omega arith))
                λ (xs, o', r) (w, a). returns (w, Advances-cons b a))
            (λ e.
              Settles-if (b == b'd')
                (λ e.
                  Settles-bind (decode_entries-Settles f (o + 1) bs empty (omega arith) tt tt)
                    λ (d, o', r) (s, w, a). returns ((s, w), Advances-cons b a))
                (λ e.
                  Settles-if (is_digit b)
                    (λ e. read_string-Settles o _ _ (b ∷ bs) (scan_to_split b':' (b ∷ bs)))
                    (λ e. fails))))

  decode_items-Settles :
      (f o : ℕ) (bs : Bytes)
      → 2 * length bs + 1 < f
      → Settles (λ (xs, o', r). AllWellFormed xs × Advances o bs o' r) (decode_items f o bs)
  decode_items-Settles zero o bs h = absurd (omega arith)
  decode_items-Settles (suc f) o [] h = fails
  decode_items-Settles (suc f) o (b ∷ bs) h =
      Settles-if (b == b'e') (λ e. returns (tt, step_over b o bs))
        (λ e. Settles-bind (decode_inner-Settles f o (b ∷ bs) (omega arith)) λ (v, o₁, r₁) (w, a).
          Settles-bind (decode_items-Settles f o₁ r₁ (omega (arith, Advances-shorter a)))
            λ (xs, o₂, r₂) (ws, a'). returns ((w, ws), Advances-trans a a'))

  decode_entries-Settles :
      (f o : ℕ) (bs : Bytes) (d : Dict)
      → 2 * length bs + 1 < f
      → IsSorted d
      → ValuesWellFormed d
      → Settles
          (λ (d', o', r). IsSorted d' × ValuesWellFormed d' × Advances o bs o' r)
          (decode_entries f o bs d)
  decode_entries-Settles zero o bs d h s w = absurd (omega arith)
  decode_entries-Settles (suc f) o [] d h s w = fails
  decode_entries-Settles (suc f) o (b ∷ bs) d h s w =
      Settles-if (b == b'e') (λ e. returns (s, w, step_over b o bs))
        (λ e. Settles-bind (decode_inner-Settles f o (b ∷ bs) (omega arith)) λ (j, o₁, r₁) (_, a₁).
          Settles-bind (key_of-Settles j r₁) λ k _.
            Settles-bind (decode_inner-Settles f o₁ r₁ (omega (arith, Advances-shorter a₁)))
              λ (v, o₂, r₂) (wv, a₂).
                Settles-weaken
                  (decode_entries-Settles f o₂ r₂ (insert k v d)
                    (omega (arith, Advances-shorter a₁, Advances-shorter a₂))
                    (insert-IsSorted k v d s) (insert-ValuesWellFormed k v d wv w))
                  λ (d', o', r) (s', w', a₃). (s', w', Advances-trans a₁ (Advances-trans a₂ a₃)))

-- With fuel above twice the length of what is left, `decode_inner` ends on every input: it returns,
-- fails or panics. What it returns is well formed, with the offset moved over at least one byte and
-- the bytes from there on unchanged.
pub decode_inner-Reads :
    (f o : ℕ) (bs : Bytes) → 2 * length bs < f → Settles (Reads o bs) (decode_inner f o bs)
decode_inner-Reads = decode_inner-Settles

-- The fuel of `decode` is enough for every input.
pub decode-ne-out_of_fuel : (bs : Bytes) → decode bs ≢ out_of_fuel
unfolding decode
decode-ne-out_of_fuel bs = Settles-out_of_fuel {P = λ v. IsWellFormed v} (
    Settles-bind (decode_inner-Settles (fuel_for bs) 0 bs (omega arith))
      λ (v, o, r) (w, a). returns w)

-- Every value that `decode` returns has integers in the range of i64 and dictionaries in order.
pub decode-IsWellFormed : (bs : Bytes) (v : Bencode) → decode bs ≡ ok v → IsWellFormed v
unfolding decode
decode-IsWellFormed bs v = Settles-ok {P = λ v. IsWellFormed v} (
    Settles-bind (decode_inner-Settles (fuel_for bs) 0 bs (omega arith))
      λ (v, o, r) (w, a). returns w)
