-- ===== src/Bencode/Scalars.antt =====
-- The integers and byte strings that `encode` prints, as `decode_inner` of crates/core/src/bencode.rs
-- reads them.
use torrent_rust_cli.Common.{
  ℕ, suc, ◌+◌, ◌^◌, ◌<◌, ◌≡◌, ◌≢◌, ap, ◌∙◌, [], ◌∷◌, ◌++◌, append_assoc, Bytes, length, lengths,
  All, All-weaken, arith, ok, take-append, drop-append, length-append,
}
use torrent_rust_cli.Common.Ints.{ℤ, pos, negsuc, IsI64}
use torrent_rust_cli.Common.Decimal.{
  is_digit, IsDigit, print_nat, print_int, print_nat-IsDigit, print_nat_head, parse_usize-print_nat,
  parse_i64-print_int,
}
use torrent_rust_cli.Common.Utf8.{is_utf8_of_ascii}
use torrent_rust_cli.Bencode.Value.{int, byte_string}
use torrent_rust_cli.Bencode.Decode.{scan_to, read_int, read_string, take_string, decode_inner}
use torrent_rust_cli.Bencode.Encode.{encode_string}

pub scan_to-append :
    (stop : ℕ) (front back : Bytes)
    → All (λ b. b ≢ stop) front
    → scan_to stop (front ++ (stop ∷ back)) ≡ (front, stop ∷ back)
unfolding scan_to
scan_to-append stop [] back h = ground arith
scan_to-append stop (b ∷ front) back h = ground (arith, scan_to-append stop front back h.1)

digits_ne : (stop : ℕ) (xs : Bytes) → 57 < stop → All IsDigit xs → All (λ b. b ≢ stop) xs
digits_ne stop xs h = All-weaken IsDigit (λ b. b ≢ stop) xs (λ b d. omega arith)

pub digits_ascii : (xs : Bytes) → All IsDigit xs → All (λ b. b < 128) xs
digits_ascii xs = All-weaken IsDigit (λ b. b < 128) xs (λ b d. omega arith)

pub print_int_ne : (i : ℤ) → All (λ b. b ≢ 101) (print_int i)
unfolding print_int
print_int_ne (pos n) = digits_ne 101 _ (omega arith) (print_nat-IsDigit n)
print_int_ne (negsuc n) = (omega arith, digits_ne 101 _ (omega arith) (print_nat-IsDigit (suc n)))

print_int_ascii : (i : ℤ) → All (λ b. b < 128) (print_int i)
unfolding print_int
print_int_ascii (pos n) = digits_ascii _ (print_nat-IsDigit n)
print_int_ascii (negsuc n) = (omega arith, digits_ascii _ (print_nat-IsDigit (suc n)))

pub read_int-print_int :
    (start : ℕ) (i : ℤ) (after : Bytes)
    → IsI64 i
    → read_int start (print_int i) (b'e' ∷ after)
      ≡ ok (int i, start + length (print_int i) + 1, after)
unfolding read_int
read_int-print_int start i after h =
    rw (is_utf8_of_ascii _ (print_int_ascii i), parse_i64-print_int i h)

take_string-append :
    (start : ℕ) (s rest : Bytes)
    → start + length s < 2 ^ 64
    → take_string start (length s) (s ++ rest) ≡ ok (byte_string s, start + length s, rest)
unfolding take_string
take_string-append start s rest h =
    ground (arith, length-append s rest, take-append s rest, drop-append s rest)

read_string-print_nat :
    (start : ℕ) (s rest : Bytes)
    → start + length (print_nat (length s)) + 1 + length s < 2 ^ 64
    → read_string start (print_nat (length s)) (b':' ∷ (s ++ rest))
      ≡ ok (byte_string s, start + length (print_nat (length s)) + 1 + length s, rest)
unfolding read_string
read_string-print_nat start s rest h =
    rw
      (
        is_utf8_of_ascii _ (digits_ascii _ (print_nat-IsDigit (length s))),
        parse_usize-print_nat (length s) (omega arith),
      )
      (take_string-append _ s rest h)

-- A digit leads into the arm for strings.
decode_inner_of_digit :
    (f o c : ℕ) (cs : Bytes)
    → IsDigit c
    → decode_inner (suc f) o (c ∷ cs)
      ≡ read_string o (scan_to b':' (c ∷ cs)).0 (scan_to b':' (c ∷ cs)).1
unfolding decode_inner is_digit
decode_inner_of_digit f o c cs h = ground arith

pub decode_inner-print_nat :
    (f o n : ℕ) (after : Bytes)
    → decode_inner (suc f) o (print_nat n ++ (b':' ∷ after))
      ≡ read_string o (print_nat n) (b':' ∷ after)
decode_inner-print_nat f o n after =
    let (c, cs, e, d) = print_nat_head n in
    let scanned =
      scan_to-append b':' (print_nat n) after
        (digits_ne b':' _ (omega arith) (print_nat-IsDigit n)) in
    rw e (decode_inner_of_digit f o c (cs ++ (b':' ∷ after)) d ∙ rw (rw e at scanned))

pub decode_inner-encode_string :
    (f o o' : ℕ) (s rest : Bytes)
    → o + length (encode_string s) ≡ o'
    → o' < 2 ^ 64
    → decode_inner (suc f) o (encode_string s ++ rest) ≡ ok (byte_string s, o', rest)
unfolding encode_string
decode_inner-encode_string f o o' s rest e h =
    let count : o + length (print_nat (length s)) + 1 + length s ≡ o' = omega lengths in
    simp append_assoc (
      decode_inner-print_nat f o (length s) (s ++ rest)
      ∙ read_string-print_nat o s rest (omega arith)
      ∙ ap (λ n. ok (byte_string s, n, rest)) count)

pub decode_inner-print_int :
    (f o : ℕ) (i : ℤ) (after : Bytes)
    → IsI64 i
    → decode_inner (suc f) o (b'i' ∷ (print_int i ++ (b'e' ∷ after)))
      ≡ ok (int i, o + 1 + length (print_int i) + 1, after)
unfolding decode_inner
decode_inner-print_int f o i after h =
    rw (scan_to-append b'e' (print_int i) after (print_int_ne i))
      (read_int-print_int (o + 1) i after h)
