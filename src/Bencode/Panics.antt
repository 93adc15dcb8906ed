-- ===== src/Bencode/Panics.antt =====
-- Inputs that make `Bencode::decode` of crates/core/src/bencode.rs panic.
use torrent_rust_cli.Common.{
  ℕ, suc, ◌+◌, ◌*◌, ◌^◌, ◌<◌, ◌≤◌, ◌≡◌, refl, [], ◌∷◌, ◌++◌, append-nil, Bytes, length, arith,
  panic, ne→==, le→ltb,
}
use torrent_rust_cli.Common.Ints.{ℤ, IsI64}
use torrent_rust_cli.Common.Decimal.{print_nat, print_nat-IsDigit, parse_usize-print_nat}
use torrent_rust_cli.Common.Utf8.{is_utf8_of_ascii}
use torrent_rust_cli.Bencode.Value.{Bencode, Dict, int, IsWellFormed, empty}
use torrent_rust_cli.Bencode.Decode.{
  decode, decode_inner, decode_entries, fuel_for, key_of, key_error, take_string, read_string,
}
use torrent_rust_cli.Bencode.Encode.{encode}
use torrent_rust_cli.Bencode.Scalars.{decode_inner-print_nat, digits_ascii}
use torrent_rust_cli.Bencode.RoundTrip.{decode_inner-encode, encode_head}

-- The loop of the `d` arm at a key that is no string and ends the input.
decode_entries-panic :
    (v : Bencode) (f o : ℕ) (d : Dict)
    → ((left : Bytes) → key_of v left ≡ key_error left)
    → IsWellFormed v
    → 2 * length (encode v) < f
    → o + length (encode v) < 2 ^ 64
    → decode_entries (suc f) o (encode v) d ≡ panic
unfolding key_error
decode_entries-panic v f o d k w l h =
    let (c, cs, e, n) = encode_head v in
    let whole = decode_inner-encode v f o [] w l h in
    let read = rw e at (rw append-nil at whole) in
    rw e (unfold decode_inner in rw (ne→== c b'e' n, read, k []))

-- A dictionary whose first key is an integer that ends the input: the decoder wants to name the byte
-- behind the key in its error, and there is none.
pub decode_int_key_panics :
    (i : ℤ)
    → IsI64 i
    → length (encode (int i)) + 1 < 2 ^ 64
    → decode (b'd' ∷ encode (int i)) ≡ panic
unfolding decode decode_inner
decode_int_key_panics i w h =
    let fuel : fuel_for (b'd' ∷ encode (int i)) ≡ suc (suc (2 * length (encode (int i)) + 1)) =
      omega arith in
    let loop =
      decode_entries-panic (int i) (2 * length (encode (int i)) + 1) 1 empty
        (λ left. unfold key_of in refl) w (omega arith) (omega arith) in
    rw fuel (rw loop)

take_string_overflow :
    (start len : ℕ) (after : Bytes) → 2 ^ 64 ≤ start + len → take_string start len after ≡ panic
unfolding take_string
take_string_overflow start len after h = rw (le→ltb (start + len) (2 ^ 64) h)

-- A byte string whose announced length fits a usize, while the offset that it leads to does not: the
-- offset overflows, whatever follows in the input.
pub decode_long_string_panics :
    (n : ℕ) (after : Bytes)
    → n < 2 ^ 64
    → 2 ^ 64 ≤ length (print_nat n) + 1 + n
    → decode (print_nat n ++ (b':' ∷ after)) ≡ panic
unfolding decode read_string
decode_long_string_panics n after h l =
    let text = print_nat n in
    let fuel : fuel_for (text ++ (b':' ∷ after)) ≡ suc (2 * length (text ++ (b':' ∷ after))) =
      omega arith in
    rw fuel (
      rw (
        decode_inner-print_nat (2 * length (text ++ (b':' ∷ after))) 0 n after,
        is_utf8_of_ascii text (digits_ascii text (print_nat-IsDigit n)),
        parse_usize-print_nat n h,
        take_string_overflow (0 + length text + 1) n after (omega arith),
      ))
