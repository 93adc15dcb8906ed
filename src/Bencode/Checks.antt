-- ===== src/Bencode/Checks.antt =====
-- The tests of crates/core/src/bencode.rs, other concrete runs, and the theorems at concrete inputs.
use torrent_rust_cli.Common.{◌≡◌, refl, [], ◌∷◌, ◌++◌, Bytes, ok, panic, Settles, arith}
use mathlib.Core.Option
use torrent_rust_cli.Bencode.Progress.{Reads, decode_inner-Reads}
use torrent_rust_cli.Bencode.RoundTrip.{decode-encode}
use torrent_rust_cli.Bencode.InfoSlice.{find_info_dict_slice, find_info_dict_slice-encode, info}
use torrent_rust_cli.Bencode.Panics.{decode_int_key_panics, decode_long_string_panics}
use torrent_rust_cli.Common.Ints.{pos}
use torrent_rust_cli.Common.Decimal.{
  parse_i64, parse_usize, parse_nat, is_digit, print_int, print_nat,
}
use torrent_rust_cli.Common.Utf8.{is_utf8}
use torrent_rust_cli.Bencode.Value.{
  Dict, int, byte_string, list, dict, cons, nil, entry, empty, get,
}
use torrent_rust_cli.Bencode.Decode.{
  scan_to, read_int, read_string, take_string, key_of, key_error, decode_inner, decode,
}
use torrent_rust_cli.Bencode.Encode.{encode, encode_string}

abbrev spam : Bytes
spam = b's' ∷ b'p' ∷ b'a' ∷ b'm' ∷ []

-- b"l4:spami42ee"
abbrev spam_list : Bytes
spam_list = b'l' ∷ b'4' ∷ b':' ∷ b's' ∷ b'p' ∷ b'a' ∷ b'm' ∷ b'i' ∷ b'4' ∷ b'2' ∷ b'e' ∷ b'e' ∷ []

test_decode_list : decode spam_list ≡ ok (list (cons (byte_string spam) (cons (int (pos 42)) nil)))
unfolding decode decode_inner scan_to read_int read_string take_string is_utf8 parse_i64 parse_usize
    parse_nat is_digit
test_decode_list = refl

-- b"di1e": the key is an integer, and the input ends behind it.
key_past_end : decode (b'd' ∷ b'i' ∷ b'1' ∷ b'e' ∷ []) ≡ panic
unfolding decode decode_inner scan_to read_int is_utf8 parse_i64 parse_nat key_of key_error
key_past_end = refl

-- d4:infoi7ee
abbrev seven_entries : Dict
seven_entries = entry info (int (pos 7)) empty

decode-encode_example : decode (encode (dict seven_entries)) ≡ ok (dict seven_entries)
unfolding encode encode_string print_nat print_int
decode-encode_example =
    decode-encode (dict seven_entries) ((tt, tt), (omega arith, tt)) (omega arith)

decode_inner-Reads_example : Settles (Reads 3 spam_list) (decode_inner 30 3 spam_list)
decode_inner-Reads_example = decode_inner-Reads 30 3 spam_list (omega arith)

find_info_dict_slice-encode_example :
    find_info_dict_slice (encode (dict seven_entries))
    ≡ ok (Option.map encode (get info seven_entries))
unfolding encode encode_string print_nat print_int
find_info_dict_slice-encode_example =
    find_info_dict_slice-encode seven_entries ((tt, tt), (omega arith, tt)) (omega arith)

decode_int_key_panics_example : decode (b'd' ∷ encode (int (pos 1))) ≡ panic
unfolding encode print_nat print_int
decode_int_key_panics_example = decode_int_key_panics (pos 1) (omega arith) (omega arith)

decode_long_string_panics_example : decode (print_nat 18446744073709551615 ++ (b':' ∷ spam)) ≡ panic
unfolding print_nat
decode_long_string_panics_example =
    decode_long_string_panics 18446744073709551615 spam (omega arith) (omega arith)
