-- ===== src/Meta/Checks.antt =====
-- The theorem on torrent files at a concrete one, with an invented digest (crates/core/src/meta.rs).
use torrent_rust_cli.Common.{◌≡◌, refl, [], ◌∷◌, none, Bytes, length, ok, arith, replicate}
use torrent_rust_cli.Common.Ints.{u64_to_i64}
use torrent_rust_cli.Common.Decimal.{print_nat, print_int}
use torrent_rust_cli.Common.Utf8.{is_utf8}
use torrent_rust_cli.Bencode.Value.{insert, compare_bytes}
use torrent_rust_cli.Bencode.Encode.{encode, encode_string}
use torrent_rust_cli.Meta.Types.{TorrentMeta, single}
use torrent_rust_cli.Meta.Print.{
  into_bytes, to_bencode, to_dict, insert_announce_list, info_to_bencode, info_to_dict,
  to_bencode_fields, concat_pieces,
}
use torrent_rust_cli.Meta.Parse.{from_bytes}
use torrent_rust_cli.Meta.RoundTrip.{IsValid, from_bytes-into_bytes}

-- The length, as one byte, twenty times.
abbrev digest : Bytes → Bytes
digest bs = replicate 20 (length bs)

abbrev small : TorrentMeta
small = record {
  announce = b'u' ∷ [];
  announce_list = none;
  info = record {
    name = b'n' ∷ [];
    piece_length = 4;
    pieces = replicate 20 1 ∷ [];
    mode = single 3;
  };
  info_hash = replicate 20 0;
}

small-IsValid : IsValid small
unfolding is_utf8
small-IsValid = record {
  announce_text = refl;
  tiers_kept = tt;
  name_text = refl;
  piece_length_u64 = omega arith;
  hashes = (refl, tt);
  mode_valid = omega arith;
}

from_bytes-into_bytes_example :
    from_bytes digest (into_bytes small)
    ≡ ok (record small { info_hash = digest (encode (info_to_bencode small.info)) })
unfolding into_bytes to_bencode to_dict insert_announce_list info_to_bencode info_to_dict
    to_bencode_fields concat_pieces insert compare_bytes encode encode_string print_nat print_int
    u64_to_i64
from_bytes-into_bytes_example = from_bytes-into_bytes digest small small-IsValid (omega arith)
