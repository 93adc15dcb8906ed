-- ===== src/Creator/Checks.antt =====
-- Concrete runs of crates/daemon/src/creator.rs, with invented digests, and the theorems at concrete
-- inputs.
use torrent_rust_cli.Common.{
  concat, ◌≡◌, refl, [], ◌∷◌, List, map, Bytes, length, ok, arith, replicate,
}
use torrent_rust_cli.Common.Ints.{u64_to_i64}
use torrent_rust_cli.Common.Decimal.{print_nat, print_int}
use torrent_rust_cli.Common.Utf8.{is_utf8}
use torrent_rust_cli.Bencode.Value.{insert, compare_bytes}
use torrent_rust_cli.Bencode.Encode.{encode, encode_string}
use torrent_rust_cli.Meta.Print.{
  into_bytes, to_bencode, to_dict, insert_announce_list, info_to_bencode, info_to_dict,
  to_bencode_fields, concat_pieces,
}
use torrent_rust_cli.Meta.Parse.{from_bytes}
use torrent_rust_cli.Creator.Pieces.{
  default_piece_length, take_data, hash_rounds, hash_piece, hash_reads, finish, nothing_hashed,
  pieces_of,
}
use torrent_rust_cli.Creator.Reads.{finish-hash_reads}
use torrent_rust_cli.Creator.Torrent.{
  Source, file, reads_of, mode_of, announce_of, announce_list_of, create_torrent, created,
  meta_with, from_bytes-create_torrent,
}

abbrev digest : Bytes → Bytes
digest bs = replicate 20 (length bs)

abbrev reads : List Bytes
reads = (1 ∷ 2 ∷ 3 ∷ []) ∷ (4 ∷ 5 ∷ []) ∷ []

-- Pieces of two bytes, across the reads.
test_pieces :
    finish (λ b. b) 2 (hash_reads (λ b. b) 2 reads nothing_hashed)
    ≡ (1 ∷ 2 ∷ []) ∷ (3 ∷ 4 ∷ []) ∷ (5 ∷ []) ∷ []
unfolding finish hash_reads hash_piece hash_rounds take_data
test_pieces = refl

finish-hash_reads_example :
    finish digest 2 (hash_reads digest 2 reads nothing_hashed)
    ≡ map digest (pieces_of 2 (concat reads))
finish-hash_reads_example = finish-hash_reads digest 2 (omega arith) reads

abbrev small_file : Source
small_file = file 5 reads

from_bytes-create_torrent_example :
    from_bytes digest (create_torrent digest (b'n' ∷ []) small_file [])
    ≡ ok (
        meta_with digest
          (b'n' ∷ [])
          small_file
          []
          (map digest (pieces_of default_piece_length (concat reads))))
unfolding is_utf8 mode_of reads_of announce_of announce_list_of create_torrent created finish
    hash_reads hash_piece hash_rounds take_data into_bytes to_bencode to_dict insert_announce_list
    info_to_bencode info_to_dict to_bencode_fields concat_pieces insert compare_bytes encode
    encode_string print_nat print_int u64_to_i64
from_bytes-create_torrent_example =
    from_bytes-create_torrent digest (b'n' ∷ []) small_file [] (λ b. refl) refl tt (omega arith)
      (omega arith)
