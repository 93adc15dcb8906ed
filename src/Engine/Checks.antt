-- ===== src/Engine/Checks.antt =====
-- Concrete runs of crates/daemon/src/engine.rs, and the theorems at concrete inputs.
use torrent_rust_cli.Common.{
  replicate, true, false, get_or, ◌≤◌, Settles, ◌≡◌, ◌*◌, ◌+◌, refl, [], ◌∷◌, List, map, none,
  Bytes, length, take, drop, ok, arith, concat, Bool, bytes_eq, subst, sym,
}
use torrent_rust_cli.Engine.Files.{
  Disk, multi, write_block, write_files, overwrite, read_piece_from_disk, read_files, read_at,
}
use torrent_rust_cli.Engine.Splice.{splice}
use torrent_rust_cli.Engine.Flat.{whole, IsFlat, write_block-splice, read_piece_from_disk-flat}
use torrent_rust_cli.Common.Texts.{codes}
use torrent_rust_cli.Peer.Message.{piece, request}
use torrent_rust_cli.Engine.Session.{
  Torrent, PieceGuard, Layout, Step, get_request_length, piece_target_size, get_request_length,
  on_piece, on_message, advance, count_block, close_piece, take_missing, take_first, next_request,
}
use torrent_rust_cli.Engine.Fetch.{
  IsInside, get_request_length-IsInside, on_message-Settles, on_piece_marks,
}
use torrent_rust_cli.Meta.Types.{TorrentMeta, FileMode}
use torrent_rust_cli.Creator.Pieces.{pieces_of, cut}
use torrent_rust_cli.Engine.Verify.{
  Store, path_eq, put_file, disk_of, sum_lengths, total_size, verify_pieces, verify_and_resume,
}
use torrent_rust_cli.Engine.Initialize.{IsAllowed}
use torrent_rust_cli.Engine.Verified.{matched, verify_pieces-matched, verify_and_resume_complete}

abbrev two_files : List Bytes
two_files = (1 ∷ 2 ∷ 3 ∷ []) ∷ (4 ∷ 5 ∷ []) ∷ []

abbrev all_bytes : Bytes
all_bytes = concat two_files

abbrev disk : Disk
disk = multi (map whole two_files)

abbrev block : Bytes
block = 8 ∷ 9 ∷ []

test_write_block :
    write_block 2 disk 1 0 block ≡ ok (multi (map whole ((1 ∷ 2 ∷ 8 ∷ []) ∷ (9 ∷ 5 ∷ []) ∷ [])))
unfolding write_block write_files overwrite
test_write_block = refl

-- A file that is missing is skipped without its length: the second byte of the second file is read
-- where the first is asked for.
missing_file :
    read_piece_from_disk (multi (record { size = 3; content = none } ∷ whole (4 ∷ 5 ∷ []) ∷ [])) 1 1
    ≡ ok (5 ∷ [])
unfolding read_piece_from_disk read_files read_at
missing_file = refl

write_block-splice_example :
    (d' : Disk) × (write_block 2 disk 1 0 block ≡ ok d')
    × IsFlat d' (splice (1 * 2 + 0) block all_bytes)
write_block-splice_example =
    write_block-splice 2 disk all_bytes 1 0 block (two_files, refl, refl) (omega arith)

read_piece_from_disk-flat_example : read_piece_from_disk disk 2 2 ≡ ok (take 2 (drop 2 all_bytes))
read_piece_from_disk-flat_example =
    read_piece_from_disk-flat disk all_bytes 2 2 (two_files, refl, refl) (omega arith)

-- Pieces of two bytes over five bytes.
abbrev layout : Layout
layout = record { piece_length = 2; total_pieces = 3; total_size = 5 }

abbrev torrent : Torrent
torrent = record {
  size = 5;
  downloaded = 4;
  uploaded = 0;
  status = codes "Downloading";
  peers_connected = 0;
  missing_pieces = 1 ∷ 2 ∷ [];
  have_pieces = true ∷ false ∷ false ∷ [];
  disk = disk;
}

abbrev fetching : PieceGuard
fetching = record { piece_index = 1; block_offset = 0; is_complete = false }

test_last_request : get_request_length layout 2 0 ≡ ok 1
unfolding get_request_length
test_last_request = refl

get_request_length-IsInside_example : IsInside layout 2 0 1
get_request_length-IsInside_example =
    get_request_length-IsInside layout 2 0 1 (omega arith) test_last_request

on_message-Settles_example :
    Settles
      (λ (s : Step). (s.torrent.downloaded ≤ s.torrent.size) × (s.torrent.size ≡ 5))
      (on_message layout torrent fetching (piece 1 0 block))
on_message-Settles_example =
    on_message-Settles layout torrent fetching (piece 1 0 block) (omega arith)

abbrev busy : Torrent
busy = record torrent { missing_pieces = 2 ∷ [] }

-- The bytes of piece 0 complete piece 1.
abbrev after_other_piece : Step
after_other_piece = record {
  torrent = record torrent {
    downloaded = 5;
    status = codes "Completed";
    missing_pieces = [];
    have_pieces = true ∷ true ∷ false ∷ [];
    disk = multi (map whole ((8 ∷ 9 ∷ 3 ∷ []) ∷ (4 ∷ 5 ∷ []) ∷ []));
  };
  guard = record { piece_index = 2; block_offset = 0; is_complete = false };
  sent = request 2 0 1 ∷ [];
  broadcast = 1 ∷ [];
}

other_piece : on_piece layout busy fetching 0 0 block ≡ ok after_other_piece
unfolding on_piece advance count_block close_piece take_missing take_first next_request
    get_request_length piece_target_size write_block write_files overwrite
other_piece = refl

on_piece_marks_example : get_or after_other_piece.torrent.have_pieces 1 false ≡ true
unfolding piece_target_size
on_piece_marks_example =
    on_piece_marks layout fetching 2 busy 0 0 block after_other_piece refl (omega arith)
      (omega arith) (omega arith) other_piece

-- The digest of a piece is the piece itself here.
abbrev no_digest : Bytes → Bytes
no_digest bs = bs

abbrev two_byte_pieces : TorrentMeta
two_byte_pieces = record {
  announce = [];
  announce_list = none;
  info = record {
    name = codes "t";
    piece_length = 2;
    pieces = pieces_of 2 all_bytes;
    mode = FileMode.multi (
        record { length = 3; path = codes "a" ∷ [] }
        ∷ record { length = 2; path = codes "b" ∷ [] }
        ∷ []);
  };
  info_hash = [];
}

five : total_size two_byte_pieces.info.mode ≡ 5
unfolding total_size sum_lengths
five = refl

abbrev open_paths : List Bytes → Bool
open_paths path = true

abbrev full_store : Store
full_store =
    put_file (codes "a" ∷ []) (1 ∷ 2 ∷ 3 ∷ []) (put_file (codes "b" ∷ []) (4 ∷ 5 ∷ []) (λ p. none))

full_disk : disk_of two_byte_pieces.info.mode full_store ≡ disk
unfolding disk_of put_file path_eq bytes_eq
full_disk = refl

all_open : IsAllowed open_paths two_byte_pieces.info.mode
unfolding IsAllowed
all_open = (refl, (refl, (refl, tt)))

full-IsFlat : IsFlat (disk_of two_byte_pieces.info.mode full_store) all_bytes
full-IsFlat = subst (λ d. IsFlat d all_bytes) (sym full_disk) (two_files, refl, refl)

digests_kept : two_byte_pieces.info.pieces ≡ map no_digest (pieces_of 2 all_bytes)
unfolding pieces_of cut
digests_kept = refl

three_pieces : length two_byte_pieces.info.pieces ≡ 3
unfolding pieces_of cut
three_pieces = refl

verify_pieces-matched_example :
    verify_pieces no_digest disk two_byte_pieces
    ≡ ok (matched no_digest (pieces_of 2 all_bytes) two_byte_pieces.info.pieces)
verify_pieces-matched_example =
    verify_pieces-matched no_digest disk two_byte_pieces all_bytes (two_files, refl, refl)
      (omega arith) (omega arith) five

verify_and_resume_complete_example :
    verify_and_resume no_digest open_paths full_store two_byte_pieces torrent
    ≡ ok (
      record torrent {
        missing_pieces = [];
        have_pieces = replicate (length two_byte_pieces.info.pieces) true;
        downloaded = 5;
        status = codes "Completed";
        disk = disk_of two_byte_pieces.info.mode full_store;
      },
      length two_byte_pieces.info.pieces,
      length two_byte_pieces.info.pieces,
    )
verify_and_resume_complete_example =
    verify_and_resume_complete no_digest open_paths full_store two_byte_pieces torrent all_bytes
      all_open full-IsFlat (omega arith) (omega arith) five refl digests_kept
      (omega (arith, three_pieces))

-- One file is short, the other is not there.
abbrev bare_store : Store
bare_store = put_file (codes "a" ∷ []) (1 ∷ []) (λ p. none)
