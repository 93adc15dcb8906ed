-- ===== src/Piece/Checks.antt =====
-- Concrete runs of crates/piece/src/lib.rs, and the theorems at concrete inputs.
use torrent_rust_cli.Common.{◌≡◌, ◌≢◌, refl, Bool, true, false, [], ◌∷◌, List, none, some, arith}
use torrent_rust_cli.Piece.Bits.{list_bits}
use torrent_rust_cli.Piece.Bitfield.{get, len}
use torrent_rust_cli.Piece.Picker.{
  PiecePicker, IsValid, is_candidate, availability, pick_next_piece, mark_downloaded,
  mark_requested, collect, insert_by_key, sort_by_key,
}
use torrent_rust_cli.Piece.Rarest.{IsRarest}
use torrent_rust_cli.Piece.Choice.{pick_next_piece-IsRarest, pick_next_piece-ne-marked}

-- Three pieces, offered by 2, 1 and 1 peers.
abbrev picker : PiecePicker list_bits
picker = record {
  num_pieces = 3;
  piece_availability = 2 ∷ 1 ∷ 1 ∷ [];
  downloaded = false ∷ false ∷ false ∷ [];
  requested = false ∷ false ∷ false ∷ [];
}

abbrev all_pieces : List Bool
all_pieces = true ∷ true ∷ true ∷ []

abbrev no_pieces : List Bool
no_pieces = false ∷ false ∷ false ∷ []

picker-IsValid : IsValid list_bits picker
unfolding len
picker-IsValid = record { availability_size = refl; downloaded_size = refl; requested_size = refl }

-- Of two pieces that one peer offers, the first.
test_pick : pick_next_piece list_bits picker all_pieces ≡ some 1
unfolding pick_next_piece collect insert_by_key sort_by_key is_candidate get
test_pick = refl

test_pick_none : pick_next_piece list_bits picker no_pieces ≡ none
unfolding pick_next_piece collect insert_by_key sort_by_key is_candidate get
test_pick_none = refl

pick_next_piece-IsRarest_example :
    IsRarest (is_candidate list_bits picker all_pieces) (availability list_bits picker) 0 3 1
pick_next_piece-IsRarest_example = pick_next_piece-IsRarest list_bits picker all_pieces 1 test_pick

pick_next_piece-ne-marked_example :
    (pick_next_piece list_bits (mark_requested list_bits picker 1 true) all_pieces ≢ some 1)
    × (pick_next_piece list_bits (mark_downloaded list_bits picker 1) all_pieces ≢ some 1)
pick_next_piece-ne-marked_example =
    pick_next_piece-ne-marked list_bits picker all_pieces 1 picker-IsValid (omega arith)
