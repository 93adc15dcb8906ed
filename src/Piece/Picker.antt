-- ===== src/Piece/Picker.antt =====
-- crates/piece/src/lib.rs: `PiecePicker`. A counter of `piece_availability` is a usize, and is taken not
-- to reach 2 ^ 64.
use torrent_rust_cli.Common.{
  ℕ, zero, suc, ◌+◌, ◌-◌, ◌≡◌, Bool, true, false, not, ◌&&◌, List, [], ◌∷◌, Option, none, some,
  length, Bytes, bytes_eq, get_or, set, replicate, ltb, leb, if◌then◌else◌, arith, length-set,
  length-replicate, ◌∙◌, ap, set-set, set-get_or, get_or-set_self, Bool-cases, inl, inr,
}
use mathlib.Core.Option
use torrent_rust_cli.Piece.Bits.{BitVecs}
use torrent_rust_cli.Piece.Bitfield.{get, set_at, len, new, len-new, len-set_at}

-- `unwrap_or`
abbrev pub unwrap_or : Option Bool → Bool → Bool
unwrap_or none d = d
unwrap_or (some b) d = b

-- `first`
abbrev pub first {ℓ} : {A : Type ℓ} → List A → Option A
first [] = none
first (x ∷ xs) = some x

-- The candidates among the `n` indices from `i` on, with their keys, in the order of the loop.
unfoldable pub collect : (ℕ → Bool) → (ℕ → ℕ) → ℕ → ℕ → List (ℕ × ℕ)
collect test key zero i = []
collect test key (suc n) i =
    let rest = collect test key n (i + 1) in if test i then (i, key i) ∷ rest else rest

-- `sort_by_key(|&(_, count)| count)`: a stable sort.
unfoldable pub insert_by_key : ℕ × ℕ → List (ℕ × ℕ) → List (ℕ × ℕ)
insert_by_key x [] = x ∷ []
insert_by_key x (y ∷ ys) =
    let rest = insert_by_key x ys in if leb x.1 y.1 then x ∷ y ∷ ys else y ∷ rest

unfoldable pub sort_by_key : List (ℕ × ℕ) → List (ℕ × ℕ)
unfolding insert_by_key
sort_by_key [] = []
sort_by_key (x ∷ xs) = insert_by_key x (sort_by_key xs)

module _ (v : BitVecs) where
  open v use {Vec}

  pub record PiecePicker : Type 0 where
    pub num_pieces : ℕ
    pub piece_availability : List ℕ
    pub downloaded : Vec
    pub requested : Vec

  unfoldable pub new_picker : ℕ → PiecePicker
  new_picker num_pieces = record {
    num_pieces = num_pieces;
    piece_availability = replicate num_pieces 0;
    downloaded = new v num_pieces;
    requested = new v num_pieces;
  }

  -- How many peers offer the piece.
  abbrev pub availability : PiecePicker → ℕ → ℕ
  availability p i = get_or p.piece_availability i 0

  unfoldable pub peer_has_piece : PiecePicker → ℕ → PiecePicker
  peer_has_piece p index =
      if ltb index p.num_pieces
      then record p {
        piece_availability = set p.piece_availability index (availability p index + 1);
      }
      else p

  unfoldable pub peer_lost_piece : PiecePicker → ℕ → PiecePicker
  peer_lost_piece p index =
      if ltb index p.num_pieces && ltb 0 (availability p index)
      then record p {
        piece_availability = set p.piece_availability index (availability p index - 1);
      }
      else p

  unfoldable pub mark_downloaded : PiecePicker → ℕ → PiecePicker
  mark_downloaded p index = record p { downloaded = set_at v p.downloaded index true }

  unfoldable pub mark_requested : PiecePicker → ℕ → Bool → PiecePicker
  mark_requested p index requested = record p { requested = set_at v p.requested index requested }

  -- A piece that is neither downloaded nor requested, and that the peer has.
  unfoldable pub is_candidate : PiecePicker → Vec → ℕ → Bool
  is_candidate p peer_bitfield i =
      not (unwrap_or (get v p.downloaded i) true)
      && not (unwrap_or (get v p.requested i) true)
      && unwrap_or (get v peer_bitfield i) false

  unfoldable pub pick_next_piece : PiecePicker → Vec → Option ℕ
  pick_next_piece p peer_bitfield =
      Option.map (λ c. c.0)
        (first
          (sort_by_key (collect (is_candidate p peer_bitfield) (availability p) p.num_pieces 0)))

  -- The vectors have one place for each piece, so no index of them is out of range.
  pub record IsValid (p : PiecePicker) : Type 0 where
    pub availability_size : length p.piece_availability ≡ p.num_pieces
    pub downloaded_size : len v p.downloaded ≡ p.num_pieces
    pub requested_size : len v p.requested ≡ p.num_pieces

  pub new_picker-IsValid : (n : ℕ) → IsValid (new_picker n)
  unfolding new_picker
  new_picker-IsValid n = record {
    availability_size = length-replicate n 0;
    downloaded_size = len-new v n;
    requested_size = len-new v n;
  }

  -- Every operation keeps the sizes.
  pub operations-IsValid :
      (p : PiecePicker) (i : ℕ) (b : Bool)
      → IsValid p
      → IsValid (peer_has_piece p i)
        × IsValid (peer_lost_piece p i)
        × IsValid (mark_downloaded p i)
        × IsValid (mark_requested p i b)
  unfolding peer_has_piece peer_lost_piece mark_downloaded mark_requested
  operations-IsValid p i b h = (
    ground (arith, length-set p.piece_availability i (availability p i + 1)),
    ground (arith, length-set p.piece_availability i (availability p i - 1)),
    ground (arith, len-set_at v p.downloaded i true),
    ground (arith, len-set_at v p.requested i b),
  )

  -- A peer that comes and goes leaves the counters as they were.
  pub peer_lost_piece-peer_has_piece :
      (p : PiecePicker) (i : ℕ) → IsValid p → peer_lost_piece (peer_has_piece p i) i ≡ p
  unfolding peer_has_piece peer_lost_piece
  peer_lost_piece-peer_has_piece p i h = elim (Bool-cases (ltb i p.num_pieces)) [
    | inl e ↦
        let a = p.piece_availability in
        let n = availability p i in
        let here = get_or-set_self a i (n + 1) 0 (ground (arith, h.availability_size)) in
        let back : set (set a i (n + 1)) i (n + 1 - 1) ≡ a =
          set-set a i (n + 1) (n + 1 - 1) ∙ ap (λ t. set a i t) (omega arith) ∙ set-get_or a i 0 in
        ground (arith, here, back)
    | inr e ↦ ground arith
  ]

-- `verify_piece`, with the digest of the crate sha1 as a parameter.
unfoldable pub verify_piece : (Bytes → Bytes) → Bytes → Bytes → Bool
verify_piece sha1 bytes expected_hash = bytes_eq (sha1 bytes) expected_hash
