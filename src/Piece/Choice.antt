-- ===== src/Piece/Choice.antt =====
-- What `PiecePicker::pick_next_piece` of crates/piece/src/lib.rs chooses.
use torrent_rust_cli.Common.{
  ℕ, ◌<◌, ◌≡◌, ◌≢◌, ◌⊎◌, true, false, Option, none, some, arith, inl, inr,
}
use mathlib.Core.Option
use torrent_rust_cli.Piece.Bits.{BitVecs}
use torrent_rust_cli.Piece.Bitfield.{get, get-set_at_self}
use torrent_rust_cli.Piece.Picker.{
  PiecePicker, IsValid, is_candidate, availability, pick_next_piece, mark_downloaded,
  mark_requested, first, sort_by_key, collect,
}
use torrent_rust_cli.Piece.Rarest.{IsRarest, HeadOf, first-sort_by_key}

module _ (v : BitVecs) (p : PiecePicker v) (peer : v.Vec) where
  abbrev head_of : Option (ℕ × ℕ)
  head_of = first (sort_by_key (collect (is_candidate v p peer) (availability v p) p.num_pieces 0))

  head_lem : HeadOf (is_candidate v p peer) (availability v p) 0 p.num_pieces head_of
  head_lem =
      first-sort_by_key (is_candidate v p peer) (availability v p) p.num_pieces 0 p.num_pieces
        (omega arith)

  picked :
      (o : Option (ℕ × ℕ)) (i : ℕ)
      → Option.map (λ c. c.0) o ≡ some i
      → HeadOf (is_candidate v p peer) (availability v p) 0 p.num_pieces o
      → IsRarest (is_candidate v p peer) (availability v p) 0 p.num_pieces i
  picked none i e h = cc
  picked (some (k, a)) i e h = let same : k ≡ i = cc in rw same at h.1

  unpicked :
      (o : Option (ℕ × ℕ))
      → Option.map (λ c. c.0) o ≡ none
      → HeadOf (is_candidate v p peer) (availability v p) 0 p.num_pieces o
      → (j : ℕ) → j < p.num_pieces
      → is_candidate v p peer j ≡ false
  unpicked none e h j l = h j (omega arith) l
  unpicked (some (k, a)) e h j l = cc

  -- The piece that is chosen is a candidate (neither downloaded nor requested, and the peer has it), no
  -- candidate is offered by fewer peers, and of those offered by as few it has the least index.
  pub pick_next_piece-IsRarest :
      (i : ℕ)
      → pick_next_piece v p peer ≡ some i
      → IsRarest (is_candidate v p peer) (availability v p) 0 p.num_pieces i
  unfolding pick_next_piece
  pick_next_piece-IsRarest i e = picked head_of i e head_lem

  -- Nothing is chosen only if no piece is a candidate.
  pub pick_next_piece-none :
      pick_next_piece v p peer ≡ none → (j : ℕ) → j < p.num_pieces → is_candidate v p peer j ≡ false
  unfolding pick_next_piece
  pick_next_piece-none e = unpicked head_of e head_lem

module _ (v : BitVecs) (p : PiecePicker v) (peer : v.Vec) (i : ℕ) where
  not_candidate :
      (get v p.requested i ≡ some true) ⊎ (get v p.downloaded i ≡ some true)
      → is_candidate v p peer i ≡ false
  unfolding is_candidate
  not_candidate (inl e) = ground arith
  not_candidate (inr e) = ground arith

  not_picked :
      (get v p.requested i ≡ some true) ⊎ (get v p.downloaded i ≡ some true)
      → pick_next_piece v p peer ≢ some i
  not_picked h e = cc (not_candidate h, (pick_next_piece-IsRarest v p peer i e).passes)

-- A piece in range that is marked as requested or as downloaded is not chosen again.
pub pick_next_piece-ne-marked :
    (v : BitVecs) (p : PiecePicker v) (peer : v.Vec) (i : ℕ)
    → IsValid v p
    → i < p.num_pieces
    → (pick_next_piece v (mark_requested v p i true) peer ≢ some i)
      × (pick_next_piece v (mark_downloaded v p i) peer ≢ some i)
unfolding mark_requested mark_downloaded
pick_next_piece-ne-marked v p peer i h l = (
  not_picked v _ peer i (inl (get-set_at_self v p.requested i true (omega arith))),
  not_picked v _ peer i (inr (get-set_at_self v p.downloaded i true (omega arith))),
)
