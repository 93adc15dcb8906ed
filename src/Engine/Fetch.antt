-- ===== src/Engine/Fetch.antt =====
-- What the sessions of crates/daemon/src/engine.rs ask for, count and give back.
use torrent_rust_cli.Common.{
  ℕ, ◌+◌, ◌-◌, ◌*◌, ◌%◌, ◌^◌, ◌≤◌, ◌<◌, ◌≡◌, refl, ap, ◌∙◌, true, false, [], ◌∷◌, ◌++◌, List, Bytes,
  length, get_or, set, min, leb, ltb, ◌==◌, if◌then◌else◌, Outcome, ok, err, panic, out_of_fuel,
  ◌>>=◌, Settles, returns, fails, panics, Settles-if, Settles-bind, Settles-ok, Option-cases, ap₂,
  arith, Bool-cases, inl, inr, get_or-set_self, subst,
}
use native.Mathlib.Nat.{mod-eq_of_lt}
use torrent_rust_cli.Common.Texts.{codes}
use torrent_rust_cli.Peer.Message.{
  PeerMessage, keep_alive, choke, unchoke, interested, not_interested, have, bitfield, request,
  piece, cancel, extended, port, unknown,
}
use torrent_rust_cli.Engine.Files.{Disk, single, multi, FileError, write_block}
use torrent_rust_cli.Engine.Session.{
  Torrent, PieceGuard, Layout, Step, take_first, take_missing, serve, open_session,
  get_request_length, short_length, next_request, count_block, piece_target_size, close_piece,
  advance, on_piece, on_request, on_message, close_session,
}

-- What `get_request_length` answers, as a block of the piece and of the torrent, at the place where
-- `on_piece` writes it.
pub record IsInside (l : Layout) (p_index b_offset n : ℕ) : Type 0 where
  pub at_most_16k : n ≤ 16384
  pub in_piece : b_offset + n ≤ l.piece_length
  pub in_torrent : 0 < n → p_index * l.piece_length + b_offset + n ≤ l.total_size

-- Where the length of a request is computed, for pieces of fewer than 2 ^ 32 bytes, it is at most 16384,
-- the block lies inside its piece, and inside the torrent if it is not empty.
pub get_request_length-IsInside :
    (l : Layout) (p_index b_offset n : ℕ)
    → l.piece_length < 2 ^ 32
    → get_request_length l p_index b_offset ≡ ok n
    → IsInside l p_index b_offset n
unfolding get_request_length
get_request_length-IsInside l p_index b_offset n short h =
    let all : short_length l ≡ l.piece_length = mod-eq_of_lt short in
    elim (Bool-cases (ltb (short_length l) b_offset)) [
      | inl e ↦ absurd (let h' = rw e at h in cc)
      | inr e ↦
          let piece_start = p_index * short_length l in
          let answer =
            min (min 16384 (l.total_size - (piece_start + b_offset))) (short_length l - b_offset) in
          let same : answer ≡ n = let h' = rw e at h in cc in
          let room : b_offset ≤ short_length l = ground arith in
          record {
            at_most_16k = omega (arith, same);
            in_piece = omega (arith, same, room, all);
            in_torrent = λ q.
                subst (λ k. p_index * k + b_offset + n ≤ l.total_size) all
                  (omega (arith, same, room, q));
          }
    ]

-- A session that ends before a block came puts the piece that it took behind the other missing ones,
-- and leaves the bytes that are counted, the number of peers, the pieces that are had and the files as
-- they were.
close_session-open_session :
    (t : Torrent) (p : ℕ) (ps : List ℕ)
    → t.missing_pieces ≡ p ∷ ps
    → close_session (open_session t).torrent (open_session t).guard ≡ record t {
      missing_pieces = ps ++ (p ∷ []);
      status = if ltb t.downloaded t.size then codes "Downloading" else t.status;
    }
unfolding close_session open_session take_missing take_first
close_session-open_session t p ps e =
    let same : t.peers_connected + 1 - 1 ≡ t.peers_connected = omega arith in
    let all : t.downloaded - 0 ≡ t.downloaded = omega arith in
    rw e (
      ap₂
        (λ k d. record t {
          peers_connected = k;
          downloaded = d;
          missing_pieces = ps ++ (p ∷ []);
          status = if ltb d t.size then codes "Downloading" else t.status;
        })
        same all)

-- The counted bytes do not pass the size, which is the given one.
abbrev IsBounded : ℕ → Torrent → Type 0
IsBounded size t = (t.downloaded ≤ t.size) × (t.size ≡ size)

take_first-IsBounded :
    (size : ℕ) (ms : List ℕ) (t : Torrent) (g : PieceGuard)
    → IsBounded size t
    → IsBounded size (take_first ms t g).0
unfolding take_first
take_first-IsBounded size [] t g h = h
take_first-IsBounded size (p ∷ ps) t g h = h

module _ (l : Layout) where
  next_request-Settles : (g : PieceGuard) → Settles (λ sent. Unit {0}) (next_request l g)
  unfolding next_request get_request_length
  next_request-Settles g =
      Settles-if g.is_complete (λ e. returns tt)
        (λ e.
          Settles-bind {P = λ n. Unit {0}}
            (Settles-if (ltb (short_length l) g.block_offset) (λ e. panics) (λ e. returns tt))
            (λ n u. Settles-if (ltb 0 n) (λ e. returns tt) (λ e. returns tt)))

  asking-Settles :
      (size : ℕ) (t : Torrent) (g : PieceGuard) (done : List ℕ)
      → IsBounded size t
      → Settles
          (λ (s : Step). IsBounded size s.torrent)
          (next_request l g >>= λ sent.
            ok (record { torrent = t; guard = g; sent = sent; broadcast = done }))
  asking-Settles size t g done h = Settles-bind (next_request-Settles g) (λ sent u. returns h)

  advance-Settles :
      (size : ℕ) (t : Torrent) (g : PieceGuard) (n : ℕ)
      → IsBounded size t
      → Settles (λ (s : Step). IsBounded size s.torrent) (advance l t g n)
  unfolding advance close_piece take_missing piece_target_size
  advance-Settles size t g n h =
      let moved : PieceGuard = record g { block_offset = g.block_offset + n } in
      let closed = close_piece l t moved in
      let closed_bounded : IsBounded size closed.0 =
        take_first-IsBounded size t.missing_pieces _ _ h in
      Settles-if (ltb (g.block_offset + n) (2 ^ 32))
        (λ e.
          Settles-bind {P = λ k. Unit {0}}
            (Settles-if (l.total_pieces == 0) (λ e. panics)
              (λ e.
                Settles-if (g.piece_index == l.total_pieces - 1) (λ e. returns tt)
                  (λ e. returns tt)))
            (λ target u.
              Settles-if (leb target (g.block_offset + n))
                (λ e. asking-Settles size closed.0 closed.1 (g.piece_index ∷ []) closed_bounded)
                (λ e. asking-Settles size t moved [] h)))
        (λ e. panics)

  write_block-Settles :
      (d : Disk) (index begin : ℕ) (block : Bytes)
      → Settles (λ d'. Unit {0}) (write_block l.piece_length d index begin block)
  unfolding write_block
  write_block-Settles (single f) index begin block = elim (Option-cases f.content) [
    | inl e ↦ rw e fails
    | inr (c, e) ↦ rw e (returns tt)
  ]
  write_block-Settles (multi fs) index begin block = returns tt

  serve-IsBounded :
      (size : ℕ) (t : Torrent) (g : PieceGuard) (index begin len : ℕ) (r : Outcome FileError Bytes)
      → IsBounded size t
      → IsBounded size (serve l t g index begin len r).torrent
  unfolding serve
  serve-IsBounded size t g index begin len (ok block) h = h
  serve-IsBounded size t g index begin len (err e) h = h
  serve-IsBounded size t g index begin len panic h = h
  serve-IsBounded size t g index begin len out_of_fuel h = h

  on_request-IsBounded :
      (size : ℕ) (t : Torrent) (g : PieceGuard) (index begin len : ℕ)
      → IsBounded size t
      → IsBounded size (on_request l t g index begin len).torrent
  unfolding on_request
  on_request-IsBounded size t g index begin len h =
      elim (Bool-cases (get_or t.have_pieces index false)) [
        | inl e ↦ rw e (serve-IsBounded size t g index begin len _ h)
        | inr e ↦ rw e h
      ]

  -- Where the bytes that are counted as downloaded do not pass the size of the torrent, every
  -- message of a peer is dealt with, fails in the files or panics, and they do not pass it
  -- afterwards; the size stays the same.
  pub on_message-Settles :
      (t : Torrent) (g : PieceGuard) (m : PeerMessage)
      → t.downloaded ≤ t.size
      → Settles
          (λ s. (s.torrent.downloaded ≤ s.torrent.size) × (s.torrent.size ≡ t.size))
          (on_message l t g m)
  unfolding on_message on_piece count_block
  on_message-Settles t g unchoke h =
      Settles-bind (next_request-Settles g) (λ sent u. returns (h, refl))
  on_message-Settles t g (piece index begin block) h =
      Settles-bind (write_block-Settles t.disk index begin block)
        (λ d u. advance-Settles t.size _ g _ (omega arith, refl))
  on_message-Settles t g interested h = returns (h, refl)
  on_message-Settles t g (request index begin len) h =
      returns (on_request-IsBounded t.size t g index begin len (h, refl))
  on_message-Settles t g keep_alive h = returns (h, refl)
  on_message-Settles t g choke h = returns (h, refl)
  on_message-Settles t g not_interested h = returns (h, refl)
  on_message-Settles t g (have index) h = returns (h, refl)
  on_message-Settles t g (bitfield bits) h = returns (h, refl)
  on_message-Settles t g (cancel index begin len) h = returns (h, refl)
  on_message-Settles t g (extended msg_id payload) h = returns (h, refl)
  on_message-Settles t g (port p) h = returns (h, refl)
  on_message-Settles t g (unknown id body) h = returns (h, refl)

take_first-have_pieces :
    (ms : List ℕ) (t : Torrent) (g : PieceGuard) → (take_first ms t g).0.have_pieces ≡ t.have_pieces
unfolding take_first
take_first-have_pieces [] t g = refl
take_first-have_pieces (p ∷ ps) t g = refl

module _ (l : Layout) (g : PieceGuard) (target : ℕ) where
  abbrev Has : Step → Type 0
  Has s = get_or s.torrent.have_pieces g.piece_index false ≡ true

  advance-Has :
      (t : Torrent) (n : ℕ)
      → piece_target_size l g.piece_index ≡ ok target
      → target ≤ g.block_offset + n
      → g.piece_index < length t.have_pieces
      → Settles (λ (s : Step). Has s) (advance l t g n)
  unfolding advance close_piece take_missing
  advance-Has t n e full i =
      let moved : PieceGuard = record g { block_offset = g.block_offset + n } in
      let closed = close_piece l t moved in
      let marked = set t.have_pieces g.piece_index true in
      let had : get_or closed.0.have_pieces g.piece_index false ≡ true =
        ap (λ h. get_or h g.piece_index false) (take_first-have_pieces t.missing_pieces _ _)
        ∙ get_or-set_self t.have_pieces g.piece_index true false i in
      let test : leb target (g.block_offset + n) ≡ true = ground arith in
      Settles-if (ltb (g.block_offset + n) (2 ^ 32))
        (λ h. rw (e, test) (Settles-bind (next_request-Settles l closed.1) (λ sent u. returns had)))
        (λ h. panics)

  -- A session counts the bytes of a piece message towards the piece that it fetches, whatever
  -- piece and place the message is for: where the step is done, the block is shorter than 2 ^ 32
  -- bytes, it makes up the length of the piece with those before it, and the piece is one of the
  -- torrent, that piece is marked as had.
  pub on_piece_marks :
      (t : Torrent) (index begin : ℕ) (block : Bytes) (s : Step)
      → piece_target_size l g.piece_index ≡ ok target
      → target ≤ g.block_offset + length block
      → length block < 2 ^ 32
      → g.piece_index < length t.have_pieces
      → on_piece l t g index begin block ≡ ok s
      → get_or s.torrent.have_pieces g.piece_index false ≡ true
  unfolding on_piece count_block
  on_piece_marks t index begin block s e full small i done =
      let same : length block % 2 ^ 32 ≡ length block = omega (arith, small) in
      Settles-ok {P = λ (r : Step). Has r}
        (Settles-bind (write_block-Settles l t.disk index begin block)
          (λ d u. advance-Has _ (length block % 2 ^ 32) e (omega (arith, full, same)) i))
        done
