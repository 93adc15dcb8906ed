-- ===== src/Engine/Session.antt =====
-- `peer_loop` of crates/daemon/src/engine.rs: the session with a peer, as steps on the messages that
-- arrive. The times of the last transfers, logging and timeouts are left out. The numbers of pieces,
-- offsets and lengths are u32, and their arithmetic panics where it leaves the type; the counters of 64
-- bits are taken not to reach 2 ^ 64.
use Prim.Native.Nat.{bit_or}
use torrent_rust_cli.Common.{
  ℕ, ◌+◌, ◌-◌, ◌*◌, ◌/◌, ◌%◌, ◌^◌, Bool, true, false, [], ◌∷◌, ◌++◌, List, Bytes, length, replicate,
  get_or, set, min, leb, ltb, ◌==◌, if◌then◌else◌, Outcome, ok, panic, ◌>>=◌,
}
use torrent_rust_cli.Common.Texts.{codes}
use torrent_rust_cli.Peer.Message.{PeerMessage, unchoke, interested, have, bitfield, request, piece}
use torrent_rust_cli.Engine.Files.{Disk, FileError, read_piece_from_disk, write_block}

-- The state of the torrent that its sessions share (`TorrentState`, `missing_pieces`, `have_pieces`).
pub record Torrent : Type 0 where
  pub size : ℕ
  pub downloaded : ℕ
  pub uploaded : ℕ
  pub status : Bytes
  pub peers_connected : ℕ
  pub missing_pieces : List ℕ
  pub have_pieces : List Bool
  pub disk : Disk

-- `PieceGuard`: the piece that the session fetches.
pub record PieceGuard : Type 0 where
  pub piece_index : ℕ
  pub block_offset : ℕ
  pub is_complete : Bool

-- What of the metadata a session uses: the lengths, and the number of pieces.
pub record Layout : Type 0 where
  pub piece_length : ℕ
  pub total_pieces : ℕ
  pub total_size : ℕ

-- The state, what is sent, and what is broadcast to the other sessions.
pub record Step : Type 0 where
  pub torrent : Torrent
  pub guard : PieceGuard
  pub sent : List PeerMessage
  pub broadcast : List ℕ

-- The first of the missing pieces is taken (`remove(0)`); where there is none, the guard stays.
unfoldable pub take_first : List ℕ → Torrent → PieceGuard → Torrent × PieceGuard
take_first [] t g = (t, g)
take_first (p ∷ ps) t g = (
  record t { missing_pieces = ps },
  record { piece_index = p; block_offset = 0; is_complete = false },
)

unfoldable pub take_missing : Torrent → PieceGuard → Torrent × PieceGuard
unfolding take_first
take_missing t g = take_first t.missing_pieces t g

-- The bits of `have_pieces`, the first in the highest bit of the first byte.
unfoldable pub set_bits : ℕ → List Bool → Bytes → Bytes
set_bits i [] bytes = bytes
set_bits i (has ∷ rest) bytes =
    let marked = set bytes (i / 8) (bit_or (get_or bytes (i / 8) 0) (2 ^ (7 - i % 8))) in
    set_bits (i + 1) rest (if has then marked else bytes)

unfoldable pub bitfield_bytes : List Bool → Bytes
unfolding set_bits
bitfield_bytes have_pieces = set_bits 0 have_pieces (replicate ((length have_pieces + 7) / 8) 0)

-- The start of the session: it is counted, greets the peer, and takes a piece.
unfoldable pub open_session : Torrent → Step
open_session t =
    let counted = record t { peers_connected = t.peers_connected + 1 } in
    let (t', g) =
      take_missing counted (record { piece_index = 0; block_offset = 0; is_complete = true }) in
    record {
      torrent = t';
      guard = g;
      sent = bitfield (bitfield_bytes t.have_pieces) ∷ interested ∷ unchoke ∷ [];
      broadcast = [];
    }

module _ (l : Layout) where
  -- `piece_length as u32`
  abbrev pub short_length : ℕ
  short_length = l.piece_length % 2 ^ 32

  unfoldable pub get_request_length : ℕ → ℕ → Outcome FileError ℕ
  get_request_length p_index b_offset =
      let piece_start = p_index * short_length in
      let remaining_in_torrent = l.total_size - (piece_start + b_offset) in
      if ltb short_length b_offset
      then panic
      else ok (min (min 16384 remaining_in_torrent) (short_length - b_offset))

  -- The next block of the open piece is asked for.
  unfoldable pub next_request : PieceGuard → Outcome FileError (List PeerMessage)
  next_request g =
      if g.is_complete
      then ok []
      else get_request_length g.piece_index g.block_offset >>= λ req_len.
          if ltb 0 req_len then ok (request g.piece_index g.block_offset req_len ∷ []) else ok []

  -- The bytes are counted, never past the size.
  unfoldable pub count_block : ℕ → Torrent → Torrent
  count_block n t =
      let downloaded = min (t.downloaded + n) t.size in
      record t {
        downloaded = downloaded;
        status = if leb t.size downloaded then codes "Completed" else codes "Downloading";
      }

  unfoldable pub piece_target_size : ℕ → Outcome FileError ℕ
  piece_target_size p_index =
      if l.total_pieces == 0
      then panic
      else if p_index == l.total_pieces - 1
      then ok ((l.total_size - p_index * short_length) % 2 ^ 32)
      else ok short_length

  -- The piece is had, and the next one is taken.
  unfoldable pub close_piece : Torrent → PieceGuard → Torrent × PieceGuard
  unfolding take_missing
  close_piece t g =
      take_missing (record t { have_pieces = set t.have_pieces g.piece_index true })
        (record g { is_complete = true })

  -- After the block is written and counted. Neither the index nor the place of the block is compared
  -- with the piece that the session fetches.
  unfoldable pub advance : Torrent → PieceGuard → ℕ → Outcome FileError Step
  unfolding next_request close_piece piece_target_size get_request_length
  advance t g n =
      let offset = g.block_offset + n in
      let moved = record g { block_offset = offset } in
      let (t', g') = close_piece t moved in
      if ltb offset (2 ^ 32)
      then (piece_target_size g.piece_index >>= λ target.
          if leb target offset
          then (next_request g' >>= λ sent.
              ok (record { torrent = t'; guard = g'; sent = sent; broadcast = g.piece_index ∷ [] }))
          else (next_request moved >>= λ sent.
              ok (record { torrent = t; guard = moved; sent = sent; broadcast = [] })))
      else panic

  unfoldable pub on_piece : Torrent → PieceGuard → ℕ → ℕ → Bytes → Outcome FileError Step
  unfolding advance
  on_piece t g index begin block = write_block l.piece_length t.disk index begin block >>= λ disk.
      advance (count_block (length block) (record t { disk = disk })) g (length block % 2 ^ 32)

  unfoldable pub serve : Torrent → PieceGuard → ℕ → ℕ → ℕ → Outcome FileError Bytes → Step
  serve t g index begin len (ok block) = record {
    torrent = record t { uploaded = t.uploaded + len };
    guard = g;
    sent = piece index begin block ∷ [];
    broadcast = [];
  }
  serve t g index begin len _ = record { torrent = t; guard = g; sent = []; broadcast = [] }

  -- A block of a piece that is had is served; where it cannot be read, nothing is sent.
  unfoldable pub on_request : Torrent → PieceGuard → ℕ → ℕ → ℕ → Step
  unfolding serve
  on_request t g index begin len =
      if get_or t.have_pieces index false
      then serve t g index begin len
          (read_piece_from_disk t.disk (index * short_length + begin) len)
      else record { torrent = t; guard = g; sent = []; broadcast = [] }

  unfoldable pub on_message : Torrent → PieceGuard → PeerMessage → Outcome FileError Step
  unfolding next_request on_piece on_request
  on_message t g unchoke =
      next_request g >>= λ sent. ok (record { torrent = t; guard = g; sent = sent; broadcast = [] })
  on_message t g (piece index begin block) = on_piece t g index begin block
  on_message t g interested =
      ok (record { torrent = t; guard = g; sent = unchoke ∷ []; broadcast = [] })
  on_message t g (request index begin len) = ok (on_request t g index begin len)
  on_message t g _ = ok (record { torrent = t; guard = g; sent = []; broadcast = [] })

-- A piece that another session completed is announced.
unfoldable pub on_broadcast : Torrent → PieceGuard → ℕ → Step
on_broadcast t g piece_index = record {
  torrent = t;
  guard = g;
  sent = have piece_index ∷ [];
  broadcast = [];
}

-- The end of the session, by an error or by the peer: the drop of both guards. A piece that is not
-- complete is given back.
unfoldable pub close_session : Torrent → PieceGuard → Torrent
close_session t g =
    let counted = record t { peers_connected = t.peers_connected - 1 } in
    let downloaded = t.downloaded - g.block_offset in
    if g.is_complete then counted else record counted {
      downloaded = downloaded;
      status = if ltb downloaded t.size then codes "Downloading" else t.status;
      missing_pieces = t.missing_pieces ++ (g.piece_index ∷ []);
    }
