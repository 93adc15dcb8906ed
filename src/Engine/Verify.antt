-- ===== src/Engine/Verify.antt =====
-- `verify_and_resume`, `initialize_files` and `verify_pieces` of crates/daemon/src/engine.rs: the files
-- on disk against the hashes of the metadata. Arithmetic that leaves u64 is a panic; once the check of
-- the pieces is through, the sum over those that are done fits. SHA-1 is a parameter, and so is which
-- paths the file system gives access to.
use torrent_rust_cli.Common.{
  ℕ, ◌+◌, ◌-◌, ◌*◌, ◌%◌, ◌^◌, Bool, true, false, [], ◌∷◌, ◌++◌, List, Option, none, some, Bytes,
  length, take, replicate, min, leb, ltb, ◌==◌, ◌&&◌, if◌then◌else◌, bytes_eq, Outcome, ok, err,
  panic, ◌>>=◌, map,
}
use torrent_rust_cli.Common.Texts.{codes}
use torrent_rust_cli.Meta.Types.{TorrentMeta, FileMode, TorrentFile, single, multi}
use torrent_rust_cli.Engine.Files.{Disk, FileError, refused, read_piece_from_disk}
use torrent_rust_cli.Engine.Session.{Torrent}

-- `files.iter().map(|f| f.length).sum()`
unfoldable pub sum_lengths : List TorrentFile → ℕ
sum_lengths [] = 0
sum_lengths (f ∷ fs) = f.length + sum_lengths fs

unfoldable pub total_size : FileMode → ℕ
unfolding sum_lengths
total_size (single length) = length
total_size (multi files) = sum_lengths files

module _ (sha1 : Bytes → Bytes) (disk : Disk) (piece_length total : ℕ) where
  -- A piece that cannot be read is not complete.
  unfoldable pub matches : Bytes → Outcome FileError Bytes → Bool
  matches expected_hash (ok piece_bytes) = bytes_eq (sha1 piece_bytes) expected_hash
  matches expected_hash _ = false

  -- The loop over the hashes, from the piece of the given index on; it ends at the first piece that
  -- begins behind the torrent, after the end of that piece is computed.
  unfoldable pub verify_from : ℕ → List Bytes → Outcome FileError (List Bool)
  unfolding matches
  verify_from i [] = ok []
  verify_from i (expected_hash ∷ hashes) =
      let piece_start = i * piece_length in
      let piece_end = min (piece_start + piece_length) total in
      let found = read_piece_from_disk disk piece_start (piece_end - piece_start) in
      let behind = verify_from (i + 1) hashes in
      let more = behind >>= λ rest. ok (matches expected_hash found ∷ rest) in
      if ltb (piece_start + piece_length) (2 ^ 64)
      then (if leb total piece_start
          then ok (replicate (length (expected_hash ∷ hashes)) false)
          else more)
      else panic

unfoldable pub verify_pieces : (Bytes → Bytes) → Disk → TorrentMeta → Outcome FileError (List Bool)
verify_pieces sha1 disk meta =
    let total = total_size meta.info.mode in
    let completed = verify_from sha1 disk meta.info.piece_length total 0 meta.info.pieces in
    if ltb total (2 ^ 64) then completed else panic

-- What is in the file at each path below that of the torrent, which is the path of no parts; files
-- with the same path are one file. Two paths are the same if their parts are.
abbrev pub Store : Type 0
Store = List Bytes → Option Bytes

unfoldable pub path_eq : List Bytes → List Bytes → Bool
path_eq [] [] = true
path_eq [] (y ∷ ys) = false
path_eq (x ∷ xs) [] = false
path_eq (x ∷ xs) (y ∷ ys) = bytes_eq x y && path_eq xs ys

unfoldable pub put_file : List Bytes → Bytes → Store → Store
put_file path content store = λ other. if path_eq other path then some content else store other

-- The files as the metadata lists them.
unfoldable pub disk_of : FileMode → Store → Disk
disk_of (single length) store = Disk.single (record { size = length; content = store [] })
disk_of (multi files) store =
    Disk.multi (map (λ f. record { size = f.length; content = store f.path }) files)

-- `set_len` on a file that is there or that `File::create` makes.
unfoldable pub set_len : ℕ → Option Bytes → Bytes
set_len n none = replicate n 0
set_len n (some c) = take n c ++ replicate (n - length c) 0

abbrev pub is_empty {ℓ} : {A : Type ℓ} → List A → Bool
is_empty [] = true
is_empty (x ∷ xs) = false

module _ (access : List Bytes → Bool) where
  -- A file is made or opened, and resized, where the directory above it can be made and the file
  -- system gives access to the path.
  unfoldable pub init_file : List Bytes → ℕ → Store → Outcome FileError Store
  unfolding set_len put_file
  init_file path n store =
      if access path then ok (put_file path (set_len n (store path)) store) else err refused

  -- The loop over the files of the metadata, up to the first that fails; one without a path is passed
  -- over.
  unfoldable pub init_files : List TorrentFile → Store → Outcome FileError Store
  unfolding init_file
  init_files [] store = ok store
  init_files (f ∷ fs) store =
      let skipped = init_files fs store in
      let made = init_file f.path f.length store >>= λ store'. init_files fs store' in
      if is_empty f.path then skipped else made

  -- For several files, the directory of no parts is made first.
  unfoldable pub initialize_files : FileMode → Store → Outcome FileError Store
  unfolding init_files
  initialize_files (single length) store = init_file [] length store
  initialize_files (multi files) store =
      let made = init_files files store in if access [] then made else err refused

-- The indices, as u32, of the pieces that are not done.
unfoldable pub missing_from : ℕ → List Bool → List ℕ
missing_from i [] = []
missing_from i (done ∷ rest) =
    let more = missing_from (i + 1) rest in if done then more else i % 2 ^ 32 ∷ more

unfoldable pub count_done : List Bool → ℕ
count_done [] = 0
count_done (done ∷ rest) = if done then count_done rest + 1 else count_done rest

module _ (total_pieces total piece_length : ℕ) where
  -- How many bytes a piece that is done counts for: the last one what is left of the torrent.
  unfoldable pub piece_len : ℕ → Outcome FileError ℕ
  piece_len i =
      if total_pieces == 0
      then panic
      else if i % 2 ^ 32 == total_pieces - 1
      then (if ltb total ((total_pieces - 1) * piece_length)
          then panic
          else ok (total - (total_pieces - 1) * piece_length))
      else ok piece_length

  -- The fold over the pieces.
  unfoldable pub downloaded_from : ℕ → List Bool → ℕ → Outcome FileError ℕ
  unfolding piece_len
  downloaded_from i [] acc = ok acc
  downloaded_from i (done ∷ rest) acc =
      let more = piece_len i >>= λ n. downloaded_from (i + 1) rest (acc + n) in
      let skipped = downloaded_from (i + 1) rest acc in if done then more else skipped

-- The torrent after the check, how many pieces are verified, and how many there are.
unfoldable pub resumed : TorrentMeta → List Bool → Torrent → Outcome FileError (Torrent × ℕ × ℕ)
resumed meta completed t =
    let total_pieces = length meta.info.pieces % 2 ^ 32 in
    let missing = missing_from 0 completed in
    downloaded_from total_pieces (total_size meta.info.mode) meta.info.piece_length 0 completed 0
    >>= λ verified. ok (
      record t {
        missing_pieces = missing;
        have_pieces = completed;
        downloaded = min verified t.size;
        status = if length missing == 0 then codes "Completed" else codes "Downloading";
      },
      count_done completed,
      total_pieces,
    )

unfoldable pub verify_and_resume :
    (Bytes → Bytes)
    → (List Bytes → Bool)
    → Store
    → TorrentMeta
    → Torrent
    → Outcome FileError (Torrent × ℕ × ℕ)
unfolding resumed
verify_and_resume sha1 access store meta t =
    initialize_files access meta.info.mode store >>= λ store'.
    let disk = disk_of meta.info.mode store' in
    verify_pieces sha1 disk meta >>= λ completed. resumed meta completed (record t { disk = disk })
