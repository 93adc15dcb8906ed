-- ===== src/Engine/Files.antt =====
-- `write_block` and `read_piece_from_disk` of crates/daemon/src/engine.rs. The files of the torrent stand
-- in the order of the metadata, each with its length there and what is in it on disk.
use torrent_rust_cli.Common.{
  ℕ, ◌+◌, ◌-◌, ◌*◌, [], ◌∷◌, ◌++◌, List, Option, none, some, Bytes, length, take, drop, replicate,
  min, leb, ltb, if◌then◌else◌, Outcome, ok, err, ◌>>=◌,
}

pub record DiskFile : Type 0 where
  pub size : ℕ
  pub content : Option Bytes

-- `Single`, with the one file, or `Multi`.
pub data Disk : Type 0 where
  single : DiskFile → Disk
  multi : List DiskFile → Disk

pub data FileError : Type 0 where
  not_found unexpected_eof refused : FileError

-- `seek` and `write_all`: a gap before the place is filled with zeros, and writing nothing does nothing.
unfoldable pub overwrite : ℕ → Bytes → Bytes → Bytes
overwrite offset [] c = c
overwrite offset (b ∷ bs) c =
    take offset c
    ++ (replicate (offset - length c) 0 ++ ((b ∷ bs) ++ drop (offset + length (b ∷ bs)) c))

-- `seek` and `read_exact`.
unfoldable pub read_at : ℕ → ℕ → Bytes → Outcome FileError Bytes
read_at offset n c =
    let left = drop offset c in if ltb (length left) n then err unexpected_eof else ok (take n left)

-- The loop over the files. One that is not there takes nothing of the block.
unfoldable pub write_files : List DiskFile → ℕ → Bytes → List DiskFile
unfolding overwrite
write_files [] offset block = []
write_files (f ∷ fs) offset block =
    let behind = write_files fs (offset - f.size) block in
    let n = min (length block) (f.size - offset) in
    let all_left = write_files fs 0 block in
    let some_left = write_files fs 0 (drop n block) in
    if leb f.size offset then f ∷ behind else elim f.content [
      | none ↦ f ∷ (if leb (length block) 0 then fs else all_left)
      | some c ↦
          record f { content = some (overwrite offset (take n block) c) }
          ∷ (if leb (length block) n then fs else some_left)
    ]

-- The loop over the files. One that is not there is passed over, and the offset stays as it is.
unfoldable pub read_files : List DiskFile → ℕ → ℕ → Outcome FileError Bytes
unfolding read_at
read_files [] offset len = ok []
read_files (f ∷ fs) offset len =
    let behind = read_files fs (offset - f.size) len in
    let skipped = read_files fs offset len in
    let n = min len (f.size - offset) in
    let more = read_files fs 0 (len - n) in
    if leb f.size offset then behind else elim f.content [
      | none ↦ skipped
      | some c ↦ read_at offset n c >>= λ front.
          if leb len n then ok front else more >>= λ back. ok (front ++ back)
    ]

-- The buffer begins as zeros.
unfoldable pub read_piece_from_disk : Disk → ℕ → ℕ → Outcome FileError Bytes
read_piece_from_disk (single f) offset len = elim f.content [
  | none ↦ err not_found
  | some c ↦ read_at offset len c
]
read_piece_from_disk (multi files) offset len =
    read_files files offset len >>= λ bs. ok (bs ++ replicate (len - length bs) 0)

unfoldable pub write_block : ℕ → Disk → ℕ → ℕ → Bytes → Outcome FileError Disk
write_block piece_length (single f) piece_index offset block =
    let absolute_offset = piece_index * piece_length + offset in
    let to_write = min (length block) (f.size - absolute_offset) in
    elim f.content [
      | none ↦ err not_found
      | some c ↦
          ok (
            single
              (record f { content = some (overwrite absolute_offset (take to_write block) c) }))
    ]
write_block piece_length (multi files) piece_index offset block =
    ok (multi (write_files files (piece_index * piece_length + offset) block))
