-- ===== src/Engine/Flat.antt =====
-- The files of a torrent as one sequence of bytes: what `write_block` and `read_piece_from_disk` of
-- crates/daemon/src/engine.rs do to it, while all files are there in the length of the metadata.
use torrent_rust_cli.Common.{
  ℕ, zero, suc, ◌+◌, ◌-◌, ◌*◌, ◌≤◌, ◌<◌, ◌≡◌, refl, sym, ap, ap₂, ◌∙◌, [], ◌∷◌, ◌++◌, append-nil,
  List, map, some, Bytes, length, take, drop, replicate, min, leb, ok, arith, concat, length-take,
  length-drop, length-append, take_whole, take-append-drop, take-append, Bool-cases, inl, inr,
  le→ltb,
}
use torrent_rust_cli.Engine.Files.{
  DiskFile, Disk, single, multi, overwrite, read_at, write_files, read_files, read_piece_from_disk,
  write_block,
}
use torrent_rust_cli.Engine.Splice.{
  splice, overwrite-splice, length-splice, splice_behind, splice_within, splice_across, drop_behind,
  drop_within, take_within, take_behind,
}

-- A file that is there in its length.
abbrev pub whole : Bytes → DiskFile
whole c = record { size = length c; content = some c }

overwrite-whole :
    (offset : ℕ) (block c : Bytes)
    → offset + length block ≤ length c
    → record (whole c) { content = some (overwrite offset block c) } ≡ whole (splice offset block c)
overwrite-whole offset block c h =
    ap₂ (λ k x. record { size = k; content = some x }) (sym (length-splice offset block c h))
      (overwrite-splice offset block c h)

-- The files after writing, as their bytes.
pub record Written (cs : List Bytes) (offset : ℕ) (block : Bytes) : Type 0 where
  pub files : List Bytes
  pub writes : write_files (map whole cs) offset block ≡ map whole files
  pub flat : concat files ≡ splice offset block (concat cs)

write_files-Written :
    (cs : List Bytes) (offset : ℕ) (block : Bytes)
    → offset + length block ≤ length (concat cs)
    → Written cs offset block
unfolding write_files
write_files-Written [] zero [] h = record { files = []; writes = refl; flat = refl }
write_files-Written [] zero (b ∷ bs) h = absurd (omega arith)
write_files-Written [] (suc offset) block h = absurd (omega arith)
write_files-Written (c ∷ cs) offset block h =
    let total = length-append c (concat cs) in
    let n = min (length block) (length c - offset) in
    let front = take n block in
    let back = drop n block in
    let front_size = length-take n block in
    elim (Bool-cases (leb (length c) offset)) [
      | inl e ↦
          let behind : length c ≤ offset = ground arith in
          let w =
            write_files-Written cs (offset - length c) block (omega (arith, total, behind, h)) in
          record {
            files = c ∷ w.files;
            writes = rw e (ap (λ t. whole c ∷ t) w.writes);
            flat = ap (λ t. c ++ t) w.flat ∙ sym (splice_behind offset block c (concat cs) behind);
          }
      | inr e ↦
          let within : offset < length c = ground arith in
          let fits : offset + length front ≤ length c = omega (arith, within, front_size) in
          elim (Bool-cases (leb (length block) n)) [
            | inl p ↦
                let all : front ≡ block = take_whole n block (ground arith) in
                record {
                  files = splice offset front c ∷ cs;
                  writes =
                      rw (e, p) (ap (λ t. t ∷ map whole cs) (overwrite-whole offset front c fits));
                  flat =
                      sym (splice_within offset front c (concat cs) fits)
                      ∙ ap (λ t. splice offset t (c ++ concat cs)) all;
                }
            | inr p ↦
                let more : n < length block = ground arith in
                let w =
                  write_files-Written cs 0 back
                    (omega (arith, total, h, more, within, length-drop n block)) in
                record {
                  files = splice offset front c ∷ w.files;
                  writes =
                      rw (e, p) (ap₂ (λ x t. x ∷ t) (overwrite-whole offset front c fits) w.writes);
                  flat =
                      ap (λ t. splice offset front c ++ t) w.flat
                      ∙ sym (
                          splice_across offset front back c (concat cs)
                            (omega (arith, within, more, front_size)))
                      ∙ ap (λ t. splice offset t (c ++ concat cs)) (take-append-drop n block);
                }
          ]
    ]

read_at_within :
    (offset n : ℕ) (c : Bytes)
    → offset + n ≤ length c
    → read_at offset n c ≡ ok (take n (drop offset c))
unfolding read_at
read_at_within offset n c h =
    rw (le→ltb (length (drop offset c)) n (omega (arith, h, length-drop offset c)))

read_files-flat :
    (cs : List Bytes) (offset len : ℕ)
    → offset + len ≤ length (concat cs)
    → read_files (map whole cs) offset len ≡ ok (take len (drop offset (concat cs)))
unfolding read_files
read_files-flat [] zero zero h = refl
read_files-flat [] zero (suc len) h = absurd (omega arith)
read_files-flat [] (suc offset) len h = absurd (omega arith)
read_files-flat (c ∷ cs) offset len h =
    let total = length-append c (concat cs) in
    let rest = concat cs in
    let n = min len (length c - offset) in
    let left_size = length-drop offset c in
    elim (Bool-cases (leb (length c) offset)) [
      | inl e ↦
          let behind : length c ≤ offset = ground arith in
          rw e (
            read_files-flat cs (offset - length c) len (omega (arith, total, behind, h))
            ∙ ap (λ t. ok (take len t))
                (sym (drop_behind offset (offset - length c) c rest (omega (arith, behind)))))
      | inr e ↦
          let within : offset < length c = ground arith in
          let here = read_at_within offset n c (omega (arith, within)) in
          let parts = drop_within offset c rest (omega (arith, within)) in
          elim (Bool-cases (leb len n)) [
            | inl p ↦
                let fits : len ≤ length c - offset = ground arith in
                let same : n ≡ len = omega (arith, fits) in
                rw (e, here, p)
                  (ap (λ k. ok (take k (drop offset c))) same
                    ∙ ap ok (
                        sym (
                          ap (λ t. take len t) parts
                          ∙ take_within len (drop offset c) rest (omega (arith, fits, left_size)))))
            | inr p ↦
                let more : n < len = ground arith in
                let all : take n (drop offset c) ≡ drop offset c =
                  take_whole n (drop offset c) (omega (arith, more, left_size)) in
                rw
                  (
                    e,
                    here,
                    p,
                    read_files-flat cs 0 (len - n) (omega (arith, total, h, more, within)),
                  )
                  (ap (λ t. ok (t ++ take (len - n) rest)) all
                    ∙ ap ok (
                        sym (
                          ap (λ t. take len t) parts
                          ∙ take_behind len (len - n) (drop offset c) rest
                              (omega (arith, more, left_size, within)))))
          ]
    ]

-- The files are all there, in the lengths of the metadata, and hold these bytes one after the other.
abbrev pub IsFlat : Disk → Bytes → Type 0
IsFlat (single f) bs = f ≡ whole bs
IsFlat (multi fs) bs = (cs : List Bytes) × (fs ≡ map whole cs) × (concat cs ≡ bs)

-- While the files are all there in the lengths of the metadata, a block that lies inside the
-- torrent is written at its place in the sequence of all bytes, across the borders of the files;
-- nothing else of the sequence is changed, and the files are again all there.
pub write_block-splice :
    (piece_length : ℕ) (d : Disk) (bs : Bytes) (piece_index offset : ℕ) (block : Bytes)
    → IsFlat d bs
    → piece_index * piece_length + offset + length block ≤ length bs
    → (d' : Disk) × (write_block piece_length d piece_index offset block ≡ ok d')
      × IsFlat d' (splice (piece_index * piece_length + offset) block bs)
unfolding write_block
write_block-splice piece_length (single f) bs piece_index offset block flat h =
    let at = piece_index * piece_length + offset in
    let all : take (min (length block) (length bs - at)) block ≡ block =
      take_whole _ block (omega (arith, h)) in
    (
      single (record (whole bs) { content = some (overwrite at block bs) }),
      ap (λ g. write_block piece_length (single g) piece_index offset block) flat
          ∙ ap (λ t. ok (single (record (whole bs) { content = some (overwrite at t bs) }))) all,
      overwrite-whole at block bs h,
    )
write_block-splice piece_length (multi fs) bs piece_index offset block (cs, e, q) h =
    let at = piece_index * piece_length + offset in
    let w = write_files-Written cs at block (rw (← q) at h) in
    (
      multi (map whole w.files),
      rw (e, w.writes),
      (w.files, refl, w.flat ∙ ap (λ t. splice at block t) q),
    )

-- While the files are all there in the lengths of the metadata, what is read inside the torrent
-- are the bytes at that place of the sequence of all bytes, across the borders of the files.
pub read_piece_from_disk-flat :
    (d : Disk) (bs : Bytes) (offset len : ℕ)
    → IsFlat d bs
    → offset + len ≤ length bs
    → read_piece_from_disk d offset len ≡ ok (take len (drop offset bs))
unfolding read_piece_from_disk
read_piece_from_disk-flat (single f) bs offset len flat h = rw flat (read_at_within offset len bs h)
read_piece_from_disk-flat (multi fs) bs offset len (cs, e, q) h =
    let found = take len (drop offset (concat cs)) in
    let h' : offset + len ≤ length (concat cs) = rw (← q) at h in
    let size : len - length found ≡ 0 =
      omega
        (arith, h', length-take len (drop offset (concat cs)), length-drop offset (concat cs)) in
    rw (e, read_files-flat cs offset len h')
      (ap (λ n. ok (found ++ replicate n (zero))) size
        ∙ ap ok (append-nil found)
        ∙ ap (λ t. ok (take len (drop offset t))) q)

drop-splice :
    (offset : ℕ) (block bs : Bytes)
    → offset ≤ length bs
    → take (length block) (drop offset (splice offset block bs)) ≡ block
drop-splice offset block bs h =
    let after = block ++ drop (offset + length block) bs in
    ap (λ t. take (length block) t)
      (drop_behind offset 0 (take offset bs) after (omega (arith, h, length-take offset bs)))
    ∙ take-append block (drop (offset + length block) bs)

-- While the files are all there in the lengths of the metadata, a block that was written inside
-- the torrent is what is read at its place.
pub read_piece_from_disk-write_block :
    (piece_length : ℕ) (d : Disk) (bs : Bytes) (piece_index offset : ℕ) (block : Bytes)
    → IsFlat d bs
    → piece_index * piece_length + offset + length block ≤ length bs
    → (d' : Disk) × (write_block piece_length d piece_index offset block ≡ ok d')
      × (read_piece_from_disk d' (piece_index * piece_length + offset) (length block) ≡ ok block)
read_piece_from_disk-write_block piece_length d bs piece_index offset block flat h =
    let at = piece_index * piece_length + offset in
    let (d', e, flat') = write_block-splice piece_length d bs piece_index offset block flat h in
    (
      d',
      e,
      read_piece_from_disk-flat d' (splice at block bs) at (length block) flat'
            (omega (arith, h, length-splice at block bs h))
          ∙ ap ok (drop-splice at block bs (omega (arith, h))),
    )
