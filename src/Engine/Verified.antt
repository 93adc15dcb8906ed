-- ===== src/Engine/Verified.antt =====
-- What `verify_and_resume` of crates/daemon/src/engine.rs finds.
use torrent_rust_cli.Common.{
  ℕ, zero, suc, ◌+◌, ◌-◌, ◌*◌, ◌^◌, ◌≤◌, ◌<◌, ◌≡◌, refl, sym, ap, ap₂, ◌∙◌, Bool, true, false, [],
  ◌∷◌, List, map, Bytes, length, replicate, take, drop, min, leb, ltb, bytes_eq, bytes_eq_self, ok,
  arith, length-drop, drop_whole,
}
use native.Mathlib.Nat.{mod-eq_of_lt}
use torrent_rust_cli.Common.Texts.{codes}
use torrent_rust_cli.Meta.Types.{TorrentMeta}
use torrent_rust_cli.Creator.Pieces.{pieces_of, pieces_of_first, pieces_of_nil, pieces_of-size}
use torrent_rust_cli.Engine.Files.{Disk, read_piece_from_disk}
use torrent_rust_cli.Engine.Flat.{IsFlat, read_piece_from_disk-flat}
use torrent_rust_cli.Engine.Initialize.{IsAllowed, initialize_files_flat}
use torrent_rust_cli.Engine.Session.{Torrent}
use torrent_rust_cli.Engine.Verify.{
  Store, disk_of, total_size, matches, verify_from, verify_pieces, missing_from, count_done,
  piece_len, downloaded_from, resumed, verify_and_resume,
}

-- The reference: each piece of the bytes against its hash; a hash with no piece is not matched.
unfoldable pub matched : (Bytes → Bytes) → List Bytes → List Bytes → List Bool
matched sha1 pieces [] = []
matched sha1 [] (h ∷ hs) = false ∷ matched sha1 [] hs
matched sha1 (p ∷ ps) (h ∷ hs) = bytes_eq (sha1 p) h ∷ matched sha1 ps hs

matched_nil :
    (sha1 : Bytes → Bytes) (hs : List Bytes) → matched sha1 [] hs ≡ replicate (length hs) false
unfolding matched
matched_nil sha1 [] = refl
matched_nil sha1 (h ∷ hs) = ap (λ t. false ∷ t) (matched_nil sha1 hs)

drop-drop : (m n : ℕ) (bs : Bytes) → drop n (drop m bs) ≡ drop (m + n) bs
drop-drop zero n bs = ap (λ k. drop k bs) (omega arith)
drop-drop (suc m) n [] =
    drop_whole n [] (omega arith) ∙ sym (drop_whole (suc m + n) [] (omega arith))
drop-drop (suc m) n (b ∷ bs) =
    let same : suc (m + n) ≡ suc m + n = omega arith in
    drop-drop m n bs ∙ ap (λ k. drop k (b ∷ bs)) same

take-min : (n : ℕ) (bs : Bytes) → take (min n (length bs)) bs ≡ take n bs
take-min zero bs = let none : min 0 (length bs) ≡ 0 = omega arith in ap (λ k. take k bs) none
take-min (suc n) [] = let none : min (suc n) 0 ≡ 0 = omega arith in ap (λ k. take {A = ℕ} k []) none
take-min (suc n) (b ∷ bs) =
    let same : min (suc n) (suc (length bs)) ≡ suc (min n (length bs)) = omega arith in
    let cut_off : take (min (suc n) (suc (length bs))) (b ∷ bs)
        ≡ take (suc (min n (length bs))) (b ∷ bs) =
      ap (λ k. take k (b ∷ bs)) same in
    cut_off ∙ ap (λ t. b ∷ t) (take-min n bs)

module _ (sha1 : Bytes → Bytes) (disk : Disk) (l : ℕ) (pos : 0 < l) (bs : Bytes)
    (flat : IsFlat disk bs) (fits : length bs + 2 * l ≤ 2 ^ 64) where
  -- From a piece on, with what is left of the bytes there.
  verify_from-matched :
      (i : ℕ) (left : Bytes) (hashes : List Bytes)
      → drop (i * l) bs ≡ left
      → i * l < length bs + l
      → verify_from sha1 disk l (length bs) i hashes ≡ ok (matched sha1 (pieces_of l left) hashes)
  unfolding verify_from matched
  verify_from-matched i left [] e near = refl
  verify_from-matched i [] (h ∷ hs) e near =
      let in_u64 : ltb (i * l + l) (2 ^ 64) ≡ true = ground (arith, near, fits) in
      let ended : length bs ≤ i * l = omega (arith, ap (λ t. length t) e, length-drop (i * l) bs) in
      let test : leb (length bs) (i * l) ≡ true = ground arith in
      rw (in_u64, test)
        (ap ok (
          sym (matched_nil sha1 (h ∷ hs))
          ∙ ap (λ ps. matched sha1 ps (h ∷ hs)) (sym (pieces_of_nil l pos))))
  verify_from-matched i (b ∷ left) (h ∷ hs) e near =
      let in_u64 : ltb (i * l + l) (2 ^ 64) ≡ true = ground (arith, near, fits) in
      let size : length bs - i * l ≡ length (b ∷ left) =
        sym (length-drop (i * l) bs) ∙ ap (λ t. length t) e in
      let n = min (i * l + l) (length bs) - i * l in
      let least : n ≡ min l (length (b ∷ left)) = omega (arith, size) in
      let read : read_piece_from_disk disk (i * l) n ≡ ok (take l (b ∷ left)) =
        read_piece_from_disk-flat disk bs (i * l) n flat (omega (arith, size))
        ∙ ap₂ (λ k t. ok (take k t)) least e
        ∙ ap ok (take-min l (b ∷ left)) in
      let behind : drop ((i + 1) * l) bs ≡ drop l (b ∷ left) =
        let same : (i + 1) * l ≡ i * l + l = grind arith in
        ap (λ k. drop k bs) same ∙ sym (drop-drop (i * l) l bs) ∙ ap (λ t. drop l t) e in
      let next : (i + 1) * l < length bs + l =
        let same : (i + 1) * l ≡ i * l + l = grind arith in omega (arith, same, size) in
      let begun : leb (length bs) (i * l) ≡ false = ground (arith, size) in
      let rest = verify_from-matched (i + 1) (drop l (b ∷ left)) hs behind next in
      rw (in_u64, begun, read, matches, rest)
        (ap (λ ps. ok (matched sha1 ps (h ∷ hs))) (sym (pieces_of_first l pos b left)))

  -- For each hash, whether it is the digest of the piece of the same index.
  pub verify_from-matched_all :
      (hashes : List Bytes)
      → verify_from sha1 disk l (length bs) 0 hashes ≡ ok (matched sha1 (pieces_of l bs) hashes)
  verify_from-matched_all hashes =
      let start : 0 * l ≡ 0 = omega arith in
      verify_from-matched 0 bs hashes (ap (λ k. drop k bs) start) (omega (arith, pos))

matched_digests :
    (sha1 : Bytes → Bytes) (ps : List Bytes)
    → matched sha1 ps (map sha1 ps) ≡ replicate (length ps) true
unfolding matched
matched_digests sha1 [] = refl
matched_digests sha1 (p ∷ ps) =
    ap₂ (λ t u. t ∷ u) (bytes_eq_self (sha1 p)) (matched_digests sha1 ps)

missing_from_all : (i n : ℕ) → missing_from i (replicate n true) ≡ []
unfolding missing_from
missing_from_all i zero = refl
missing_from_all i (suc n) = missing_from_all (i + 1) n

count_done_all : (n : ℕ) → count_done (replicate n true) ≡ n
unfolding count_done
count_done_all zero = refl
count_done_all (suc n) = omega (arith, count_done_all n)

piece_len_full : (n total l i : ℕ) → i + 1 < n → n < 2 ^ 32 → piece_len n total l i ≡ ok l
unfolding piece_len
piece_len_full n total l i h s = ground arith

-- The pieces from one on, all done: the last counts for what is left of the torrent.
downloaded_from_all :
    (n total l k i acc : ℕ)
    → i + suc k ≡ n
    → n < 2 ^ 32
    → (n - 1) * l ≤ total
    → downloaded_from n total l i (replicate (suc k) true) acc
      ≡ ok (acc + k * l + (total - (n - 1) * l))
unfolding downloaded_from piece_len
downloaded_from_all n total l zero i acc e s h = ground arith
downloaded_from_all n total l (suc k) i acc e s h =
    let full = piece_len_full n total l i (omega arith) s in
    let more : acc + l + k * l ≡ acc + suc k * l = grind arith in
    rw (full, downloaded_from_all n total l k (i + 1) (acc + l) (omega arith) s h)
      (ap (λ m. ok (m + (total - (n - 1) * l))) more)

downloaded_all :
    (n total l : ℕ)
    → n < 2 ^ 32
    → (n - 1) * l ≤ total
    → (n ≡ 0 → total ≡ 0)
    → downloaded_from n total l 0 (replicate n true) 0 ≡ ok total
unfolding downloaded_from
downloaded_all zero total l s h no_pieces = ap ok (sym (no_pieces refl))
downloaded_all (suc k) total l s h no_pieces =
    let same : suc k - 1 ≡ k = omega arith in
    let bound : k * l ≤ total = rw same at h in
    let sum : 0 + k * l + (total - (suc k - 1) * l) ≡ total =
      ap (λ m. 0 + k * l + (total - m * l)) same ∙ omega (arith, bound) in
    downloaded_from_all (suc k) total l k 0 0 (omega arith) s h ∙ ap ok sum

length-map : (f : Bytes → Bytes) (xs : List Bytes) → length (map f xs) ≡ length xs
length-map f [] = refl
length-map f (x ∷ xs) = ap suc (length-map f xs)

pieces_count :
    (l : ℕ) (pos : 0 < l) (bs : Bytes)
    → ((length (pieces_of l bs) - 1) * l ≤ length bs)
      × (length (pieces_of l bs) ≡ 0 → length bs ≡ 0)
pieces_count l pos [] =
    let none : length (pieces_of l []) ≡ 0 = ap (λ t. length t) (pieces_of_nil l pos) in
    let zero_bytes : (length (pieces_of l []) - 1) * l ≡ 0 =
      ap (λ k. (k - 1) * l) none ∙ omega arith in
    (omega (arith, zero_bytes), λ e. refl)
pieces_count l pos (b ∷ bs) =
    let c = length (pieces_of l (drop l (b ∷ bs))) in
    let count : length (pieces_of l (b ∷ bs)) ≡ suc c =
      ap (λ t. length t) (pieces_of_first l pos b bs) in
    let size : suc c * l < length (b ∷ bs) + l = rw count at (pieces_of-size l pos (b ∷ bs)) in
    let split : suc c * l ≡ c * l + l = grind arith in
    let back : (length (pieces_of l (b ∷ bs)) - 1) * l ≡ c * l =
      let less : length (pieces_of l (b ∷ bs)) - 1 ≡ c = omega (arith, count) in
      ap (λ k. k * l) less in
    (omega (arith, size, split, back), λ e. absurd (omega (arith, e, count)))

-- What is reported when every piece is done.
resumed_all :
    (meta : TorrentMeta) (t : Torrent) (size : ℕ)
    → length meta.info.pieces < 2 ^ 32
    → downloaded_from
        (length meta.info.pieces)
        (total_size meta.info.mode)
        meta.info.piece_length
        0
        (replicate (length meta.info.pieces) true)
        0
      ≡ ok size
    → t.size ≡ size
    → resumed meta (replicate (length meta.info.pieces) true) t
      ≡ ok (
        record t {
          missing_pieces = [];
          have_pieces = replicate (length meta.info.pieces) true;
          downloaded = t.size;
          status = codes "Completed";
        },
        length meta.info.pieces,
        length meta.info.pieces,
      )
unfolding resumed
resumed_all meta t size few counted known =
    let least : min size t.size ≡ t.size = omega (arith, known) in
    rw
      (
        mod-eq_of_lt few,
        counted,
        least,
        missing_from_all 0 (length meta.info.pieces),
        count_done_all (length meta.info.pieces),
      )
      refl

-- While the files are there in their lengths, `verify_pieces` finds for each hash whether it is the
-- digest of the piece of the same index: for any number of hashes, pieces of at least one byte, and a
-- torrent that is shorter than 2 ^ 64 bytes by the length of two pieces or more, so that no end of a
-- piece overflows.
pub verify_pieces-matched :
    (sha1 : Bytes → Bytes) (disk : Disk) (meta : TorrentMeta) (bs : Bytes)
    → IsFlat disk bs
    → 0 < meta.info.piece_length
    → length bs + 2 * meta.info.piece_length ≤ 2 ^ 64
    → total_size meta.info.mode ≡ length bs
    → verify_pieces sha1 disk meta
      ≡ ok (matched sha1 (pieces_of meta.info.piece_length bs) meta.info.pieces)
unfolding verify_pieces
verify_pieces-matched sha1 disk meta bs flat pos fits size =
    let l = meta.info.piece_length in
    let in_u64 : ltb (length bs) (2 ^ 64) ≡ true = ground (arith, pos, fits) in
    rw (size, in_u64) (verify_from-matched_all sha1 disk l pos bs flat fits meta.info.pieces)

-- A torrent whose hashes are the digests of the pieces of what is on disk, in files that are there in
-- the lengths of the metadata, with access to all of them, is found complete: nothing is missing, and
-- all bytes are counted. This holds for pieces of at least one byte, fewer than 2 ^ 32 of them, in a
-- torrent that is shorter than 2 ^ 64 bytes by the length of two pieces or more.
pub verify_and_resume_complete :
    (sha1 : Bytes → Bytes) (access : List Bytes → Bool) (store : Store) (meta : TorrentMeta)
    (t : Torrent) (bs : Bytes)
    → IsAllowed access meta.info.mode
    → IsFlat (disk_of meta.info.mode store) bs
    → 0 < meta.info.piece_length
    → length bs + 2 * meta.info.piece_length ≤ 2 ^ 64
    → total_size meta.info.mode ≡ length bs
    → t.size ≡ length bs
    → meta.info.pieces ≡ map sha1 (pieces_of meta.info.piece_length bs)
    → length meta.info.pieces < 2 ^ 32
    → verify_and_resume sha1 access store meta t
      ≡ ok (
        record t {
          missing_pieces = [];
          have_pieces = replicate (length meta.info.pieces) true;
          downloaded = t.size;
          status = codes "Completed";
          disk = disk_of meta.info.mode store;
        },
        length meta.info.pieces,
        length meta.info.pieces,
      )
unfolding verify_and_resume
verify_and_resume_complete sha1 access store meta t bs allowed flat pos fits size known digests
      few =
    let l = meta.info.piece_length in
    let ps = pieces_of l bs in
    let n = length meta.info.pieces in
    let disk = disk_of meta.info.mode store in
    let count : n ≡ length ps = ap (λ h. length h) digests ∙ length-map sha1 ps in
    let (bound, no_pieces) = pieces_count l pos bs in
    let done : verify_pieces sha1 disk meta ≡ ok (replicate n true) =
      verify_pieces-matched sha1 disk meta bs flat pos fits size
      ∙ ap (λ h. ok (matched sha1 ps h)) digests
      ∙ ap ok (matched_digests sha1 ps)
      ∙ ap (λ k. ok (replicate k true)) (sym count) in
    let bytes_counted : downloaded_from n (total_size meta.info.mode) l 0 (replicate n true) 0
        ≡ ok (length bs) =
      ap (λ m. downloaded_from n m l 0 (replicate n true) 0) size
      ∙ downloaded_all n (length bs) l few (rw (← count) at bound) (rw (← count) at no_pieces) in
    rw (initialize_files_flat access meta.info.mode store bs allowed flat, done)
      (resumed_all meta (record t { disk = disk }) (length bs) few bytes_counted known)
