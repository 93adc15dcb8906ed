-- ===== src/Creator/Reads.antt =====
-- What `hash_piece` of crates/daemon/src/creator.rs makes of all reads together.
use torrent_rust_cli.Common.{
  concat, ℕ, zero, suc, ◌+◌, ◌-◌, ◌≤◌, ◌<◌, ◌≡◌, refl, sym, ap, ◌∙◌, [], ◌∷◌, ◌++◌, append_assoc,
  append-nil, List, map, Bytes, length, take, drop, arith, min, ltb, ◌==◌, if◌then◌else◌,
  length-append, length-take, length-drop, take-append-drop, Bool-cases, inl, inr, ==→eq, lt→ltb,
}
use torrent_rust_cli.Creator.Pieces.{
  Hashing, take_data, hash_rounds, hash_piece, hash_reads, finish, nothing_hashed, cut, pieces_of,
  pieces_of-append, pieces_of_short,
}

module _ (sha1 : Bytes → Bytes) (l : ℕ) (pos : 0 < l) where
  -- The piece that is open is not full, and its length is the one that is kept.
  record IsOpen (h : Hashing) : Type 0 where
    len : length h.hashed ≡ h.current_piece_len
    room : h.current_piece_len < l

  -- The hashes that there will be if the reads bring `after`.
  abbrev hashes : Hashing → Bytes → List Bytes
  hashes h after = h.pieces ++ map sha1 (pieces_of l (h.hashed ++ after))

  regroup :
      (n : ℕ) (front left after : Bytes)
      → front ++ (left ++ after) ≡ (front ++ take n left) ++ (drop n left ++ after)
  regroup n front left after =
      ap (λ t. front ++ (t ++ after)) (sym (take-append-drop n left))
      ∙ ap (λ t. front ++ t) (append_assoc (take n left) (drop n left) after)
      ∙ sym (append_assoc front (take n left) (drop n left ++ after))

  abbrev fits : Bytes → Hashing → ℕ
  fits left h = min (l - h.current_piece_len) (length left)

  module _ (n : ℕ) (left : Bytes) (h : Hashing) (o : IsOpen h) (p : h.current_piece_len + n ≤ l)
      (q : n ≤ length left) where
    grown : length (h.hashed ++ take n left) ≡ h.current_piece_len + n
    grown = omega (arith, o.len, length-append h.hashed (take n left), length-take n left)

    take_data-IsOpen : IsOpen (take_data sha1 l n left h)
    unfolding take_data
    take_data-IsOpen = elim (Bool-cases (h.current_piece_len + n == l)) [
      | inl e ↦ rw e (record { len = refl; room = pos })
      | inr e ↦ rw e (record { len = grown; room = ground (arith, e) })
    ]

    take_data-hashes :
        (after : Bytes)
        → hashes (take_data sha1 l n left h) (drop n left ++ after) ≡ hashes h (left ++ after)
    unfolding take_data
    take_data-hashes after = elim (Bool-cases (h.current_piece_len + n == l)) [
      | inl e ↦ rw e (
          let full =
            pieces_of-append l pos (h.hashed ++ take n left) (drop n left ++ after)
              (grown ∙ ==→eq (h.current_piece_len + n) l e) in
          append_assoc h.pieces (sha1 (h.hashed ++ take n left) ∷ []) _
          ∙ ap (λ t. h.pieces ++ map sha1 t)
              (sym full ∙ ap (λ t. pieces_of l t) (sym (regroup n h.hashed left after))))
      | inr e ↦
          rw e
            (ap (λ t. h.pieces ++ map sha1 (pieces_of l t)) (sym (regroup n h.hashed left after)))
    ]

  hash_rounds_lem :
      (f : ℕ) (left after : Bytes) (h : Hashing)
      → IsOpen h
      → length left ≤ f
      → IsOpen (hash_rounds sha1 l f left h)
        × (hashes (hash_rounds sha1 l f left h) after ≡ hashes h (left ++ after))
  unfolding hash_rounds
  hash_rounds_lem zero [] after h o k = (o, refl)
  hash_rounds_lem zero (b ∷ left) after h o k = absurd (omega arith)
  hash_rounds_lem (suc f) [] after h o k = (o, refl)
  hash_rounds_lem (suc f) (b ∷ left) after h o k =
      let n = fits (b ∷ left) h in
      let p : h.current_piece_len + n ≤ l = omega (arith, o.room) in
      let q : n ≤ length (b ∷ left) = omega arith in
      let some_taken : 0 < n = omega (arith, o.room) in
      let (open', same) =
        hash_rounds_lem f (drop n (b ∷ left)) after (take_data sha1 l n (b ∷ left) h)
          (take_data-IsOpen n (b ∷ left) h o p q)
          (omega (arith, length-drop n (b ∷ left), some_taken, k)) in
      (open', same ∙ take_data-hashes n (b ∷ left) h o p q after)

  hash_reads_lem :
      (reads : List Bytes) (after : Bytes) (h : Hashing)
      → IsOpen h
      → IsOpen (hash_reads sha1 l reads h)
        × (hashes (hash_reads sha1 l reads h) after ≡ hashes h (concat reads ++ after))
  unfolding hash_reads hash_piece
  hash_reads_lem [] after h o = (o, refl)
  hash_reads_lem (r ∷ rs) after h o =
      let (open', same) = hash_rounds_lem (length r) r (concat rs ++ after) h o (omega arith) in
      let (open'', same') = hash_reads_lem rs after (hash_piece sha1 l r h) open' in
      (open'', same' ∙ same ∙ ap (λ t. hashes h t) (sym (append_assoc r (concat rs) after)))

  finish_lem :
      (pieces : List Bytes) (hashed : Bytes)
      → length hashed < l
      → (if ltb 0 (length hashed) then pieces ++ (sha1 hashed ∷ []) else pieces)
        ≡ pieces ++ map sha1 (pieces_of l (hashed ++ []))
  unfolding pieces_of cut
  finish_lem pieces [] h = sym (append-nil pieces)
  finish_lem pieces (b ∷ hashed) h = rw (lt→ltb 0 (length (b ∷ hashed)) (omega arith)) (
      ap (λ t. pieces ++ map sha1 t)
        (sym
          (ap (λ t. pieces_of l (b ∷ t)) (append-nil hashed) ∙ pieces_of_short l pos b hashed h)))

  finish-hashes : (h : Hashing) → IsOpen h → finish sha1 l h ≡ hashes h []
  unfolding finish
  finish-hashes h o =
      ap (λ n. if ltb 0 n then h.pieces ++ (sha1 h.hashed ∷ []) else h.pieces) (sym o.len)
      ∙ finish_lem h.pieces h.hashed (omega (arith, o.room, o.len))

  -- The hashes are those of the pieces of all bytes that were read, in their order, for pieces of
  -- at least one byte: where the reads begin and end makes no difference.
  pub finish-hash_reads :
      (reads : List Bytes)
      → finish sha1 l (hash_reads sha1 l reads nothing_hashed)
        ≡ map sha1 (pieces_of l (concat reads))
  finish-hash_reads reads =
      let (o, same) = hash_reads_lem reads [] nothing_hashed (record { len = refl; room = pos }) in
      finish-hashes (hash_reads sha1 l reads nothing_hashed) o
      ∙ same
      ∙ ap (λ t. map sha1 (pieces_of l t)) (append-nil (concat reads))
