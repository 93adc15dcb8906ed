-- ===== src/Creator/Pieces.antt =====
-- The closure `hash_piece` of `create_torrent` in crates/daemon/src/creator.rs, and what it makes of all
-- reads together. The hasher is known by the bytes that it was given since it was last reset.
use torrent_rust_cli.Common.{
  ◌*◌, Bool-cases, inl, inr, leb, ℕ, zero, suc, ◌+◌, ◌-◌, ◌≤◌, ◌<◌, ◌≡◌, refl, ap, ap₂, ◌∙◌, [],
  ◌∷◌, ◌++◌, List, Bytes, length, take, drop, arith, min, take_whole, drop_whole, ltb, ◌==◌,
  if◌then◌else◌, length-append, length-drop, take-append, drop-append,
}

abbrev pub default_piece_length : ℕ
default_piece_length = 524288

pub record Hashing : Type 0 where
  pub pieces : List Bytes
  pub hashed : Bytes
  pub current_piece_len : ℕ

-- `l` is `DEFAULT_PIECE_LENGTH`.
module _ (sha1 : Bytes → Bytes) (l : ℕ) where
  -- One round: as much as fits into the piece, which is closed when it is full.
  unfoldable pub take_data : ℕ → Bytes → Hashing → Hashing
  take_data n left h =
      if h.current_piece_len + n == l
      then record {
        pieces = h.pieces ++ (sha1 (h.hashed ++ take n left) ∷ []);
        hashed = [];
        current_piece_len = 0;
      }
      else record {
        pieces = h.pieces;
        hashed = h.hashed ++ take n left;
        current_piece_len = h.current_piece_len + n;
      }

  -- The loop over what a read brought; a round takes a byte at least.
  unfoldable pub hash_rounds : ℕ → Bytes → Hashing → Hashing
  hash_rounds zero left h = h
  hash_rounds (suc f) [] h = h
  hash_rounds (suc f) (b ∷ left) h =
      let n = min (l - h.current_piece_len) (length (b ∷ left)) in
      hash_rounds f (drop n (b ∷ left)) (take_data n (b ∷ left) h)

  unfoldable pub hash_piece : Bytes → Hashing → Hashing
  hash_piece read h = hash_rounds (length read) read h

  unfoldable pub hash_reads : List Bytes → Hashing → Hashing
  hash_reads [] h = h
  hash_reads (read ∷ reads) h = hash_reads reads (hash_piece read h)

  -- The final piece, if there is any remaining data.
  unfoldable pub finish : Hashing → List Bytes
  finish h = if ltb 0 h.current_piece_len then h.pieces ++ (sha1 h.hashed ∷ []) else h.pieces

abbrev pub nothing_hashed : Hashing
nothing_hashed = record { pieces = []; hashed = []; current_piece_len = 0 }

module _ (l : ℕ) where
  -- The reference: pieces of `l` bytes, and one with what is left.
  unfoldable pub cut : ℕ → Bytes → List Bytes
  cut zero bs = []
  cut (suc f) [] = []
  cut (suc f) (b ∷ bs) = take l (b ∷ bs) ∷ cut f (drop l (b ∷ bs))

  unfoldable pub pieces_of : Bytes → List Bytes
  pieces_of bs = cut (length bs) bs

module _ (l : ℕ) (pos : 0 < l) where
  cut_fuel : (f g : ℕ) (bs : Bytes) → length bs ≤ f → length bs ≤ g → cut l f bs ≡ cut l g bs
  unfolding cut
  cut_fuel zero zero bs h k = refl
  cut_fuel zero (suc g) [] h k = refl
  cut_fuel zero (suc g) (b ∷ bs) h k = absurd (omega arith)
  cut_fuel (suc f) zero [] h k = refl
  cut_fuel (suc f) zero (b ∷ bs) h k = absurd (omega arith)
  cut_fuel (suc f) (suc g) [] h k = refl
  cut_fuel (suc f) (suc g) (b ∷ bs) h k =
      let shorter = length-drop l (b ∷ bs) in
      ap (λ t. take l (b ∷ bs) ∷ t)
        (cut_fuel f g (drop l (b ∷ bs)) (omega (arith, shorter)) (omega (arith, shorter)))

  -- A full piece comes first.
  pub pieces_of-append :
      (p rest : Bytes) → length p ≡ l → pieces_of l (p ++ rest) ≡ p ∷ pieces_of l rest
  unfolding pieces_of cut
  pieces_of-append [] rest e = absurd (omega arith)
  pieces_of-append (b ∷ p) rest e =
      let front : take l (b ∷ (p ++ rest)) ≡ b ∷ p = rw (← e) (take-append (b ∷ p) rest) in
      let back : drop l (b ∷ (p ++ rest)) ≡ rest = rw (← e) (drop-append (b ∷ p) rest) in
      ap₂ (λ x y. x ∷ y) front
        (ap (λ t. cut l (length (p ++ rest)) t) back
          ∙ cut_fuel (length (p ++ rest)) (length rest) rest (omega (arith, length-append p rest))
              (omega arith))

  cut_nil : (f : ℕ) → cut l f [] ≡ []
  unfolding cut
  cut_nil zero = refl
  cut_nil (suc f) = refl

  -- What is left at the end is one piece.
  pub pieces_of_short :
      (b : ℕ) (p : Bytes) → length (b ∷ p) < l → pieces_of l (b ∷ p) ≡ (b ∷ p) ∷ []
  unfolding pieces_of cut
  pieces_of_short b p h =
      ap₂ (λ x y. x ∷ y) (take_whole l (b ∷ p) (omega arith))
        (ap (λ t. cut l (length p) t) (drop_whole l (b ∷ p) (omega arith)) ∙ cut_nil (length p))

  -- The first piece of what is not empty.
  pub pieces_of_first :
      (b : ℕ) (bs : Bytes) → pieces_of l (b ∷ bs) ≡ take l (b ∷ bs) ∷ pieces_of l (drop l (b ∷ bs))
  unfolding pieces_of cut
  pieces_of_first b bs =
      let left = drop l (b ∷ bs) in
      ap (λ t. take l (b ∷ bs) ∷ t)
        (cut_fuel (length bs) (length left) left (omega (arith, length-drop l (b ∷ bs)))
          (omega arith))

  pub pieces_of_nil : pieces_of l [] ≡ []
  unfolding pieces_of
  pieces_of_nil = cut_nil 0

  cut-size : (f : ℕ) (bs : Bytes) → length bs ≤ f → length (cut l f bs) * l < length bs + l
  unfolding cut
  cut-size zero bs h = grind arith
  cut-size (suc f) [] h = grind arith
  cut-size (suc f) (b ∷ bs) h =
      let left = drop l (b ∷ bs) in
      let size = length-drop l (b ∷ bs) in
      let more : length (cut l f left) * l < length left + l =
        cut-size f left (omega (arith, size)) in
      let one : suc (length (cut l f left)) * l ≡ length (cut l f left) * l + l = grind arith in
      elim (Bool-cases (leb (length (b ∷ bs)) l)) [
        | inl e ↦
            let none_left : left ≡ [] = drop_whole l (b ∷ bs) (ground arith) in
            let no_pieces : length (cut l f left) * l ≡ 0 =
              ap (λ t. length t * l) (ap (λ t. cut l f t) none_left ∙ cut_nil f) ∙ omega arith in
            omega (arith, one, no_pieces)
        | inr e ↦
            let full : l < length (b ∷ bs) = ground arith in omega (arith, one, more, size, full)
      ]

  -- All pieces but the last are full.
  pub pieces_of-size : (bs : Bytes) → length (pieces_of l bs) * l < length bs + l
  unfolding pieces_of
  pieces_of-size bs = cut-size (length bs) bs (omega arith)
