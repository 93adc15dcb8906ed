-- ===== src/Engine/Splice.antt =====
-- Bytes put into the middle of others: what writing to the files of a torrent does to their bytes,
-- seen as one sequence (crates/daemon/src/engine.rs).
use torrent_rust_cli.Common.{
  ℕ, zero, suc, ◌+◌, ◌-◌, ◌≤◌, ◌≡◌, refl, sym, ap, ap₂, ◌∙◌, [], ◌∷◌, ◌++◌, append_assoc,
  append-nil, Bytes, length, take, drop, replicate, arith, drop_whole, take-append-drop,
  length-take, length-drop, length-append,
}
use torrent_rust_cli.Engine.Files.{overwrite}

abbrev pub splice : ℕ → Bytes → Bytes → Bytes
splice offset block c = take offset c ++ (block ++ drop (offset + length block) c)

pub take_within : (n : ℕ) (xs ys : Bytes) → n ≤ length xs → take n (xs ++ ys) ≡ take n xs
take_within zero xs ys h = refl
take_within (suc n) [] ys h = absurd (omega arith)
take_within (suc n) (x ∷ xs) ys h = ap (λ t. x ∷ t) (take_within n xs ys (omega arith))

pub drop_within : (n : ℕ) (xs ys : Bytes) → n ≤ length xs → drop n (xs ++ ys) ≡ drop n xs ++ ys
drop_within zero xs ys h = refl
drop_within (suc n) [] ys h = absurd (omega arith)
drop_within (suc n) (x ∷ xs) ys h = drop_within n xs ys (omega arith)

pub take_behind :
    (n k : ℕ) (xs ys : Bytes) → n ≡ length xs + k → take n (xs ++ ys) ≡ xs ++ take k ys
take_behind n k [] ys h = ap (λ m. take m ys) (omega arith)
take_behind zero k (x ∷ xs) ys h = absurd (omega arith)
take_behind (suc n) k (x ∷ xs) ys h = ap (λ t. x ∷ t) (take_behind n k xs ys (omega arith))

pub drop_behind : (n k : ℕ) (xs ys : Bytes) → n ≡ length xs + k → drop n (xs ++ ys) ≡ drop k ys
drop_behind n k [] ys h = ap (λ m. drop m ys) (omega arith)
drop_behind zero k (x ∷ xs) ys h = absurd (omega arith)
drop_behind (suc n) k (x ∷ xs) ys h = drop_behind n k xs ys (omega arith)

pub length-splice :
    (offset : ℕ) (block c : Bytes)
    → offset + length block ≤ length c
    → length (splice offset block c) ≡ length c
length-splice offset block c h = omega (
  arith,
  h,
  length-append (take offset c) (block ++ drop (offset + length block) c),
  length-append block (drop (offset + length block) c),
  length-take offset c,
  length-drop (offset + length block) c,
)

pub overwrite-splice :
    (offset : ℕ) (block c : Bytes)
    → offset + length block ≤ length c
    → overwrite offset block c ≡ splice offset block c
unfolding overwrite
overwrite-splice offset [] c h =
    sym (ap (λ n. take offset c ++ drop n c) (omega arith) ∙ take-append-drop offset c)
overwrite-splice offset (b ∷ bs) c h =
    let no_gap : offset - length c ≡ 0 = omega arith in
    ap
      (λ n.
        take offset c ++ (replicate n (zero) ++ ((b ∷ bs) ++ drop (offset + length (b ∷ bs)) c)))
      no_gap

-- A block that lies behind the first part.
pub splice_behind :
    (offset : ℕ) (block c after : Bytes)
    → length c ≤ offset
    → splice offset block (c ++ after) ≡ c ++ splice (offset - length c) block after
splice_behind offset block c after h =
    let k = offset - length c in
    ap₂ (λ x y. x ++ (block ++ y)) (take_behind offset k c after (omega arith))
      (drop_behind (offset + length block) (k + length block) c after (omega arith))
    ∙ append_assoc c (take k after) (block ++ drop (k + length block) after)

-- A block that lies in the first part.
pub splice_within :
    (offset : ℕ) (block c after : Bytes)
    → offset + length block ≤ length c
    → splice offset block (c ++ after) ≡ splice offset block c ++ after
splice_within offset block c after h =
    ap₂ (λ x y. x ++ (block ++ y)) (take_within offset c after (omega arith))
      (drop_within (offset + length block) c after h)
    ∙ ap (λ t. take offset c ++ t) (sym (append_assoc block (drop (offset + length block) c) after))
    ∙ sym (append_assoc (take offset c) (block ++ drop (offset + length block) c) after)

-- A block that begins in the first part and fills it up.
pub splice_across :
    (offset : ℕ) (front back c after : Bytes)
    → offset + length front ≡ length c
    → splice offset (front ++ back) (c ++ after) ≡ splice offset front c ++ splice 0 back after
splice_across offset front back c after h =
    let total = length-append front back in
    let nothing_left : front ++ drop (offset + length front) c ≡ front =
      ap (λ t. front ++ t) (drop_whole (offset + length front) c (omega arith))
      ∙ append-nil front in
    ap₂ (λ x y. x ++ ((front ++ back) ++ y)) (take_within offset c after (omega arith))
      (drop_behind (offset + length (front ++ back)) (length back) c after (omega (arith, total)))
    ∙ ap (λ t. take offset c ++ t) (append_assoc front back (drop (length back) after))
    ∙ sym (append_assoc (take offset c) front (back ++ drop (length back) after))
    ∙ ap (λ t. (take offset c ++ t) ++ (back ++ drop (length back) after)) (sym nothing_left)
    ∙ ap (λ n. splice offset front c ++ (back ++ drop n after)) (omega arith)
