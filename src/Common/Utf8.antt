-- ===== src/Common/Utf8.antt =====
-- UTF-8 as the standard library checks it: `str::from_utf8`, `String::from_utf8` and
-- `String::from_utf8_lossy`. A Rust text is the list of its bytes.
use torrent_rust_cli.Common.{
  ℕ, zero, suc, ◌≤◌, ◌<◌, ◌≡◌, refl, Bool, true, false, ◌&&◌, [], ◌∷◌, ◌++◌, arith, leb,
  if◌then◌else◌, Bytes, length, take, drop, All, take-append-drop, length-drop,
}

abbrev within : ℕ → ℕ → ℕ → Bool
within lo hi c = leb lo c && leb c hi

-- The bytes that must follow a lead byte: the range of the second byte, and how many continuation
-- bytes come after it.
pub data Lead : Type 0 where
  ascii invalid : Lead
  multi : ℕ → ℕ → ℕ → Lead

lead : ℕ → Lead
lead c =
    if within 0 0x7f c
    then ascii
    else if within 0xc2 0xdf c
    then multi 0x80 0xbf 0
    else if within 0xe0 0xe0 c
    then multi 0xa0 0xbf 1
    else if within 0xe1 0xec c
    then multi 0x80 0xbf 1
    else if within 0xed 0xed c
    then multi 0x80 0x9f 1
    else if within 0xee 0xef c
    then multi 0x80 0xbf 1
    else if within 0xf0 0xf0 c
    then multi 0x90 0xbf 2
    else if within 0xf1 0xf3 c
    then multi 0x80 0xbf 2
    else if within 0xf4 0xf4 c
    then multi 0x80 0x8f 2
    else invalid

-- Whether n continuation bytes follow, and how many of them do.
continuation : ℕ → Bytes → Bool × ℕ
continuation zero bs = (true, 0)
continuation (suc n) [] = (false, 0)
continuation (suc n) (b ∷ bs) =
    let (valid, k) = continuation n bs in if within 0x80 0xbf b then (valid, suc k) else (false, 0)

sequence : Lead → Bytes → Bool × ℕ
sequence ascii bs = (true, 0)
sequence invalid bs = (false, 0)
sequence (multi lo hi n) [] = (false, 0)
sequence (multi lo hi n) (b ∷ bs) =
    let (valid, k) = continuation n bs in if within lo hi b then (valid, suc k) else (false, 0)

-- For the character that begins with `c`: whether it is well formed, and how many bytes of `bs`
-- belong to it, or to the longest prefix of a character that stands there.
char_at : ℕ → Bytes → Bool × ℕ
unfolding lead sequence continuation
char_at c bs = sequence (lead c) bs

valid_utf8 : ℕ → Bytes → Bool
valid_utf8 zero bs = true
valid_utf8 (suc f) [] = true
valid_utf8 (suc f) (c ∷ bs) =
    let (valid, k) = char_at c bs in let rest = valid_utf8 f (drop k bs) in valid && rest

-- Each character takes a byte at least, so the length is enough fuel.
unfoldable pub is_utf8 : Bytes → Bool
unfolding valid_utf8 char_at
is_utf8 bs = valid_utf8 (length bs) bs

-- U+FFFD takes the place of each ill-formed sequence.
lossy : ℕ → Bytes → Bytes
lossy zero bs = []
lossy (suc f) [] = []
lossy (suc f) (c ∷ bs) =
    let (valid, k) = char_at c bs in
    let rest = lossy f (drop k bs) in
    if valid then c ∷ (take k bs ++ rest) else 0xef ∷ 0xbf ∷ 0xbd ∷ rest

unfoldable pub from_utf8_lossy : Bytes → Bytes
unfolding lossy char_at
from_utf8_lossy bs = lossy (length bs) bs

lossy_of_valid : (f : ℕ) (bs : Bytes) → length bs ≤ f → valid_utf8 f bs ≡ true → lossy f bs ≡ bs
unfolding lossy valid_utf8
lossy_of_valid zero [] l h = refl
lossy_of_valid zero (c ∷ bs) l h = absurd (omega arith)
lossy_of_valid (suc f) [] l h = refl
lossy_of_valid (suc f) (c ∷ bs) l h =
    let k = (char_at c bs).1 in
    ground (arith, lossy_of_valid f (drop k bs), length-drop k bs, take-append-drop k bs)

-- A well-formed text is read as it stands.
pub from_utf8_lossy_of_valid : (bs : Bytes) → is_utf8 bs ≡ true → from_utf8_lossy bs ≡ bs
unfolding is_utf8 from_utf8_lossy
from_utf8_lossy_of_valid bs h = lossy_of_valid (length bs) bs (omega arith) h

valid_utf8_of_ascii : (f : ℕ) (bs : Bytes) → All (λ c. c < 128) bs → valid_utf8 f bs ≡ true
unfolding valid_utf8 char_at
valid_utf8_of_ascii zero bs h = refl
valid_utf8_of_ascii (suc f) [] h = refl
valid_utf8_of_ascii (suc f) (c ∷ bs) h = ground (arith, valid_utf8_of_ascii f bs)

-- ASCII text is well formed.
pub is_utf8_of_ascii : (bs : Bytes) → All (λ c. c < 128) bs → is_utf8 bs ≡ true
unfolding is_utf8
is_utf8_of_ascii bs h = valid_utf8_of_ascii (length bs) bs h
