-- ===== src/Piece/Bits.antt =====
-- What crates/piece/src/lib.rs relies on of `BitVec<u8, Msb0>` of the crate bitvec: a vector is known by
-- its bits, and each call does to them what its documentation says.
use torrent_rust_cli.Common.{
  ℕ, suc, ◌<◌, ◌≡◌, refl, Bool, true, false, [], ◌∷◌, ◌++◌, List, Option, Bytes, length, take, set,
  replicate, get_elem?, ◌/◌, ◌%◌, ◌==◌,
}

-- The number of members that are true.
abbrev pub count_true : List Bool → ℕ
count_true [] = 0
count_true (true ∷ bs) = suc (count_true bs)
count_true (false ∷ bs) = count_true bs

-- The bits of a byte, the most significant first.
abbrev pub bits_of_byte : ℕ → List Bool
bits_of_byte b =
    (b / 128 % 2 == 1)
    ∷ (b / 64 % 2 == 1)
    ∷ (b / 32 % 2 == 1)
    ∷ (b / 16 % 2 == 1)
    ∷ (b / 8 % 2 == 1)
    ∷ (b / 4 % 2 == 1)
    ∷ (b / 2 % 2 == 1)
    ∷ (b % 2 == 1)
    ∷ []

abbrev pub bits_of_bytes : Bytes → List Bool
bits_of_bytes [] = []
bits_of_bytes (b ∷ bs) = bits_of_byte b ++ bits_of_bytes bs

pub record BitVecs : Type 1 where
  pub Vec : Type 0
  pub bits : Vec → List Bool
  pub repeat : Bool → ℕ → Vec
  pub from_vec : Bytes → Vec
  pub into_vec : Vec → Bytes
  pub truncate : Vec → ℕ → Vec
  pub get : Vec → ℕ → Option Bool
  pub set_bit : Vec → ℕ → Bool → Vec
  pub len : Vec → ℕ
  pub count_ones : Vec → ℕ
  pub bits-repeat : (b : Bool) (n : ℕ) → bits (repeat b n) ≡ replicate n b
  pub bits-from_vec : (bs : Bytes) → bits (from_vec bs) ≡ bits_of_bytes bs
  pub bits-truncate : (v : Vec) (n : ℕ) → bits (truncate v n) ≡ take n (bits v)
  pub get_lem : (v : Vec) (i : ℕ) → get v i ≡ get_elem? (bits v) i
  pub bits-set_bit :
      (v : Vec) (i : ℕ) (b : Bool) → i < length (bits v) → bits (set_bit v i b) ≡ set (bits v) i b
  pub len_lem : (v : Vec) → len v ≡ length (bits v)
  pub count_ones_lem : (v : Vec) → count_ones v ≡ count_true (bits v)

-- Vectors that are lists of bits: the assumptions can be met.
abbrev pub list_bits : BitVecs
list_bits = record {
  Vec = List Bool;
  bits = λ v. v;
  repeat = λ b n. replicate n b;
  from_vec = bits_of_bytes;
  into_vec = λ v. [];
  truncate = λ v n. take n v;
  get = get_elem?;
  set_bit = set;
  len = length;
  count_ones = count_true;
  bits-repeat = λ b n. refl;
  bits-from_vec = λ bs. refl;
  bits-truncate = λ v n. refl;
  get_lem = λ v i. refl;
  bits-set_bit = λ v i b h. refl;
  len_lem = λ v. refl;
  count_ones_lem = λ v. refl;
}
