-- ===== src/Piece/Bitfield.antt =====
-- crates/piece/src/lib.rs: `Bitfield`, over the bit vectors of Piece/Bits.antt.
use torrent_rust_cli.Common.{
  ℕ, ◌≤◌, ◌<◌, ◌≡◌, ◌≢◌, sym, ◌∙◌, Bool, false, Option, none, some, Bytes, length, set, ltb, ◌==◌,
  if◌then◌else◌, arith, length-replicate, length-set, get_elem?-replicate, get_elem?-set_self,
  get_elem?-set_ne, ltb→lt, set_out_of_range, get_elem?_out_of_range, Bool-cases, inl, inr,
}
use torrent_rust_cli.Piece.Bits.{BitVecs}

module _ (v : BitVecs) where
  open v use {Vec, bits}

  unfoldable pub new : ℕ → Vec
  new n = v.repeat false n

  unfoldable pub from_bytes : Bytes → ℕ → Vec
  from_bytes bytes bit_len = v.truncate (v.from_vec bytes) bit_len

  unfoldable pub to_bytes : Vec → Bytes
  to_bytes b = v.into_vec b

  unfoldable pub get : Vec → ℕ → Option Bool
  get b index = v.get b index

  unfoldable pub set_at : Vec → ℕ → Bool → Vec
  set_at b index value = if ltb index (v.len b) then v.set_bit b index value else b

  unfoldable pub len : Vec → ℕ
  len b = v.len b

  unfoldable pub is_empty : Vec → Bool
  is_empty b = v.len b == 0

  unfoldable pub count_ones : Vec → ℕ
  count_ones b = v.count_ones b

  -- A fresh field of n bits holds false at each of them.
  pub get-new : (n i : ℕ) → i < n → get (new n) i ≡ some false
  unfolding get new
  get-new n i h =
      v.get_lem (v.repeat false n) i ∙ rw (v.bits-repeat false n) (get_elem?-replicate n i false h)

  pub len-new : (n : ℕ) → len (new n) ≡ n
  unfolding len new
  len-new n = v.len_lem (v.repeat false n) ∙ rw (v.bits-repeat false n) (length-replicate n false)

  bits-set_at : (b : Vec) (i : ℕ) (value : Bool) → bits (set_at b i value) ≡ set (bits b) i value
  unfolding set_at
  bits-set_at b i value = elim (Bool-cases (ltb i (v.len b))) [
    | inl e ↦ rw e (v.bits-set_bit b i value (rw (v.len_lem b) at (ltb→lt i (v.len b) e)))
    | inr e ↦
        let out : length (bits b) ≤ i = ground (arith, v.len_lem b) in
        rw e (sym (set_out_of_range (bits b) i value out))
  ]

  pub len-set_at : (b : Vec) (i : ℕ) (value : Bool) → len (set_at b i value) ≡ len b
  unfolding len
  len-set_at b i value =
      v.len_lem (set_at b i value)
      ∙ rw (bits-set_at b i value) (length-set (bits b) i value)
      ∙ sym (v.len_lem b)

  -- A write in range is seen at its index.
  pub get-set_at_self :
      (b : Vec) (i : ℕ) (value : Bool) → i < len b → get (set_at b i value) i ≡ some value
  unfolding get len
  get-set_at_self b i value h =
      v.get_lem (set_at b i value) i
      ∙ rw (bits-set_at b i value) (get_elem?-set_self (bits b) i value (rw (v.len_lem b) at h))

  -- No write is seen at another index.
  pub get-set_at_ne :
      (b : Vec) (i j : ℕ) (value : Bool) → i ≢ j → get (set_at b i value) j ≡ get b j
  unfolding get
  get-set_at_ne b i j value h =
      v.get_lem (set_at b i value) j
      ∙ rw (bits-set_at b i value) (get_elem?-set_ne (bits b) i j value h)
      ∙ sym (v.get_lem b j)

  -- A read past the end finds nothing.
  pub get_out_of_range : (b : Vec) (i : ℕ) → len b ≤ i → get b i ≡ none
  unfolding get len
  get_out_of_range b i h = v.get_lem b i ∙ get_elem?_out_of_range (bits b) i (rw (v.len_lem b) at h)
