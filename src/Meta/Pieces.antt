-- ===== src/Meta/Pieces.antt =====
-- The piece hashes of crates/core/src/meta.rs: written one after the other, and cut into twenties.
use torrent_rust_cli.Common.{
  ℕ, zero, suc, ◌*◌, ◌%◌, ◌≤◌, ◌≡◌, refl, ap, ◌∙◌, [], ◌∷◌, ◌++◌, List, Bytes, length, take, drop,
  ltb, le→ltb, eq→==, false, arith, lengths, All, take-append, drop-append, ok,
}
use torrent_rust_cli.Meta.Parse.{chunks_exact, read_pieces}
use torrent_rust_cli.Meta.Print.{concat_pieces}

abbrev pub IsHash : Bytes → Type 0
IsHash p = length p ≡ 20

length-concat_pieces :
    (ps : List Bytes) → All IsHash ps → length (concat_pieces ps) ≡ 20 * length ps
unfolding concat_pieces
length-concat_pieces [] h = omega arith
length-concat_pieces (p ∷ ps) h = omega (lengths, length-concat_pieces ps h.1)

chunks_exact_step :
    (f : ℕ) (p rest : Bytes)
    → IsHash p
    → chunks_exact (suc f) 20 (p ++ rest) ≡ p ∷ chunks_exact f 20 rest
unfolding chunks_exact
chunks_exact_step f p rest h =
    let t : take 20 (p ++ rest) ≡ p = rw h at (take-append p rest) in
    let d : drop 20 (p ++ rest) ≡ rest = rw h at (drop-append p rest) in
    let l : ltb (length (p ++ rest)) 20 ≡ false = le→ltb _ 20 (omega lengths) in rw (l, t, d)

chunks_exact-concat_pieces :
    (ps : List Bytes) (f : ℕ)
    → All IsHash ps
    → length (concat_pieces ps) ≤ f
    → chunks_exact f 20 (concat_pieces ps) ≡ ps
unfolding concat_pieces
chunks_exact-concat_pieces [] zero h l = unfold chunks_exact in refl
chunks_exact-concat_pieces [] (suc f) h l = unfold chunks_exact in refl
chunks_exact-concat_pieces (p ∷ ps) zero h l = absurd (omega lengths)
chunks_exact-concat_pieces (p ∷ ps) (suc f) h l =
    chunks_exact_step f p (concat_pieces ps) h.0
    ∙ ap (λ t. p ∷ t) (chunks_exact-concat_pieces ps f h.1 (omega lengths))

-- The hashes are read back as they were written.
pub read_pieces-concat_pieces :
    (ps : List Bytes) → All IsHash ps → read_pieces (concat_pieces ps) ≡ ok ps
unfolding read_pieces
read_pieces-concat_pieces ps h = rw (
  eq→== (length (concat_pieces ps) % 20) 0 (omega (arith, length-concat_pieces ps h)),
  chunks_exact-concat_pieces ps (length (concat_pieces ps)) h (omega arith),
)
