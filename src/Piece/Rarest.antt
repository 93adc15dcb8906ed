-- ===== src/Piece/Rarest.antt =====
-- The head of a list sorted by `sort_by_key` (crates/piece/src/lib.rs): the first of the candidates with
-- the least key.
use torrent_rust_cli.Common.{
  ℕ, zero, suc, ◌+◌, ◌≤◌, ◌<◌, ◌≡◌, ◌⊎◌, inl, inr, refl, sym, ap, ◌∙◌, Bool, true, false, List, [],
  ◌∷◌, Option, none, some, leb, if◌then◌else◌, arith, Bool-cases,
}
use torrent_rust_cli.Piece.Picker.{first, collect, insert_by_key, sort_by_key}

-- Of two candidates the one behind stays only if its key is smaller.
abbrev better : ℕ × ℕ → Option (ℕ × ℕ) → Option (ℕ × ℕ)
better x none = some x
better x (some y) = if leb x.1 y.1 then some x else some y

first-insert_by_key :
    (x : ℕ × ℕ) (ys : List (ℕ × ℕ)) → first (insert_by_key x ys) ≡ better x (first ys)
unfolding insert_by_key
first-insert_by_key x [] = refl
first-insert_by_key x (y ∷ ys) = elim (Bool-cases (leb x.1 y.1)) [
  | inl e ↦ rw (e, insert_by_key)
  | inr e ↦ rw (e, insert_by_key)
]

module _ (test : ℕ → Bool) (key : ℕ → ℕ) where
  -- `k` is a candidate of the range, no other has a smaller key, and none before it the same.
  pub record IsRarest (lo hi k : ℕ) : Type 0 where
    pub above : lo ≤ k
    pub below : k < hi
    pub passes : test k ≡ true
    pub least :
        (j : ℕ) → lo ≤ j → j < hi → test j ≡ true → (key k < key j) ⊎ ((key k ≡ key j) × (k ≤ j))

  -- What the head of the sorted candidates of a range is.
  abbrev pub HeadOf : ℕ → ℕ → Option (ℕ × ℕ) → Type 0
  HeadOf lo hi none = (j : ℕ) → lo ≤ j → j < hi → test j ≡ false
  HeadOf lo hi (some (k, a)) = (a ≡ key k) × IsRarest lo hi k

  -- A bound from below on the candidates is either met at once or goes on to the next index.
  from_lo : (lo j : ℕ) → lo ≤ j → (lo ≡ j) ⊎ (lo + 1 ≤ j)
  from_lo lo j h = omega arith

  extend_pass :
      (lo hi : ℕ) (o : Option (ℕ × ℕ))
      → lo < hi
      → test lo ≡ true
      → HeadOf (lo + 1) hi o
      → HeadOf lo hi (better (lo, key lo) o)
  extend_pass lo hi none l t h = (
    refl,
    record {
      above = omega arith;
      below = l;
      passes = t;
      least = λ j p q r. elim (from_lo lo j p) [
        | inl e ↦ inr (ap key e, p)
        | inr p' ↦ cc (h j p' q, r)
      ];
    },
  )
  extend_pass lo hi (some (k, a)) l t h = elim (Bool-cases (leb (key lo) a)) [
    | inl e ↦ rw e (
      refl,
      record {
        above = omega arith;
        below = l;
        passes = t;
        least = λ j p q r. elim (from_lo lo j p) [
          | inl e' ↦ inr (ap key e', p)
          | inr p' ↦ ground (arith, h.1.least j p' q r, h.0)
        ];
      },
    )
    | inr e ↦ rw e (
      h.0,
      record {
        above = omega (arith, h.1.above);
        below = h.1.below;
        passes = h.1.passes;
        least = λ j p q r. elim (from_lo lo j p) [
          | inl e' ↦ inl (ground (arith, ap key e', h.0))
          | inr p' ↦ h.1.least j p' q r
        ];
      },
    )
  ]

  extend_fail :
      (lo hi : ℕ) (o : Option (ℕ × ℕ)) → test lo ≡ false → HeadOf (lo + 1) hi o → HeadOf lo hi o
  extend_fail lo hi none t h =
      λ j p q. elim (from_lo lo j p) [ inl e ↦ ap test (sym e) ∙ t | inr p' ↦ h j p' q ]
  extend_fail lo hi (some (k, a)) t h = (
    h.0,
    record {
      above = omega (arith, h.1.above);
      below = h.1.below;
      passes = h.1.passes;
      least = λ j p q r. elim (from_lo lo j p) [
        | inl e ↦ cc (ap test e, t, r)
        | inr p' ↦ h.1.least j p' q r
      ];
    },
  )

  pub first-sort_by_key :
      (n lo hi : ℕ) → lo + n ≡ hi → HeadOf lo hi (first (sort_by_key (collect test key n lo)))
  unfolding collect sort_by_key
  first-sort_by_key zero lo hi e = λ j p q. absurd (omega arith)
  first-sort_by_key (suc n) lo hi e = elim (Bool-cases (test lo)) [
    | inl t ↦
        rw (t, collect)
          (rw (first-insert_by_key (lo, key lo) (sort_by_key (collect test key n (lo + 1))))
            (extend_pass lo hi _ (omega arith) t (first-sort_by_key n (lo + 1) hi (omega arith))))
    | inr t ↦
        rw (t, collect) (extend_fail lo hi _ t (first-sort_by_key n (lo + 1) hi (omega arith)))
  ]
