-- ===== src/Server/Table.antt =====
-- A `HashMap` by a u32: its entries in the order in which it iterates. The order in which a map iterates
-- is not specified; here a new entry comes last, and one that is replaced stays where it is.
use torrent_rust_cli.Common.{
  ℕ, ◌≡◌, refl, List, [], ◌∷◌, Option, none, some, All, ◌==◌, if◌then◌else◌, arith, Bool-cases,
  ==→eq, inl, inr, subst, false,
}

abbrev pub Table {ℓ} : Type ℓ → Type ℓ
Table A = List (ℕ × A)

module _ {ℓ} {A : Type ℓ} where
  unfoldable pub get : Table A → ℕ → Option A
  get [] k = none
  get ((j, v) ∷ t) k = let rest = get t k in if j == k then some v else rest

  unfoldable pub insert : ℕ → A → Table A → Table A
  insert k v [] = (k, v) ∷ []
  insert k v ((j, w) ∷ t) = let rest = insert k v t in if j == k then (k, v) ∷ t else (j, w) ∷ rest

  unfoldable pub remove : ℕ → Table A → Table A
  remove k [] = []
  remove k ((j, w) ∷ t) = let rest = remove k t in if j == k then t else (j, w) ∷ rest

  unfoldable pub values : Table A → List A
  values [] = []
  values ((j, w) ∷ t) = w ∷ values t

  -- No key twice, as in a map.
  abbrev pub IsMap : Table A → Type ℓ
  IsMap [] = Unit {ℓ}
  IsMap ((j, w) ∷ t) = (get t j ≡ none) × IsMap t

  pub get-insert :
      (k j : ℕ) (v : A) (t : Table A) → get (insert k v t) j ≡ (if k == j then some v else get t j)
  unfolding get insert
  get-insert k j v [] = refl
  get-insert k j v ((i, w) ∷ t) = ground (arith, get-insert k j v t)

  pub get-insert_self : (k : ℕ) (v : A) (t : Table A) → get (insert k v t) k ≡ some v
  get-insert_self k v t = ground (arith, get-insert k k v t)

  pub insert-IsMap : (k : ℕ) (v : A) (t : Table A) → IsMap t → IsMap (insert k v t)
  unfolding get insert
  insert-IsMap k v [] h = (refl, tt)
  insert-IsMap k v ((i, w) ∷ t) h = elim (Bool-cases (i == k)) [
    | inl e ↦ let same : i ≡ k = ==→eq i k e in rw e (subst (λ m. get t m ≡ none) same h.0, h.1)
    | inr e ↦
        let kept : get (insert k v t) i ≡ none = ground (arith, get-insert k i v t, h.0) in
        rw e (kept, insert-IsMap k v t h.1)
  ]

  pub get-remove :
      (k j : ℕ) (t : Table A) → IsMap t → get (remove k t) j ≡ (if k == j then none else get t j)
  unfolding get remove
  get-remove k j [] h = ground arith
  get-remove k j ((i, w) ∷ t) h = elim (Bool-cases (i == k)) [
    | inl e ↦
        let same : i ≡ k = ==→eq i k e in
        let gone : get t k ≡ none = subst (λ m. get t m ≡ none) same h.0 in
        elim (Bool-cases (k == j)) [
          | inl f ↦
              let here : k ≡ j = ==→eq k j f in rw (e, f) (subst (λ m. get t m ≡ none) here gone)
          | inr f ↦ let other : (i == j) ≡ false = ground (arith, f, same) in rw (e, f, other) refl
        ]
    | inr e ↦ let rest = get-remove k j t h.1 in ground (arith, rest, e)
  ]

  pub remove-IsMap : (k : ℕ) (t : Table A) → IsMap t → IsMap (remove k t)
  unfolding get remove
  remove-IsMap k [] h = tt
  remove-IsMap k ((i, w) ∷ t) h = elim (Bool-cases (i == k)) [
    | inl e ↦ rw e h.1
    | inr e ↦
        let kept : get (remove k t) i ≡ none = ground (arith, get-remove k i t h.1, h.0) in
        rw e (kept, remove-IsMap k t h.1)
  ]

module _ {ℓ κ} {A : Type ℓ} (P : ℕ × A → Type κ) where
  pub insert-All : (k : ℕ) (v : A) (t : Table A) → P (k, v) → All P t → All P (insert k v t)
  unfolding insert
  insert-All k v [] p h = (p, tt)
  insert-All k v ((i, w) ∷ t) p h = elim (Bool-cases (i == k)) [
    | inl e ↦ rw e (p, h.1)
    | inr e ↦ rw e (h.0, insert-All k v t p h.1)
  ]

  pub remove-All : (k : ℕ) (t : Table A) → All P t → All P (remove k t)
  unfolding remove
  remove-All k [] h = tt
  remove-All k ((i, w) ∷ t) h = elim (Bool-cases (i == k)) [
    | inl e ↦ rw e h.1
    | inr e ↦ rw e (h.0, remove-All k t h.1)
  ]

  pub get-All : (k : ℕ) (v : A) (t : Table A) → All P t → get t k ≡ some v → P (k, v)
  unfolding get
  get-All k v [] h e = cc
  get-All k v ((i, w) ∷ t) h e = elim (Bool-cases (i == k)) [
    | inl f ↦
        let here : i ≡ k = ==→eq i k f in
        let found : some w ≡ some v = rw f at e in subst P (cc) h.0
    | inr f ↦ get-All k v t h.1 (rw f at e)
  ]
