-- ===== src/Bencode/Order.antt =====
-- The order of keys is linear, and insertion keeps a map sorted.
use torrent_rust_cli.Common.{
  ◌≡◌, ◌≢◌, refl, [], ◌∷◌, some, Bytes, Ordering, arith, ◌⊎◌, inl, inr, subst, sym, ◌∙◌,
}
use torrent_rust_cli.Bencode.Value.{
  Bencode, Dict, empty, entry, compare_bytes, insert, get, Before, AllAfter, IsSorted, IsWellFormed,
  ValuesWellFormed,
}

pub compare_bytes_self : (k : Bytes) → compare_bytes k k ≡ Ordering.eq
unfolding compare_bytes
compare_bytes_self [] = refl
compare_bytes_self (x ∷ k) = ground (arith, compare_bytes_self k)

pub compare_bytes→eq : (k j : Bytes) → compare_bytes k j ≡ Ordering.eq → k ≡ j
unfolding compare_bytes
compare_bytes→eq [] [] h = refl
compare_bytes→eq [] (y ∷ j) h = cc
compare_bytes→eq (x ∷ k) [] h = cc
compare_bytes→eq (x ∷ k) (y ∷ j) h = ground (arith, compare_bytes→eq k j)

pub Before-trans : (a b c : Bytes) → Before a b → Before b c → Before a c
unfolding compare_bytes
Before-trans a [] c h k =
    elim a as (λ a. compare_bytes a [] ≡ Ordering.lt → Before a c) [
      | [] ↦ λ e. cc
      | x ∷ xs ↦ λ e. cc
    ]
      h
Before-trans [] (y ∷ b) [] h k = cc
Before-trans [] (y ∷ b) (z ∷ c) h k = refl
Before-trans (x ∷ a) (y ∷ b) [] h k = cc
Before-trans (x ∷ a) (y ∷ b) (z ∷ c) h k = ground (arith, Before-trans a b c)

pub Before-of_gt : (k j : Bytes) → compare_bytes k j ≡ Ordering.gt → Before j k
unfolding compare_bytes
Before-of_gt [] [] h = cc
Before-of_gt [] (y ∷ j) h = cc
Before-of_gt (x ∷ k) [] h = refl
Before-of_gt (x ∷ k) (y ∷ j) h = ground (arith, Before-of_gt k j)

pub gt_of_Before : (k j : Bytes) → Before j k → compare_bytes k j ≡ Ordering.gt
unfolding compare_bytes
gt_of_Before [] [] h = cc
gt_of_Before [] (y ∷ j) h = cc
gt_of_Before (x ∷ k) [] h = refl
gt_of_Before (x ∷ k) (y ∷ j) h = ground (arith, gt_of_Before k j)

pub ne_of_lt : (k j : Bytes) → Before k j → k ≢ j
ne_of_lt k j h e = cc (compare_bytes_self k)

pub ne_of_gt : (k j : Bytes) → compare_bytes k j ≡ Ordering.gt → k ≢ j
ne_of_gt k j h e = cc (compare_bytes_self k)

pub Ordering-cases :
    (k j : Bytes)
    → (Before k j) ⊎ ((compare_bytes k j ≡ Ordering.eq) ⊎ (compare_bytes k j ≡ Ordering.gt))
Ordering-cases k j = split (compare_bytes k j) refl
  where
    split :
        (o : Ordering)
        → compare_bytes k j ≡ o
        → (Before k j) ⊎ ((compare_bytes k j ≡ Ordering.eq) ⊎ (compare_bytes k j ≡ Ordering.gt))
    split Ordering.lt e = inl e
    split Ordering.eq e = inr (inl e)
    split Ordering.gt e = inr (inr e)

-- The three cases of an insertion and of a lookup.
module _ (k j : Bytes) (v w : Bencode) (d : Dict) where
  pub insert_lt : Before k j → insert k v (entry j w d) ≡ entry k v (entry j w d)
  unfolding insert
  insert_lt e = rw (e, insert)

  pub insert_eq : compare_bytes k j ≡ Ordering.eq → insert k v (entry j w d) ≡ entry k v d
  unfolding insert
  insert_eq e = rw (e, insert)

  pub insert_gt :
      compare_bytes k j ≡ Ordering.gt → insert k v (entry j w d) ≡ entry j w (insert k v d)
  unfolding insert
  insert_gt e = rw (e, insert)

pub get_eq :
    (k j : Bytes) (w : Bencode) (d : Dict)
    → compare_bytes k j ≡ Ordering.eq
    → get k (entry j w d) ≡ some w
unfolding get
get_eq k j w d e = rw (e, get)

pub get_gt :
    (k j : Bytes) (w : Bencode) (d : Dict)
    → compare_bytes k j ≡ Ordering.gt
    → get k (entry j w d) ≡ get k d
unfolding get
get_gt k j w d e = rw (e, get)

pub get_lt : (k j : Bytes) (w : Bencode) (d : Dict) → Before k j → get k (entry j w d) ≡ get k d
unfolding get
get_lt k j w d e = rw (e, get)

AllAfter-weaken : (k j : Bytes) (d : Dict) → Before k j → AllAfter j d → AllAfter k d
AllAfter-weaken k j empty h a = tt
AllAfter-weaken k j (entry i v d) h a = (Before-trans k j i h a.0, AllAfter-weaken k j d h a.1)

AllAfter-insert :
    (k j : Bytes) (v : Bencode) (d : Dict) → Before k j → AllAfter k d → AllAfter k (insert j v d)
AllAfter-insert k j v empty h a = unfold insert in (h, tt)
AllAfter-insert k j v (entry i w d) h a = elim (Ordering-cases j i) [
  | inl e ↦ rw (insert_lt j i v w d e) (h, a)
  | inr (inl e) ↦ rw (insert_eq j i v w d e) (h, a.1)
  | inr (inr e) ↦ rw (insert_gt j i v w d e) (a.0, AllAfter-insert k j v d h a.1)
]

-- Insertion keeps the keys in order.
pub insert-IsSorted : (k : Bytes) (v : Bencode) (d : Dict) → IsSorted d → IsSorted (insert k v d)
insert-IsSorted k v empty s = unfold insert in (tt, tt)
insert-IsSorted k v (entry j w d) s = elim (Ordering-cases k j) [
  | inl e ↦ rw (insert_lt k j v w d e) ((e, AllAfter-weaken k j d e s.0), s)
  | inr (inl e) ↦
      rw (insert_eq k j v w d e) (subst (λ i. AllAfter i d) (sym (compare_bytes→eq k j e)) s.0, s.1)
  | inr (inr e) ↦
      rw (insert_gt k j v w d e)
        (AllAfter-insert j k v d (Before-of_gt k j e) s.0, insert-IsSorted k v d s.1)
]

pub insert-ValuesWellFormed :
    (k : Bytes) (v : Bencode) (d : Dict)
    → IsWellFormed v
    → ValuesWellFormed d
    → ValuesWellFormed (insert k v d)
insert-ValuesWellFormed k v empty h a = unfold insert in (h, tt)
insert-ValuesWellFormed k v (entry j w d) h a = elim (Ordering-cases k j) [
  | inl e ↦ rw (insert_lt k j v w d e) (h, a)
  | inr (inl e) ↦ rw (insert_eq k j v w d e) (h, a.1)
  | inr (inr e) ↦ rw (insert_gt k j v w d e) (a.0, insert-ValuesWellFormed k v d h a.1)
]

-- A lookup after an insertion sees the new value at its key.
pub get-insert_self : (k : Bytes) (v : Bencode) (d : Dict) → get k (insert k v d) ≡ some v
get-insert_self k v empty = unfold insert in get_eq k k v empty (compare_bytes_self k)
get-insert_self k v (entry j w d) = elim (Ordering-cases k j) [
  | inl e ↦ rw (insert_lt k j v w d e) (get_eq k k v (entry j w d) (compare_bytes_self k))
  | inr (inl e) ↦ rw (insert_eq k j v w d e) (get_eq k k v d (compare_bytes_self k))
  | inr (inr e) ↦ rw (insert_gt k j v w d e) (get_gt k j w (insert k v d) e ∙ get-insert_self k v d)
]
