-- ===== src/Server/Listing.antt =====
-- What `Request::List` and `Request::Status` of crates/daemon/src/server.rs answer.
use torrent_rust_cli.Common.{
  ℕ, ◌<◌, ◌≡◌, ◌≢◌, refl, sym, ap, ◌∙◌, List, [], ◌∷◌, none, All, All-weaken, leb, arith,
  Bool-cases, inl, inr,
}
use torrent_rust_cli.Rpc.Types.{TorrentStatus, Response}
use torrent_rust_cli.Server.Table.{Table, get, IsMap}
use torrent_rust_cli.Server.Types.{TorrentHandle, RpcServer, Env}
use torrent_rust_cli.Server.Requests.{insert_by_id, sort_by_id, status_of, statuses, list_all}
use torrent_rust_cli.Server.Consistent.{IsConsistent, IsOwn}

module _ {A : Type 0} where
  -- The same members in another order.
  pub data Permutes : List A → List A → Type 0 where
    same : {xs : List A} → Permutes xs xs
    below : {x : A} {xs ys : List A} → Permutes xs ys → Permutes (x ∷ xs) (x ∷ ys)
    swap : {x y : A} {xs : List A} → Permutes (x ∷ y ∷ xs) (y ∷ x ∷ xs)
    trans : {xs ys zs : List A} → Permutes xs ys → Permutes ys zs → Permutes xs zs

  pub All-Permutes : (P : A → Type 0) {xs ys : List A} → Permutes xs ys → All P xs → All P ys
  All-Permutes P same h = h
  All-Permutes P (below d) h = (h.0, All-Permutes P d h.1)
  All-Permutes P swap h = (h.1.0, (h.0, h.1.1))
  All-Permutes P (trans d₁ d₂) h = All-Permutes P d₂ (All-Permutes P d₁ h)

module _ {F : Type 0} where
  abbrev IsOther : TorrentStatus F → TorrentStatus F → Type 0
  IsOther x y = x.id ≢ y.id

  -- No id twice.
  abbrev IsDistinct : List (TorrentStatus F) → Type 0
  IsDistinct [] = Unit {0}
  IsDistinct (x ∷ xs) = All (IsOther x) xs × IsDistinct xs

  -- Each id above those before it.
  abbrev pub IsAscending : List (TorrentStatus F) → Type 0
  IsAscending [] = Unit {0}
  IsAscending (x ∷ xs) = All (λ y. x.id < y.id) xs × IsAscending xs

  IsDistinct-Permutes :
      {xs ys : List (TorrentStatus F)} → Permutes xs ys → IsDistinct xs → IsDistinct ys
  IsDistinct-Permutes same h = h
  IsDistinct-Permutes (below {x = x} d) h =
      (All-Permutes (IsOther x) d h.0, IsDistinct-Permutes d h.1)
  IsDistinct-Permutes swap h = ((λ e. h.0.0 (sym e), h.1.0), (h.0.1, h.1.1))
  IsDistinct-Permutes (trans d₁ d₂) h = IsDistinct-Permutes d₂ (IsDistinct-Permutes d₁ h)

  insert_by_id-Permutes :
      (x : TorrentStatus F) (ys : List (TorrentStatus F)) → Permutes (x ∷ ys) (insert_by_id x ys)
  unfolding insert_by_id
  insert_by_id-Permutes x [] = same
  insert_by_id-Permutes x (y ∷ ys) = elim (Bool-cases (leb x.id y.id)) [
    | inl e ↦ rw (e, insert_by_id) same
    | inr e ↦ rw (e, insert_by_id) (trans swap (below (insert_by_id-Permutes x ys)))
  ]

  sort_by_id-Permutes : (xs : List (TorrentStatus F)) → Permutes xs (sort_by_id xs)
  unfolding sort_by_id
  sort_by_id-Permutes [] = same
  sort_by_id-Permutes (x ∷ xs) =
      trans (below (sort_by_id-Permutes xs)) (insert_by_id-Permutes x (sort_by_id xs))

  insert_by_id-IsAscending :
      (x : TorrentStatus F) (ys : List (TorrentStatus F))
      → All (IsOther x) ys
      → IsAscending ys
      → IsAscending (insert_by_id x ys)
  unfolding insert_by_id
  insert_by_id-IsAscending x [] h k = (tt, tt)
  insert_by_id-IsAscending x (y ∷ ys) h k = elim (Bool-cases (leb x.id y.id)) [
    | inl e ↦
        let first : x.id < y.id = ground (arith, e, h.0) in
        rw (e, insert_by_id)
          (
            (
              first,
              All-weaken (λ z. y.id < z.id) (λ z. x.id < z.id) ys (λ z l. omega (arith, first, l))
                  k.0,
            ),
            k,
          )
    | inr e ↦
        let first : y.id < x.id = ground (arith, e) in
        rw (e, insert_by_id)
          (
            All-Permutes (λ z. y.id < z.id) (insert_by_id-Permutes x ys) (first, k.0),
            insert_by_id-IsAscending x ys h.1 k.1,
          )
  ]

  sort_by_id-IsAscending :
      (xs : List (TorrentStatus F)) → IsDistinct xs → IsAscending (sort_by_id xs)
  unfolding sort_by_id
  sort_by_id-IsAscending [] h = tt
  sort_by_id-IsAscending (x ∷ xs) h =
      insert_by_id-IsAscending x (sort_by_id xs)
        (All-Permutes (IsOther x) (sort_by_id-Permutes xs) h.0) (sort_by_id-IsAscending xs h.1)

  insert_by_id_comm :
      (x y : TorrentStatus F) (zs : List (TorrentStatus F))
      → IsOther x y
      → insert_by_id x (insert_by_id y zs) ≡ insert_by_id y (insert_by_id x zs)
  unfolding insert_by_id
  insert_by_id_comm x y [] h = ground (arith, h)
  insert_by_id_comm x y (z ∷ zs) h = ground (arith, h, insert_by_id_comm x y zs h)

  sort_by_id_perm :
      {xs ys : List (TorrentStatus F)}
      → Permutes xs ys
      → IsDistinct xs
      → sort_by_id xs ≡ sort_by_id ys
  unfolding sort_by_id
  sort_by_id_perm same h = refl
  sort_by_id_perm (below {x = x} d) h = ap (λ xs. insert_by_id x xs) (sort_by_id_perm d h.1)
  sort_by_id_perm (swap {x = x} {y = y} {xs = xs}) h = insert_by_id_comm x y (sort_by_id xs) h.0.0
  sort_by_id_perm (trans d₁ d₂) h =
      sort_by_id_perm d₁ h ∙ sort_by_id_perm d₂ (IsDistinct-Permutes d₁ h)

module _ {F : Type 0} (env : Env F) (clock : ℕ → ℕ) where
  -- The ids of the statuses are those that the torrents stand under.
  statuses-IsOther :
      (n id : ℕ) (x : TorrentStatus F) (t : Table TorrentHandle)
      → x.id ≡ id
      → All (IsOwn n) t
      → get t id ≡ none
      → All (IsOther x) (statuses env clock t)
  unfolding statuses get status_of
  statuses-IsOther n id x [] e own h = tt
  statuses-IsOther n id x ((i, handle) ∷ t) e own h =
      let other : i ≢ id = ground arith in
      (λ eq. other (sym own.0.0 ∙ sym eq ∙ e), statuses-IsOther n id x t e own.1 (ground arith))

  statuses-IsDistinct :
      (n : ℕ) (t : Table TorrentHandle)
      → IsMap t
      → All (IsOwn n) t
      → IsDistinct (statuses env clock t)
  unfolding statuses status_of
  statuses-IsDistinct n [] h own = tt
  statuses-IsDistinct n ((i, handle) ∷ t) h own = (
    statuses-IsOther n i (status_of env (clock i) handle.state) t own.0.0 own.1 h.0,
    statuses-IsDistinct n t h.1 own.1,
  )

  statuses-Permutes :
      {t u : Table TorrentHandle}
      → Permutes t u
      → Permutes (statuses env clock t) (statuses env clock u)
  unfolding statuses
  statuses-Permutes same = same
  statuses-Permutes (below d) = below (statuses-Permutes d)
  statuses-Permutes swap = swap
  statuses-Permutes (trans d₁ d₂) = trans (statuses-Permutes d₁) (statuses-Permutes d₂)

  -- The list that is answered has each torrent once, in the order of the ids.
  pub list_all-IsAscending :
      (s : RpcServer)
      → IsConsistent s
      → (list : List (TorrentStatus F)) × (list_all env clock s ≡ Response.torrent_list list)
        × IsAscending list
        × Permutes (statuses env clock s.torrents) list
  unfolding list_all
  list_all-IsAscending s h =
      let xs = statuses env clock s.torrents in
      (
        sort_by_id xs,
        refl,
        sort_by_id-IsAscending xs
            (statuses-IsDistinct s.next_id s.torrents h.torrents_map h.torrents_own),
        sort_by_id-Permutes xs,
      )

  -- The list does not depend on the order in which the table of torrents iterates.
  pub list_all-Permutes :
      (s : RpcServer) (t : Table TorrentHandle)
      → IsConsistent s
      → Permutes s.torrents t
      → list_all env clock (record s { torrents = t }) ≡ list_all env clock s
  unfolding list_all
  list_all-Permutes s t h d = ap Response.torrent_list (
      sym (
        sort_by_id_perm (statuses-Permutes d)
          (statuses-IsDistinct s.next_id s.torrents h.torrents_map h.torrents_own)))
