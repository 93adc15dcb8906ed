-- ===== src/Server/Adding.antt =====
-- What `add_torrent_internal` of crates/daemon/src/server.rs does to the table of torrents.
use torrent_rust_cli.Common.{
  Yields, Yields-ok, ℕ, ◌≡◌, refl, subst, [], ◌∷◌, ◌++◌, Option, none, Bytes, false, bytes_eq,
  bytes_eq_self, bytes_eq→eq, Outcome, ok, err, panic, out_of_fuel, ◌==◌, Option-cases, Bool-cases,
  inl, inr,
}
use torrent_rust_cli.Rpc.Types.{Response}
use torrent_rust_cli.Rpc.Exchange.{RpcError}
use torrent_rust_cli.Magnet.Link.{MagnetLink, parse}
use torrent_rust_cli.Magnet.Hex.{to_hex}
use torrent_rust_cli.Magnet.UrlDecode.{MagnetError}
use torrent_rust_cli.Meta.Types.{TorrentMeta, MetaError}
use torrent_rust_cli.Meta.Parse.{from_bytes}
use torrent_rust_cli.Server.Table.{Table, insert}
use torrent_rust_cli.Server.Types.{TorrentHandle, RpcServer, Env}
use torrent_rust_cli.Server.Text.{is_magnet, starts_with}
use torrent_rust_cli.Server.State.{read_file, save_paths}
use torrent_rust_cli.Server.Restore.{cache_path, exists, put_handle}
use torrent_rust_cli.Server.Add.{
  find_hash, take_id, persist, spawn_restore, next_file_id, file_added, add_meta, add_parsed,
  add_file, add_fetching, add_link, add_parsed_link, add_text, add_torrent_internal,
}

-- No two torrents have the same info hash.
abbrev pub HasUniqueHashes : Table TorrentHandle → Type 0
HasUniqueHashes [] = Unit {0}
HasUniqueHashes ((id, handle) ∷ t) = (find_hash handle.state.info_hash t ≡ none) × HasUniqueHashes t

bytes_eq_sym : (xs ys : Bytes) → bytes_eq xs ys ≡ false → bytes_eq ys xs ≡ false
bytes_eq_sym xs ys h = elim (Bool-cases (bytes_eq ys xs)) [
  | inl e ↦
      let same = bytes_eq→eq ys xs e in
      let other : bytes_eq xs xs ≡ false = subst (λ t. bytes_eq xs t ≡ false) same h in
      let self = bytes_eq_self xs in cc
  | inr e ↦ e
]

-- A torrent of another hash is not found where it is put.
find_hash-insert :
    (hash : Bytes) (id : ℕ) (handle : TorrentHandle) (t : Table TorrentHandle)
    → bytes_eq handle.state.info_hash hash ≡ false
    → find_hash hash t ≡ none
    → find_hash hash (insert id handle t) ≡ none
unfolding find_hash insert
find_hash-insert hash id handle [] e h = rw (e, find_hash) refl
find_hash-insert hash id handle ((j, other) ∷ t) e h =
    elim (Bool-cases (bytes_eq other.state.info_hash hash)) [
      | inl f ↦ let found = rw (f, find_hash) at h in cc
      | inr f ↦
          let rest : find_hash hash t ≡ none = rw (f, find_hash) at h in
          elim (Bool-cases (j == id)) [
            | inl g ↦ rw (g, e, find_hash, insert) rest
            | inr g ↦ rw (g, f, find_hash, insert) (find_hash-insert hash id handle t e rest)
          ]
    ]

insert-HasUniqueHashes :
    (id : ℕ) (handle : TorrentHandle) (t : Table TorrentHandle)
    → find_hash handle.state.info_hash t ≡ none
    → HasUniqueHashes t
    → HasUniqueHashes (insert id handle t)
unfolding find_hash insert
insert-HasUniqueHashes id handle [] e h = (refl, tt)
insert-HasUniqueHashes id handle ((j, other) ∷ t) e h =
    let hash = handle.state.info_hash in
    elim (Bool-cases (bytes_eq other.state.info_hash hash)) [
      | inl f ↦ let found = rw (f, find_hash) at e in cc
      | inr f ↦
          let rest : find_hash hash t ≡ none = rw (f, find_hash) at e in
          elim (Bool-cases (j == id)) [
            | inl g ↦ rw (g, insert) (rest, h.1)
            | inr g ↦
                rw (g, insert)
                  (
                    find_hash-insert other.state.info_hash id handle t
                        (bytes_eq_sym other.state.info_hash hash f) h.0,
                    insert-HasUniqueHashes id handle t rest h.1,
                  )
          ]
    ]

module _ {F : Type 0} (env : Env F) where
  abbrev KeepsUnique : Outcome RpcError (Response F × RpcServer) → Type 0
  KeepsUnique r = Yields (λ p. HasUniqueHashes p.1.torrents) r

  next_file_id_torrents :
      (path : Bytes) (dir : Option Bytes) (s : RpcServer)
      → Yields (λ (q : ℕ × RpcServer). q.1.torrents ≡ s.torrents) (next_file_id env path dir s)
  unfolding next_file_id persist save_paths take_id
  next_file_id_torrents path dir s =
      elim (Bool-cases (starts_with (s.config.metadata_dir ++ (b'/' ∷ [])) path)) [
        | inl e ↦ elim (Bool-cases (s.next_id == 0)) [
          | inl z ↦ rw (e, z) tt
          | inr z ↦ rw (e, z) refl
        ]
        | inr e ↦ rw e refl
      ]

  file_added_unique :
      (path : Bytes) (meta : TorrentMeta) (s : RpcServer) (r : Outcome RpcError (ℕ × RpcServer))
      → Yields (λ (q : ℕ × RpcServer). q.1.torrents ≡ s.torrents) r
      → find_hash (to_hex meta.info_hash) s.torrents ≡ none
      → HasUniqueHashes s.torrents
      → KeepsUnique (file_added env path meta r)
  unfolding file_added put_handle spawn_restore
  file_added_unique path meta s (ok (id, s')) same h u =
      insert-HasUniqueHashes id _ s'.torrents (rw same h) (rw same u)
  file_added_unique path meta s (err e) same h u = tt
  file_added_unique path meta s panic same h u = tt
  file_added_unique path meta s out_of_fuel same h u = tt

  add_meta_unique :
      (path : Bytes) (dir : Option Bytes) (meta : TorrentMeta) (s : RpcServer)
      → HasUniqueHashes s.torrents
      → KeepsUnique (add_meta env path dir meta s)
  unfolding add_meta
  add_meta_unique path dir meta s u =
      elim (Option-cases (find_hash (to_hex meta.info_hash) s.torrents)) [
        | inl e ↦
            rw (e, add_meta)
              (file_added_unique path meta s _ (next_file_id_torrents path dir s) e u)
        | inr (handle, e) ↦ rw (e, add_meta) u
      ]

  add_parsed_unique :
      (path : Bytes) (dir : Option Bytes) (s : RpcServer) (r : Outcome MetaError TorrentMeta)
      → HasUniqueHashes s.torrents
      → KeepsUnique (add_parsed env path dir s r)
  unfolding add_parsed
  add_parsed_unique path dir s (ok meta) u = add_meta_unique path dir meta s u
  add_parsed_unique path dir s (err e) u = u
  add_parsed_unique path dir s panic u = tt
  add_parsed_unique path dir s out_of_fuel u = tt

  add_file_unique :
      (path : Bytes) (dir : Option Bytes) (s : RpcServer)
      → HasUniqueHashes s.torrents
      → KeepsUnique (add_file env path dir s)
  unfolding add_file
  add_file_unique path dir s u = elim (Option-cases (read_file s.files path)) [
    | inl e ↦ rw (e, add_file) u
    | inr (bytes, e) ↦ rw (e, add_file) (add_parsed_unique path dir s (from_bytes env.sha1 bytes) u)
  ]

  add_link_unique :
      (path : Bytes) (dir : Option Bytes) (magnet : MagnetLink) (s : RpcServer)
      → HasUniqueHashes s.torrents
      → KeepsUnique (add_link env path dir magnet s)
  unfolding add_link add_fetching put_handle persist save_paths take_id
  add_link_unique path dir magnet s u =
      let cached = cache_path s.config magnet.info_hash in
      elim (Option-cases (find_hash (to_hex magnet.info_hash) s.torrents)) [
        | inl e ↦ elim (Bool-cases (exists s.files cached)) [
          | inl f ↦ rw (e, f, add_link) (add_file_unique cached dir _ u)
          | inr f ↦ rw (e, f, add_link) (insert-HasUniqueHashes s.next_id _ s.torrents e u)
        ]
        | inr (handle, e) ↦ rw (e, add_link) u
      ]

  add_parsed_link_unique :
      (path : Bytes) (dir : Option Bytes) (s : RpcServer) (r : Outcome MagnetError MagnetLink)
      → HasUniqueHashes s.torrents
      → KeepsUnique (add_parsed_link env path dir s r)
  unfolding add_parsed_link
  add_parsed_link_unique path dir s (ok magnet) u = add_link_unique path dir magnet s u
  add_parsed_link_unique path dir s (err e) u = u
  add_parsed_link_unique path dir s panic u = tt
  add_parsed_link_unique path dir s out_of_fuel u = tt

  add_text_unique :
      (text : Bytes) (dir : Option Bytes) (s : RpcServer)
      → HasUniqueHashes s.torrents
      → KeepsUnique (add_text env text dir s)
  unfolding add_text
  add_text_unique text dir s u = elim (Bool-cases (is_magnet text)) [
    | inl e ↦ rw e (add_parsed_link_unique text dir s (parse text) u)
    | inr e ↦ rw e (add_file_unique text dir s u)
  ]

  -- Whatever is added, by path, link or bare hash, no info hash comes to be in the table twice.
  pub add_torrent_internal-HasUniqueHashes :
      (text : Bytes) (dir : Option Bytes) (s s' : RpcServer) (response : Response F)
      → HasUniqueHashes s.torrents
      → add_torrent_internal env text dir s ≡ ok (response, s')
      → HasUniqueHashes s'.torrents
  unfolding add_torrent_internal
  add_torrent_internal-HasUniqueHashes text dir s s' response u e =
      Yields-ok (λ p. HasUniqueHashes p.1.torrents) _ (response, s') (add_text_unique _ dir s u) e
