-- ===== src/Server/KeptByAdds.antt =====
-- What the server keeps while `add_torrent_internal` of crates/daemon/src/server.rs runs.
use torrent_rust_cli.Common.{
  Yields, ℕ, ◌+◌, ◌^◌, ◌<◌, refl, [], ◌∷◌, ◌++◌, Option, Bytes, Outcome, ok, err, panic,
  out_of_fuel, arith, ◌==◌, Option-cases, Bool-cases, inl, inr,
}
use torrent_rust_cli.Rpc.Exchange.{RpcError}
use torrent_rust_cli.Magnet.Link.{MagnetLink, parse}
use torrent_rust_cli.Magnet.Hex.{to_hex}
use torrent_rust_cli.Magnet.UrlDecode.{MagnetError}
use torrent_rust_cli.Meta.Types.{TorrentMeta, MetaError}
use torrent_rust_cli.Meta.Parse.{from_bytes}
use torrent_rust_cli.Server.Types.{RpcServer, Env}
use torrent_rust_cli.Server.Text.{is_magnet, starts_with}
use torrent_rust_cli.Server.State.{read_file, save_paths}
use torrent_rust_cli.Server.Restore.{cache_path, exists, put_handle}
use torrent_rust_cli.Server.Add.{
  find_hash, take_id, persist, next_file_id, file_added, add_meta, add_parsed, add_file,
  add_fetching, add_link, add_parsed_link, add_text, add_torrent_internal,
}
use torrent_rust_cli.Server.Kept.{Keeps, IsKept}

module _ {F : Type 0} (env : Env F) (P : RpcServer → Type 0) (kept : IsKept env P) where
  open kept use {put_handle_kept, persist_kept, take_id_kept, spawn_restore_kept}

  -- The id of an added file, which is below the next one.
  next_file_id_kept :
      (path : Bytes) (dir : Option Bytes) (s : RpcServer)
      → P s
      → s.next_id + 1 < 2 ^ 32
      → Yields (λ (r : ℕ × RpcServer). P r.1 × (r.0 < r.1.next_id)) (next_file_id env path dir s)
  unfolding next_file_id
  next_file_id_kept path dir s h l =
      let fresh : s.next_id < (take_id s).next_id = unfold take_id in omega arith in
      let later : s.next_id < (persist env s.next_id path dir (take_id s)).next_id =
        unfold persist save_paths in fresh in
      let taken = persist_kept (take_id s) s.next_id path dir (take_id_kept s h l) fresh in
      elim (Bool-cases (starts_with (s.config.metadata_dir ++ (b'/' ∷ [])) path)) [
        | inl e ↦ elim (Bool-cases (s.next_id == 0)) [
          | inl z ↦ rw (e, z) tt
          | inr z ↦ rw (e, z) (h, ground (arith, z))
        ]
        | inr e ↦ rw e (taken, later)
      ]

  file_added_kept :
      (path : Bytes) (meta : TorrentMeta) (r : Outcome RpcError (ℕ × RpcServer))
      → Yields (λ (q : ℕ × RpcServer). P q.1 × (q.0 < q.1.next_id)) r
      → Keeps P (file_added env path meta r)
  unfolding file_added
  file_added_kept path meta (ok (id, s)) (h, l) =
      spawn_restore_kept _ id path (put_handle_kept s id _ h refl l (λ d q. cc))
        (unfold put_handle in l)
  file_added_kept path meta (err e) h = tt
  file_added_kept path meta panic h = tt
  file_added_kept path meta out_of_fuel h = tt

  add_meta_kept :
      (path : Bytes) (dir : Option Bytes) (meta : TorrentMeta) (s : RpcServer)
      → P s
      → s.next_id + 1 < 2 ^ 32
      → Keeps P (add_meta env path dir meta s)
  unfolding add_meta
  add_meta_kept path dir meta s h l =
      elim (Option-cases (find_hash (to_hex meta.info_hash) s.torrents)) [
        | inl e ↦ rw (e, add_meta) (file_added_kept path meta _ (next_file_id_kept path dir s h l))
        | inr (handle, e) ↦ rw (e, add_meta) h
      ]

  add_parsed_kept :
      (path : Bytes) (dir : Option Bytes) (s : RpcServer) (r : Outcome MetaError TorrentMeta)
      → P s
      → s.next_id + 1 < 2 ^ 32
      → Keeps P (add_parsed env path dir s r)
  unfolding add_parsed
  add_parsed_kept path dir s (ok meta) h l = add_meta_kept path dir meta s h l
  add_parsed_kept path dir s (err e) h l = h
  add_parsed_kept path dir s panic h l = tt
  add_parsed_kept path dir s out_of_fuel h l = tt

  pub add_file_kept :
      (path : Bytes) (dir : Option Bytes) (s : RpcServer)
      → P s
      → s.next_id + 1 < 2 ^ 32
      → Keeps P (add_file env path dir s)
  unfolding add_file
  add_file_kept path dir s h l = elim (Option-cases (read_file s.files path)) [
    | inl e ↦ rw (e, add_file) h
    | inr (bytes, e) ↦ rw (e, add_file) (add_parsed_kept path dir s (from_bytes env.sha1 bytes) h l)
  ]

  -- A link may take two ids.
  add_link_kept :
      (path : Bytes) (dir : Option Bytes) (magnet : MagnetLink) (s : RpcServer)
      → P s
      → s.next_id + 2 < 2 ^ 32
      → Keeps P (add_link env path dir magnet s)
  unfolding add_link add_fetching
  add_link_kept path dir magnet s h l =
      let taken = take_id_kept s h (omega (arith, l)) in
      let fresh : s.next_id < (take_id s).next_id = unfold take_id in omega (arith, l) in
      let room : (persist env s.next_id path dir (take_id s)).next_id + 1 < 2 ^ 32 =
        unfold persist save_paths take_id in omega (arith, l) in
      let cached = cache_path s.config magnet.info_hash in
      elim (Option-cases (find_hash (to_hex magnet.info_hash) s.torrents)) [
        | inl e ↦ elim (Bool-cases (exists s.files cached)) [
          | inl f ↦
              rw (e, f, add_link)
                (add_file_kept cached dir _ (persist_kept _ s.next_id path dir taken fresh) room)
          | inr f ↦
              rw (e, f, add_link)
                (persist_kept _ s.next_id path dir
                  (put_handle_kept _ s.next_id _ taken refl fresh (λ d q. cc))
                  (unfold put_handle in fresh))
        ]
        | inr (handle, e) ↦ rw (e, add_link) h
      ]

  add_parsed_link_kept :
      (path : Bytes) (dir : Option Bytes) (s : RpcServer) (r : Outcome MagnetError MagnetLink)
      → P s
      → s.next_id + 2 < 2 ^ 32
      → Keeps P (add_parsed_link env path dir s r)
  unfolding add_parsed_link
  add_parsed_link_kept path dir s (ok magnet) h l = add_link_kept path dir magnet s h l
  add_parsed_link_kept path dir s (err e) h l = h
  add_parsed_link_kept path dir s panic h l = tt
  add_parsed_link_kept path dir s out_of_fuel h l = tt

  add_text_kept :
      (text : Bytes) (dir : Option Bytes) (s : RpcServer)
      → P s
      → s.next_id + 2 < 2 ^ 32
      → Keeps P (add_text env text dir s)
  unfolding add_text
  add_text_kept text dir s h l = elim (Bool-cases (is_magnet text)) [
    | inl e ↦ rw e (add_parsed_link_kept text dir s (parse text) h l)
    | inr e ↦ rw e (add_file_kept text dir s h (omega (arith, l)))
  ]

  pub add_torrent_internal_kept :
      (text : Bytes) (dir : Option Bytes) (s : RpcServer)
      → P s
      → s.next_id + 2 < 2 ^ 32
      → Keeps P (add_torrent_internal env text dir s)
  unfolding add_torrent_internal
  add_torrent_internal_kept text dir s h l = add_text_kept _ dir s h l
