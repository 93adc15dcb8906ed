-- ===== src/Server/Add.antt =====
-- `add_torrent_internal` of crates/daemon/src/server.rs, as one step: the locks that it takes one after the
-- other let other handlers in between, and that is left out.
use torrent_rust_cli.Common.{
  ℕ, ◌+◌, ◌-◌, ◌%◌, ◌^◌, [], ◌∷◌, ◌++◌, Option, none, some, Bytes, bytes_eq, if◌then◌else◌, ◌==◌,
  Outcome, ok, err, panic, out_of_fuel,
}
use torrent_rust_cli.Common.Texts.{codes}
use torrent_rust_cli.Common.Decimal.{print_nat}
use torrent_rust_cli.Rpc.Types.{Response, error, torrent_added}
use torrent_rust_cli.Rpc.Exchange.{RpcError}
use torrent_rust_cli.Magnet.Hex.{to_hex}
use torrent_rust_cli.Magnet.Link.{MagnetLink, parse}
use torrent_rust_cli.Magnet.BareHash.{bare_hash_link}
use torrent_rust_cli.Magnet.UrlDecode.{MagnetError}
use torrent_rust_cli.Meta.Types.{TorrentMeta, MetaError}
use torrent_rust_cli.Meta.Parse.{from_bytes}
use torrent_rust_cli.Server.Table.{Table, insert}
use torrent_rust_cli.Server.Types.{MagnetWorker, fetch, TorrentHandle, Config, RpcServer, Env}
use torrent_rust_cli.Server.Text.{trim, is_bare_hash, is_magnet, starts_with}
use torrent_rust_cli.Server.State.{read_file, save_paths}
use torrent_rust_cli.Server.Restore.{cache_path, exists, fetching_state, checking_state, put_handle}

-- The first torrent in the order of iteration with the info hash.
unfoldable pub find_hash : Bytes → Table TorrentHandle → Option TorrentHandle
find_hash info_hash [] = none
find_hash info_hash ((id, handle) ∷ t) =
    let rest = find_hash info_hash t in
    if bytes_eq handle.state.info_hash info_hash then some handle else rest

-- `self.next_id.fetch_add(1)`: the id is the old value, and the counter goes round.
unfoldable pub take_id : RpcServer → RpcServer
take_id s = record s { next_id = (s.next_id + 1) % 2 ^ 32 }

unfoldable pub spawn_restore : ℕ → Bytes → RpcServer → RpcServer
spawn_restore id path s = record s { spawned = s.spawned ++ (record { id = id; path = path } ∷ []) }

module _ {F : Type 0} (env : Env F) where
  unfoldable pub already_added : TorrentHandle → Response F
  already_added existing = error (
      codes "Torrent '"
      ++ (existing.state.name
          ++ (codes "' is already added (ID " ++ (print_nat existing.state.id ++ codes ")"))))

  -- The entry is put into the saved paths, and they are written out.
  unfoldable pub persist : ℕ → Bytes → Option Bytes → RpcServer → RpcServer
  persist id path dir s =
      save_paths env (insert id (record { id = id; path = path; download_dir = dir }) s.saved_paths)
        s

  -- An id of its own, or the one that was taken last.
  unfoldable pub next_file_id : Bytes → Option Bytes → RpcServer → Outcome RpcError (ℕ × RpcServer)
  unfolding take_id persist
  next_file_id path dir s =
      if starts_with (s.config.metadata_dir ++ (b'/' ∷ [])) path
      then (if s.next_id == 0 then panic else ok (s.next_id - 1, s))
      else ok (s.next_id, persist s.next_id path dir (take_id s))

  unfoldable pub file_added :
      Bytes
      → TorrentMeta
      → Outcome RpcError (ℕ × RpcServer)
      → Outcome RpcError (Response F × RpcServer)
  unfolding put_handle spawn_restore
  file_added path meta (ok (new_id, s)) = ok (
    torrent_added new_id,
    spawn_restore new_id path (
        put_handle new_id
          (record { state = checking_state new_id meta; engine = none; worker_handle = none }) s),
  )
  file_added path meta (err e) = err e
  file_added path meta panic = panic
  file_added path meta out_of_fuel = out_of_fuel

  unfoldable pub add_meta :
      Bytes → Option Bytes → TorrentMeta → RpcServer → Outcome RpcError (Response F × RpcServer)
  unfolding file_added
  add_meta path dir meta s = elim (find_hash (to_hex meta.info_hash) s.torrents) [
    | some existing ↦ ok (already_added existing, s)
    | none ↦ file_added path meta (next_file_id path dir s)
  ]

  unfoldable pub add_parsed :
      Bytes
      → Option Bytes
      → RpcServer
      → Outcome MetaError TorrentMeta
      → Outcome RpcError (Response F × RpcServer)
  add_parsed path dir s (ok meta) = add_meta path dir meta s
  add_parsed path dir s (err e) =
      ok (error (codes "Failed to parse torrent metainfo: " ++ env.meta_error e), s)
  add_parsed path dir s panic = panic
  add_parsed path dir s out_of_fuel = out_of_fuel

  unfoldable pub add_file :
      Bytes → Option Bytes → RpcServer → Outcome RpcError (Response F × RpcServer)
  unfolding add_parsed
  add_file path dir s = elim (read_file s.files path) [
    | none ↦ ok (error (codes "Failed to read torrent file: " ++ env.read_error), s)
    | some bytes ↦ add_parsed path dir s (from_bytes env.sha1 bytes)
  ]

  -- A magnet link without metadata in the cache: a worker that fetches it, into the directory of the
  -- configuration.
  unfoldable pub add_fetching :
      Bytes → Option Bytes → MagnetLink → RpcServer → Response F × RpcServer
  unfolding take_id persist put_handle
  add_fetching path dir magnet s =
      let new_id = s.next_id in
      let worker : MagnetWorker = record {
        id = new_id;
        magnet = magnet;
        download_dir = s.config.download_dir;
        metadata_dir = s.config.metadata_dir;
      } in
      let handle : TorrentHandle = record {
        state = fetching_state new_id magnet;
        engine = none;
        worker_handle = some (fetch worker);
      } in
      (torrent_added new_id, persist new_id path dir (put_handle new_id handle (take_id s)))

  -- The id is taken and the link persisted before the cached file is read.
  unfoldable pub add_link :
      Bytes → Option Bytes → MagnetLink → RpcServer → Outcome RpcError (Response F × RpcServer)
  unfolding take_id persist exists add_fetching
  add_link path dir magnet s =
      let cached = cache_path s.config magnet.info_hash in
      let from_cache = add_file cached dir (persist s.next_id path dir (take_id s)) in
      elim (find_hash (to_hex magnet.info_hash) s.torrents) [
        | some existing ↦ ok (already_added existing, s)
        | none ↦ if exists s.files cached then from_cache else ok (add_fetching path dir magnet s)
      ]

  unfoldable pub add_parsed_link :
      Bytes
      → Option Bytes
      → RpcServer
      → Outcome MagnetError MagnetLink
      → Outcome RpcError (Response F × RpcServer)
  add_parsed_link path dir s (ok magnet) = add_link path dir magnet s
  add_parsed_link path dir s (err e) =
      ok (error (codes "Invalid magnet link: " ++ env.magnet_error e), s)
  add_parsed_link path dir s panic = panic
  add_parsed_link path dir s out_of_fuel = out_of_fuel

  -- A text that is a link or a path.
  unfoldable pub add_text :
      Bytes → Option Bytes → RpcServer → Outcome RpcError (Response F × RpcServer)
  unfolding add_parsed_link
  add_text text dir s =
      let link = add_parsed_link text dir s (parse text) in
      let file = add_file text dir s in if is_magnet text then link else file

  -- A bare info hash stands for a link with the default trackers.
  unfoldable pub expand_hash : Config → Bytes → Bytes
  expand_hash config text =
      if is_bare_hash text
      then bare_hash_link env.byte_serialize text config.default_trackers
      else text

  unfoldable pub add_torrent_internal :
      Bytes → Option Bytes → RpcServer → Outcome RpcError (Response F × RpcServer)
  unfolding add_text expand_hash
  add_torrent_internal path_or_magnet custom_download_dir s =
      add_text (expand_hash s.config (trim path_or_magnet)) custom_download_dir s
