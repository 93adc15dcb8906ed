-- ===== src/Server/Kept.antt =====
-- A property of the server that its steps keep, of crates/daemon/src/server.rs: what it takes of the few
-- changes that requests and restores are made of, and that this is enough for all of them.
use torrent_rust_cli.Common.{Yields, ℕ, ◌+◌, ◌^◌, ◌<◌, ◌≡◌, List, ◌∷◌, ◌++◌, Option, Bytes, Outcome}
use torrent_rust_cli.Rpc.Exchange.{RpcError}
use torrent_rust_cli.Server.Table.{remove}
use torrent_rust_cli.Server.Types.{TorrentHandle, Restore, RpcServer, Env}
use torrent_rust_cli.Server.State.{write_file, save_paths}
use torrent_rust_cli.Server.Restore.{put_handle}
use torrent_rust_cli.Server.Add.{take_id, persist, spawn_restore}
use torrent_rust_cli.Server.Requests.{out_path}
use torrent_rust_cli.Server.Consistent.{IsConsistent, IsSound}

pub record IsKept {F : Type 0} (env : Env F) (P : RpcServer → Type 0) : Type 0 where
  pub consistent : (s : RpcServer) → P s → IsConsistent s
  pub put_handle_kept :
      (s : RpcServer) (id : ℕ) (handle : TorrentHandle)
      → P s
      → handle.state.id ≡ id
      → id < s.next_id
      → IsSound handle
      → P (put_handle id handle s)
  pub persist_kept :
      (s : RpcServer) (id : ℕ) (path : Bytes) (dir : Option Bytes)
      → P s
      → id < s.next_id
      → P (persist env id path dir s)
  pub take_id_kept : (s : RpcServer) → P s → s.next_id + 1 < 2 ^ 32 → P (take_id s)
  pub spawn_restore_kept :
      (s : RpcServer) (id : ℕ) (path : Bytes) → P s → id < s.next_id → P (spawn_restore id path s)
  -- One of the spawned restores begins.
  pub begin_kept :
      (s : RpcServer) (before after : List Restore) (r : Restore)
      → P s
      → s.spawned ≡ before ++ (r ∷ after)
      → P (record s { spawned = before ++ after })
  pub remove_kept :
      (s : RpcServer) (id : ℕ)
      → P s
      → P (save_paths env (remove id s.saved_paths) (record s { torrents = remove id s.torrents }))
  pub create_kept :
      (s : RpcServer) (path bytes : Bytes)
      → P s
      → P (record s { files = write_file (out_path path) bytes s.files })

-- The server that an outcome leaves has the property.
abbrev pub Keeps : (RpcServer → Type 0) → {A : Type 0} → Outcome RpcError (A × RpcServer) → Type 0
Keeps P r = Yields (λ p. P p.1) r
