-- ===== src/Server/Consistent.antt =====
-- What holds of the server of crates/daemon/src/server.rs whatever is asked of it: ids are used
-- consistently, and none is used before it is given out.
use torrent_rust_cli.Common.{
  ℕ, ◌+◌, ◌%◌, ◌^◌, ◌<◌, ◌≡◌, refl, Option, some, Bytes, All, All-append, All-weaken, arith,
}
use torrent_rust_cli.Server.Table.{
  remove, IsMap, insert-IsMap, remove-IsMap, insert-All, remove-All,
}
use torrent_rust_cli.Server.Types.{SavedTorrent, Downloader, TorrentHandle, Restore, RpcServer, Env}
use torrent_rust_cli.Magnet.Hex.{to_hex}
use torrent_rust_cli.Server.State.{save_paths}
use torrent_rust_cli.Server.Restore.{put_handle}
use torrent_rust_cli.Server.Add.{take_id, persist, spawn_restore}

-- The engine, if there is one, is of the torrent that the state says.
abbrev pub IsSound : TorrentHandle → Type 0
IsSound handle =
    (d : Downloader) → handle.engine ≡ some d → to_hex d.meta.info_hash ≡ handle.state.info_hash

abbrev pub IsOwn : ℕ → ℕ × TorrentHandle → Type 0
IsOwn n (id, handle) = (handle.state.id ≡ id) × (id < n) × IsSound handle

abbrev pub IsSaved : ℕ → ℕ × SavedTorrent → Type 0
IsSaved n (id, entry) = (entry.id ≡ id) × (id < n)

abbrev pub IsPlanned : ℕ → Restore → Type 0
IsPlanned n r = r.id < n

-- The tables are maps; a torrent and a saved entry carry the id they stand under; every id, also of the
-- restores to come, is below the next one; and engines are of the torrents they stand with.
pub record IsConsistent (s : RpcServer) : Type 0 where
  pub torrents_map : IsMap s.torrents
  pub saved_map : IsMap s.saved_paths
  pub torrents_own : All (IsOwn s.next_id) s.torrents
  pub saved_own : All (IsSaved s.next_id) s.saved_paths
  pub planned : All (IsPlanned s.next_id) s.spawned

module _ (s : RpcServer) (h : IsConsistent s) where
  pub put_handle-IsConsistent :
      (id : ℕ) (handle : TorrentHandle)
      → handle.state.id ≡ id
      → id < s.next_id
      → IsSound handle
      → IsConsistent (put_handle id handle s)
  unfolding put_handle
  put_handle-IsConsistent id handle e l sound = record {
    torrents_map = insert-IsMap id handle s.torrents h.torrents_map;
    saved_map = h.saved_map;
    torrents_own = insert-All (IsOwn s.next_id) id handle s.torrents (e, l, sound) h.torrents_own;
    saved_own = h.saved_own;
    planned = h.planned;
  }

  pub persist-IsConsistent :
      {F : Type 0} (env : Env F) (id : ℕ) (path : Bytes) (dir : Option Bytes)
      → id < s.next_id
      → IsConsistent (persist env id path dir s)
  unfolding persist save_paths
  persist-IsConsistent env id path dir l = record {
    torrents_map = h.torrents_map;
    saved_map = insert-IsMap id _ s.saved_paths h.saved_map;
    torrents_own = h.torrents_own;
    saved_own = insert-All (IsSaved s.next_id) id _ s.saved_paths (refl, l) h.saved_own;
    planned = h.planned;
  }

  -- Fewer than 2 ^ 32 ids are given out.
  pub take_id-IsConsistent :
      s.next_id + 1 < 2 ^ 32 → IsConsistent (take_id s) × (s.next_id < (take_id s).next_id)
  unfolding take_id
  take_id-IsConsistent l =
      let later : (n : ℕ) → n < s.next_id → n < (s.next_id + 1) % 2 ^ 32 = λ n k. omega arith in
      (
        record {
          torrents_map = h.torrents_map;
          saved_map = h.saved_map;
          torrents_own =
              All-weaken _ _ s.torrents (λ (id, handle) (e, k, sound). (e, later id k, sound))
                h.torrents_own;
          saved_own =
              All-weaken _ _ s.saved_paths (λ (id, entry) (e, k). (e, later id k)) h.saved_own;
          planned = All-weaken _ _ s.spawned (λ r k. later r.id k) h.planned;
        },
        omega arith,
      )

  pub spawn_restore-IsConsistent :
      (id : ℕ) (path : Bytes) → id < s.next_id → IsConsistent (spawn_restore id path s)
  unfolding spawn_restore
  spawn_restore-IsConsistent id path l = record {
    torrents_map = h.torrents_map;
    saved_map = h.saved_map;
    torrents_own = h.torrents_own;
    saved_own = h.saved_own;
    planned = All-append (IsPlanned s.next_id) s.spawned _ h.planned (l, tt);
  }

  pub remove_id-IsConsistent :
      {F : Type 0} (env : Env F) (id : ℕ)
      → IsConsistent
          (save_paths env (remove id s.saved_paths) (record s { torrents = remove id s.torrents }))
  unfolding save_paths
  remove_id-IsConsistent env id = record {
    torrents_map = remove-IsMap id s.torrents h.torrents_map;
    saved_map = remove-IsMap id s.saved_paths h.saved_map;
    torrents_own = remove-All (IsOwn s.next_id) id s.torrents h.torrents_own;
    saved_own = remove-All (IsSaved s.next_id) id s.saved_paths h.saved_own;
    planned = h.planned;
  }
