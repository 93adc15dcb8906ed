-- ===== src/Server/Lifetime.antt =====
-- A torrent file of the server of crates/daemon/src/server.rs from its addition over a restart.
use torrent_rust_cli.Common.{ℕ, ◌≡◌, [], ◌∷◌, ◌++◌, Option, none, some, Bytes, false, bytes_eq, ok}
use torrent_rust_cli.Magnet.Link.{magnet_prefix}
use torrent_rust_cli.Magnet.Hex.{to_hex}
use torrent_rust_cli.Meta.Types.{TorrentMeta}
use torrent_rust_cli.Meta.Parse.{from_bytes}
use torrent_rust_cli.Server.Types.{
  SavedTorrent, Downloader, verify_then_announce, TorrentHandle, Config, RpcServer, Env,
}
use torrent_rust_cli.Server.Text.{starts_with}
use torrent_rust_cli.Server.State.{read_file, state_file_path}
use torrent_rust_cli.Server.Restore.{checking_state, put_handle}
use torrent_rust_cli.Server.Add.{find_hash, take_id, persist, spawn_restore}

module _ {F : Type 0} (env : Env F) where
  -- The torrent that a path names, at an address of its own.
  pub record IsAddable (path bytes : Bytes) (meta : TorrentMeta) (s : RpcServer) : Type 0 where
    pub there : read_file s.files path ≡ some bytes
    pub parses : from_bytes env.sha1 bytes ≡ ok meta
    pub unseen : find_hash (to_hex meta.info_hash) s.torrents ≡ none
    pub not_state : bytes_eq state_file_path path ≡ false
    pub not_cached : starts_with (s.config.metadata_dir ++ (b'/' ∷ [])) path ≡ false
    pub not_link : starts_with magnet_prefix path ≡ false

  abbrev entry_of : ℕ → Bytes → Option Bytes → SavedTorrent
  entry_of id path dir = record { id = id; path = path; download_dir = dir }

  abbrev pub loaded : ℕ → TorrentMeta → RpcServer → RpcServer
  loaded id meta s =
      put_handle id (record { state = checking_state id meta; engine = none; worker_handle = none })
        s

  abbrev pub after_add : Bytes → Option Bytes → TorrentMeta → RpcServer → RpcServer
  after_add path dir meta s =
      spawn_restore s.next_id path
        (loaded s.next_id meta (persist env s.next_id path dir (take_id s)))

  abbrev chosen_dir : Config → Option Bytes → Bytes
  chosen_dir config dir = elim dir [ none ↦ config.download_dir | some d ↦ d ]

  abbrev pub downloader : ℕ → TorrentMeta → Bytes → Downloader
  downloader id meta dir = record { id = id; meta = meta; download_dir = dir }

  -- The torrent as a restore leaves it.
  abbrev pub checking : ℕ → TorrentMeta → Bytes → TorrentHandle
  checking id meta dir = record {
    state = checking_state id meta;
    engine = some (downloader id meta dir);
    worker_handle = some (verify_then_announce (downloader id meta dir));
  }
