-- ===== src/Server/Types.antt =====
-- The types of crates/daemon/src/server.rs. A text or a path is its bytes, an `Instant` the nanoseconds
-- since some start; the locks are left out, since a handler is one step here.
use torrent_rust_cli.Common.{Bool, ℕ, Bytes, List, Option, Outcome}
use torrent_rust_cli.Meta.Types.{TorrentMeta, MetaError}
use torrent_rust_cli.Magnet.UrlDecode.{MagnetError}
use torrent_rust_cli.Magnet.Link.{MagnetLink}
use torrent_rust_cli.Creator.Torrent.{Source}
use torrent_rust_cli.Engine.Verify.{Store}
use torrent_rust_cli.Server.Table.{Table}

pub record SavedTorrent : Type 0 where
  pub id : ℕ
  pub path : Bytes
  pub download_dir : Option Bytes

pub record TorrentState : Type 0 where
  pub id : ℕ
  pub name : Bytes
  pub info_hash : Bytes
  pub size : ℕ
  pub downloaded : ℕ
  pub uploaded : ℕ
  pub status : Bytes
  pub peers_connected : ℕ
  pub last_upload_time : Option ℕ
  pub last_download_time : Option ℕ

-- What a `TorrentDownloader` is made of, less the state that it shares with its handle.
pub record Downloader : Type 0 where
  pub id : ℕ
  pub meta : TorrentMeta
  pub download_dir : Bytes

-- `MagnetWorker` of crates/daemon/src/magnet_worker.rs, less the shared state.
pub record MagnetWorker : Type 0 where
  pub id : ℕ
  pub magnet : MagnetLink
  pub download_dir : Bytes
  pub metadata_dir : Bytes

-- The task behind a `JoinHandle`: the three bodies that are spawned.
pub data Worker : Type 0 where
  fetch : MagnetWorker → Worker
  verify_then_announce announce : Downloader → Worker

pub record TorrentHandle : Type 0 where
  pub state : TorrentState
  pub engine : Option Downloader
  pub worker_handle : Option Worker

-- crates/config/src/lib.rs
pub record Config : Type 0 where
  pub download_dir : Bytes
  pub metadata_dir : Bytes
  pub data_write_frequency_secs : ℕ
  pub default_trackers : List Bytes

-- A call of `restore_torrent` that is spawned and has not run.
pub record Restore : Type 0 where
  pub id : ℕ
  pub path : Bytes

-- The server, the files on disk that it reads and writes, and the tasks that are spawned.
pub record RpcServer : Type 0 where
  pub config : Config
  pub torrents : Table TorrentHandle
  pub saved_paths : Table SavedTorrent
  pub next_id : ℕ
  pub files : List (Bytes × Bytes)
  pub spawned : List Restore

-- What the server calls that is not of this repository: the digest of the crate sha1, the encoder of the
-- crate url, serde_json on the state file, the texts of errors, the arithmetic of f32 and its print with
-- one digit, the facts of the build, and of the file system which writes fail, the files of a torrent
-- below a download directory and which paths there can be opened, and what `create_torrent` finds. `parent` is `Path::parent`.
pub record Env (F : Type 0) : Type 0 where
  pub sha1 : Bytes → Bytes
  pub byte_serialize : Bytes → Bytes
  pub to_string_pretty : List SavedTorrent → Option Bytes
  pub from_str_new : Bytes → Option (List SavedTorrent)
  pub from_str_old : Bytes → Option (List (ℕ × Bytes))
  pub magnet_error : MagnetError → Bytes
  pub meta_error : MetaError → Bytes
  pub read_error : Bytes
  pub join_error : Bytes
  pub write_error : Bytes → Option Bytes
  pub of_u64 : ℕ → F
  pub div : F → F → F
  pub mul : F → F → F
  pub min_f32 : F → F → F
  pub one_digit : F → Bytes
  pub cargo_pkg_version : Bytes
  pub git_hash : Bytes
  pub git_date : Bytes
  pub store : Bytes → TorrentMeta → Store
  pub access : Bytes → TorrentMeta → List Bytes → Bool
  pub source : Bytes → Outcome Bytes (Bytes × Source)
  pub parent : Bytes → Option Bytes
