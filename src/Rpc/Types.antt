-- ===== src/Rpc/Types.antt =====
-- crates/rpc/src/lib.rs: `Request`, `Response` and their parts. Texts are their bytes, an id is the
-- u32 of `TorrentId`, and `F` stands for the type f32.
use torrent_rust_cli.Common.{ℕ, Bool, Bytes, List, Option}

pub data Request : Type 0 where
  create create_add : Bytes → Option (List Bytes) → Request
  add : Bytes → Request
  remove : ℕ → Bool → Request
  pause resume : ℕ → Request
  list_all : Request
  status : Option ℕ → Request
  stats : Request
  info verify : ℕ → Request
  get_config version : Request

pub record TorrentStatus (F : Type 0) : Type 0 where
  pub id : ℕ
  pub name : Bytes
  pub info_hash : Bytes
  pub size : ℕ
  pub downloaded : ℕ
  pub uploaded : ℕ
  pub status : Bytes
  pub progress : F
  pub download_rate : ℕ
  pub upload_rate : ℕ
  pub peers_connected : ℕ

pub record SystemStats : Type 0 where
  pub download_rate : ℕ
  pub upload_rate : ℕ
  pub total_downloaded : ℕ
  pub total_uploaded : ℕ
  pub num_torrents : ℕ

pub data Response (F : Type 0) : Type 0 where
  done : Response F
  error : Bytes → Response F
  torrent_added : ℕ → Response F
  torrent_removed : Response F
  torrent_list : List (TorrentStatus F) → Response F
  torrent_status : TorrentStatus F → Response F
  stats : SystemStats → Response F
  info config : Bytes → Response F
  version : Bytes → Response F
