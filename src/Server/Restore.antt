-- ===== src/Server/Restore.antt =====
-- `restore_torrent` of crates/daemon/src/server.rs. The tasks that it spawns are kept with the handle; the
-- check of the files is the one of the engine, on the files in the download directory.
use torrent_rust_cli.Common.{
  ℕ, List, [], ◌∷◌, ◌++◌, Option, none, some, Bytes, length, replicate, Bool, true, false, ltb,
  if◌then◌else◌, Outcome, ok, err, panic, out_of_fuel,
}
use torrent_rust_cli.Common.Texts.{codes}
use torrent_rust_cli.Common.Decimal.{print_nat}
use torrent_rust_cli.Rpc.Exchange.{RpcError}
use torrent_rust_cli.Magnet.Hex.{to_hex}
use torrent_rust_cli.Magnet.Link.{MagnetLink, magnet_prefix, parse}
use torrent_rust_cli.Magnet.UrlDecode.{MagnetError}
use torrent_rust_cli.Meta.Types.{TorrentMeta, MetaError}
use torrent_rust_cli.Meta.Parse.{from_bytes}
use torrent_rust_cli.Engine.Files.{FileError}
use torrent_rust_cli.Engine.Session.{Torrent}
use torrent_rust_cli.Engine.Verify.{total_size, disk_of, verify_and_resume}
use torrent_rust_cli.Server.Table.{get, insert}
use torrent_rust_cli.Server.Types.{
  SavedTorrent, TorrentState, Downloader, fetch, verify_then_announce, announce, TorrentHandle,
  Config, RpcServer, Env,
}
use torrent_rust_cli.Server.Text.{starts_with}
use torrent_rust_cli.Server.State.{read_file}

-- `format!("{}/{}.torrent", self.config.metadata_dir, info_hash)`
unfoldable pub cache_path : Config → Bytes → Bytes
cache_path config info_hash = config.metadata_dir ++ (b'/' ∷ (to_hex info_hash ++ codes ".torrent"))

unfoldable pub exists : List (Bytes × Bytes) → Bytes → Bool
exists files path = elim (read_file files path) [ none ↦ false | some contents ↦ true ]

-- The two states in which a torrent is loaded.
abbrev pub fetching_state : ℕ → MagnetLink → TorrentState
fetching_state id magnet = record {
  id = id;
  name = elim magnet.name [ none ↦ to_hex magnet.info_hash | some name ↦ name ];
  info_hash = to_hex magnet.info_hash;
  size = 0;
  downloaded = 0;
  uploaded = 0;
  status = codes "Fetching Metadata";
  peers_connected = 0;
  last_upload_time = none;
  last_download_time = none;
}

abbrev pub checking_state : ℕ → TorrentMeta → TorrentState
checking_state id meta = record {
  id = id;
  name = meta.info.name;
  info_hash = to_hex meta.info_hash;
  size = total_size meta.info.mode;
  downloaded = 0;
  uploaded = 0;
  status = codes "Checking";
  peers_connected = 0;
  last_upload_time = none;
  last_download_time = none;
}

unfoldable pub put_handle : ℕ → TorrentHandle → RpcServer → RpcServer
put_handle id handle s = record s { torrents = insert id handle s.torrents }

unfoldable pub saved_dir : Option SavedTorrent → Option Bytes
saved_dir none = none
saved_dir (some t) = t.download_dir

-- The directory that was saved, or else the one of the configuration.
unfoldable pub download_dir_of : RpcServer → ℕ → Bytes
unfolding saved_dir
download_dir_of s id = elim (saved_dir (get s.saved_paths id)) [
  | none ↦ s.config.download_dir
  | some dir ↦ dir
]

unfoldable pub restore_magnet : ℕ → MagnetLink → RpcServer → RpcServer
unfolding put_handle
restore_magnet id magnet s =
    put_handle id
      (record {
        state = fetching_state id magnet;
        engine = none;
        worker_handle = some (
            fetch (record {
              id = id;
              magnet = magnet;
              download_dir = download_dir_of s id;
              metadata_dir = s.config.metadata_dir;
            }));
      })
      s

-- What the engine shares with the handle.
abbrev torrent_of : {F : Type 0} → Env F → Downloader → TorrentState → Torrent
torrent_of env d st = record {
  size = st.size;
  downloaded = st.downloaded;
  uploaded = st.uploaded;
  status = st.status;
  peers_connected = st.peers_connected;
  missing_pieces = [];
  have_pieces = replicate (length d.meta.info.pieces) false;
  disk = disk_of d.meta.info.mode (env.store d.download_dir d.meta);
}

abbrev with_torrent : TorrentState → Torrent → TorrentState
with_torrent st t = record st { downloaded = t.downloaded; status = t.status }

module _ {F : Type 0} (env : Env F) where
  -- `format!("{}/{} verified ({:.1}%)", verified, total, percentage)`
  unfoldable pub verified_text : ℕ → ℕ → Bytes
  verified_text verified total =
      let percentage =
        if ltb 0 total
        then env.mul (env.div (env.of_u64 verified) (env.of_u64 total)) (env.of_u64 100)
        else env.of_u64 0 in
      print_nat verified
      ++ (b'/'
          ∷ (print_nat total ++ (codes " verified (" ++ (env.one_digit percentage ++ codes "%)"))))

  -- The handle is there during the check, with the torrent as the check leaves it afterwards.
  unfoldable pub waited :
      Downloader
      → TorrentState
      → RpcServer
      → Outcome FileError (Torrent × ℕ × ℕ)
      → Outcome RpcError (Option Bytes × RpcServer)
  unfolding put_handle
  waited d st s (ok (t, verified, total)) = ok (
    some (verified_text verified total),
    put_handle d.id
        (record { state = with_torrent st t; engine = some d; worker_handle = some (announce d) })
        s,
  )
  waited d st s (err e) = ok (
    none,
    put_handle d.id (record { state = st; engine = some d; worker_handle = some (announce d) }) s,
  )
  waited d st s panic = panic
  waited d st s out_of_fuel = out_of_fuel

  unfoldable pub restore_meta :
      ℕ → TorrentMeta → Bool → RpcServer → Outcome RpcError (Option Bytes × RpcServer)
  unfolding waited
  restore_meta id meta wait_for_verify s =
      let d : Downloader = record { id = id; meta = meta; download_dir = download_dir_of s id } in
      let st = checking_state id meta in
      let checked =
        verify_and_resume env.sha1 (env.access d.download_dir meta) (env.store d.download_dir meta)
          meta (torrent_of env d st) in
      let verified = waited d st s checked in
      let started =
        put_handle id
          (record { state = st; engine = some d; worker_handle = some (verify_then_announce d) })
          s in
      if wait_for_verify then verified else ok (none, started)

  unfoldable pub restore_parsed :
      ℕ
      → Bool
      → RpcServer
      → Outcome MetaError TorrentMeta
      → Outcome RpcError (Option Bytes × RpcServer)
  restore_parsed id wait s (ok meta) = restore_meta id meta wait s
  restore_parsed id wait s (err e) = ok (none, s)
  restore_parsed id wait s panic = panic
  restore_parsed id wait s out_of_fuel = out_of_fuel

  unfoldable pub restore_file :
      ℕ → Bytes → Bool → RpcServer → Outcome RpcError (Option Bytes × RpcServer)
  unfolding restore_parsed
  restore_file id path wait s = elim (read_file s.files path) [
    | none ↦ ok (none, s)
    | some bytes ↦ restore_parsed id wait s (from_bytes env.sha1 bytes)
  ]

  -- With the metadata in the cache, or else with a worker that fetches it.
  unfoldable pub restore_link :
      ℕ
      → Bool
      → RpcServer
      → Outcome MagnetError MagnetLink
      → Outcome RpcError (Option Bytes × RpcServer)
  unfolding exists
  restore_link id wait s (ok magnet) =
      let path = cache_path s.config magnet.info_hash in
      let cached = restore_file id path wait s in
      if exists s.files path then cached else ok (none, restore_magnet id magnet s)
  restore_link id wait s (err e) = ok (none, s)
  restore_link id wait s panic = panic
  restore_link id wait s out_of_fuel = out_of_fuel

  unfoldable pub restore_torrent :
      ℕ → Bytes → Bool → RpcServer → Outcome RpcError (Option Bytes × RpcServer)
  unfolding restore_link
  restore_torrent id path wait_for_verify s =
      let link = restore_link id wait_for_verify s (parse path) in
      let file = restore_file id path wait_for_verify s in
      if starts_with magnet_prefix path then link else file
