-- ===== src/Server/Requests.antt =====
-- `compute_display_status` and `process_request` of crates/daemon/src/server.rs. A request is one step.
use torrent_rust_cli.Common.{
  ℕ, ◌-◌, ◌/◌, ◌^◌, List, [], ◌∷◌, ◌++◌, Option, none, some, Bytes, length, Bool, true, false, not,
  ◌&&◌, bytes_eq, leb, ltb, if◌then◌else◌, Outcome, ok, err, panic, out_of_fuel, ◌>>=◌,
}
use torrent_rust_cli.Common.Texts.{codes}
use torrent_rust_cli.Common.Decimal.{print_nat}
use torrent_rust_cli.Rpc.Types.{Request, TorrentStatus, Response}
use torrent_rust_cli.Rpc.Exchange.{RpcError}
use torrent_rust_cli.Creator.Torrent.{Source, create_torrent}
use torrent_rust_cli.Server.Table.{Table, get, remove}
use torrent_rust_cli.Server.Types.{SavedTorrent, TorrentState, TorrentHandle, RpcServer, Env}
use torrent_rust_cli.Server.State.{write_file, save_paths}
use torrent_rust_cli.Server.Restore.{put_handle, restore_torrent}
use torrent_rust_cli.Server.Add.{spawn_restore, add_torrent_internal}

-- `now.duration_since(dt).as_secs() < 3`, which is 0 for a later `dt`.
unfoldable pub is_recent : ℕ → Option ℕ → Bool
is_recent now none = false
is_recent now (some dt) = ltb ((now - dt) / 10 ^ 9) 3

unfoldable pub display_moving : ℕ → TorrentState → Bytes
unfolding is_recent
display_moving now t =
    let is_up = is_recent now t.last_upload_time in
    let is_down = is_recent now t.last_download_time in
    if is_up && is_down
    then codes "Up/Down"
    else if is_up
    then codes "Seeding"
    else if is_down
    then codes "Downloading"
    else if leb t.size t.downloaded && ltb 0 t.size
    then codes "Seeding"
    else t.status

unfoldable pub compute_display_status : ℕ → TorrentState → Bytes
unfolding display_moving
compute_display_status now t =
    if not (bytes_eq t.status (codes "Checking"))
      && (not (bytes_eq t.status (codes "Paused"))
          && not (bytes_eq t.status (codes "Fetching Metadata")))
    then display_moving now t
    else t.status

unfoldable pub out_path : Bytes → Bytes
out_path path = path ++ codes ".torrent"

-- `sort_by_key`, which is stable, on the ids.
unfoldable pub insert_by_id :
    {F : Type 0} → TorrentStatus F → List (TorrentStatus F) → List (TorrentStatus F)
insert_by_id x [] = x ∷ []
insert_by_id x (y ∷ ys) =
    let rest = insert_by_id x ys in if leb x.id y.id then x ∷ y ∷ ys else y ∷ rest

unfoldable pub sort_by_id : {F : Type 0} → List (TorrentStatus F) → List (TorrentStatus F)
unfolding insert_by_id
sort_by_id [] = []
sort_by_id (x ∷ xs) = insert_by_id x (sort_by_id xs)

module _ {F : Type 0} (env : Env F) where
  unfoldable pub not_found : ℕ → Response F
  not_found id = Response.error (codes "Torrent ID " ++ (print_nat id ++ codes " not found"))

  -- `now` is what the clock says when the status of this torrent is made.
  unfoldable pub status_of : ℕ → TorrentState → TorrentStatus F
  status_of now t = record {
    id = t.id;
    name = t.name;
    info_hash = t.info_hash;
    size = t.size;
    downloaded = t.downloaded;
    uploaded = t.uploaded;
    status = compute_display_status now t;
    progress =
        if ltb 0 t.size
        then env.min_f32
            (env.mul (env.div (env.of_u64 t.downloaded) (env.of_u64 t.size)) (env.of_u64 100))
            (env.of_u64 100)
        else env.of_u64 0;
    download_rate = 0;
    upload_rate = 0;
    peers_connected = t.peers_connected;
  }

  unfoldable pub statuses : (ℕ → ℕ) → Table TorrentHandle → List (TorrentStatus F)
  statuses clock [] = []
  statuses clock ((id, handle) ∷ t) = status_of (clock id) handle.state ∷ statuses clock t

  unfoldable pub list_all : (ℕ → ℕ) → RpcServer → Response F
  unfolding statuses
  list_all clock s = Response.torrent_list (sort_by_id (statuses clock s.torrents))

  unfoldable pub status_by_id : (ℕ → ℕ) → RpcServer → ℕ → Response F
  unfolding status_of
  status_by_id clock s id = elim (get s.torrents id) [
    | some handle ↦ Response.torrent_status (status_of (clock id) handle.state)
    | none ↦ not_found id
  ]

  -- Without an id, the first in the order of iteration.
  status_first : (ℕ → ℕ) → RpcServer → Table TorrentHandle → Response F
  status_first clock s [] = Response.error (codes "No torrents loaded")
  status_first clock s ((id, handle) ∷ t) = status_by_id clock s id

  unfoldable pub status : (ℕ → ℕ) → RpcServer → Option ℕ → Response F
  unfolding status_first
  status clock s (some id) = status_by_id clock s id
  status clock s none = status_first clock s s.torrents

  unfoldable pub remove_torrent : ℕ → RpcServer → Response F × RpcServer
  remove_torrent id s = elim (get s.torrents id) [
    | some handle ↦ (
      Response.torrent_removed,
      save_paths env (remove id s.saved_paths) (record s { torrents = remove id s.torrents }),
    )
    | none ↦ (not_found id, s)
  ]

  -- The worker is aborted.
  abbrev stopped : Bytes → TorrentHandle → TorrentHandle
  stopped status handle = record handle {
    worker_handle = none;
    state = record handle.state { status = status };
  }

  unfoldable pub pause : ℕ → RpcServer → Response F × RpcServer
  unfolding put_handle
  pause id s = elim (get s.torrents id) [
    | some handle ↦ (Response.done, put_handle id (stopped (codes "Paused") handle) s)
    | none ↦ (not_found id, s)
  ]

  unfoldable pub no_path : Response F
  no_path = Response.error (codes "Torrent data path not found")

  unfoldable pub resume_saved : ℕ → RpcServer → Option SavedTorrent → Response F × RpcServer
  unfolding spawn_restore
  resume_saved id s (some e) = (Response.done, spawn_restore id e.path s)
  resume_saved id s none = (no_path, s)

  unfoldable pub resume_idle : ℕ → TorrentHandle → RpcServer → Response F × RpcServer
  unfolding resume_saved put_handle
  resume_idle id handle s = elim handle.worker_handle [
    | some worker ↦
        (Response.error (codes "Torrent ID " ++ (print_nat id ++ codes " is already running")), s)
    | none ↦
        resume_saved id (put_handle id (stopped (codes "Checking") handle) s) (get s.saved_paths id)
  ]

  unfoldable pub resume : ℕ → RpcServer → Response F × RpcServer
  unfolding resume_idle
  resume id s = elim (get s.torrents id) [
    | some handle ↦ resume_idle id handle s
    | none ↦ (not_found id, s)
  ]

  verify_answer : Option Bytes → Response F
  verify_answer (some msg) = Response.info msg
  verify_answer none =
      Response.error
        (codes "Could not verify (torrent is fetching metadata or an internal error occurred)")

  unfoldable pub verify_saved :
      ℕ → RpcServer → Option SavedTorrent → Outcome RpcError (Response F × RpcServer)
  unfolding verify_answer
  verify_saved id s (some e) =
      restore_torrent env id e.path true s >>= λ (msg, s'). ok (verify_answer msg, s')
  verify_saved id s none = ok (no_path, s)

  unfoldable pub verify : ℕ → RpcServer → Outcome RpcError (Response F × RpcServer)
  unfolding verify_saved put_handle
  verify id s = elim (get s.torrents id) [
    | some handle ↦
        verify_saved id (put_handle id (stopped (codes "Checking") handle) s) (get s.saved_paths id)
    | none ↦ ok (not_found id, s)
  ]

  abbrev trackers_or_default : Option (List Bytes) → List Bytes
  trackers_or_default (some trackers) = trackers
  trackers_or_default none = codes "udp://tracker.opentrackr.org:1337/announce" ∷ []

  -- The torrent file beside what it is made from, or why there is none. A panic in the creator is one
  -- of the task, which is told of as `Task panicked`.
  unfoldable pub write_torrent : Bytes → Bytes → RpcServer → Option Bytes → Outcome Bytes RpcServer
  write_torrent path bytes s none =
      ok (record s { files = write_file (out_path path) bytes s.files })
  write_torrent path bytes s (some e) = err (codes "Failed to write .torrent file: " ++ e)

  unfoldable pub create_from :
      Bytes → List Bytes → RpcServer → Outcome Bytes (Bytes × Source) → Outcome Bytes RpcServer
  unfolding write_torrent out_path
  create_from path trackers s (ok (name, source)) =
      write_torrent path (create_torrent env.sha1 name source trackers) s
        (env.write_error (out_path path))
  create_from path trackers s (err e) = err (codes "Failed to create torrent: " ++ e)
  create_from path trackers s panic = err (codes "Task panicked: " ++ env.join_error)
  create_from path trackers s out_of_fuel = out_of_fuel

  unfoldable pub create_file : Bytes → Option (List Bytes) → RpcServer → Outcome Bytes RpcServer
  unfolding create_from
  create_file path trackers s = create_from path (trackers_or_default trackers) s (env.source path)

  unfoldable pub create_answer :
      Bytes → RpcServer → Outcome Bytes RpcServer → Outcome RpcError (Response F × RpcServer)
  create_answer path s (ok s') =
      ok (Response.info (codes "Successfully created " ++ out_path path), s')
  create_answer path s (err e) = ok (Response.error e, s)
  create_answer path s panic = panic
  create_answer path s out_of_fuel = out_of_fuel

  unfoldable pub create_add_answer :
      Bytes → RpcServer → Outcome Bytes RpcServer → Outcome RpcError (Response F × RpcServer)
  create_add_answer path s (ok s') = add_torrent_internal env (out_path path) (env.parent path) s'
  create_add_answer path s (err e) = ok (Response.error e, s)
  create_add_answer path s panic = panic
  create_add_answer path s out_of_fuel = out_of_fuel

  info_answer : ℕ → Option TorrentHandle → Response F
  info_answer id none = not_found id
  info_answer id (some handle) =
      let t = handle.state in
      Response.info (
        codes "Name:      "
        ++ (t.name
            ++ (10
                ∷ (codes "Hash:      "
                    ++ (t.info_hash
                        ++ (10
                            ∷ (codes "Size:      "
                                ++ (env.one_digit (env.div (env.of_u64 t.size) (env.of_u64 1048576))
                                    ++ (codes " MB"
                                        ++ (10 ∷ (codes "Status:    " ++ t.status)))))))))))

  unfoldable pub version_text : Bytes
  version_text =
      env.cargo_pkg_version
      ++ (codes " (Git: " ++ (env.git_hash ++ (codes " | Date: " ++ (env.git_date ++ codes ")"))))

  unfoldable pub process_request :
      (ℕ → ℕ) → Request → RpcServer → Outcome RpcError (Response F × RpcServer)
  unfolding create_answer create_add_answer info_answer
  process_request clock Request.version s = ok (Response.version version_text, s)
  process_request clock (Request.add path_or_magnet) s =
      add_torrent_internal env path_or_magnet none s
  process_request clock Request.list_all s = ok (list_all clock s, s)
  process_request clock (Request.status id) s = ok (status clock s id, s)
  process_request clock (Request.remove id delete_data) s = ok (remove_torrent id s)
  process_request clock (Request.pause id) s = ok (pause id s)
  process_request clock (Request.resume id) s = ok (resume id s)
  process_request clock (Request.verify id) s = verify id s
  process_request clock (Request.create path trackers) s =
      create_answer path s (create_file path trackers s)
  process_request clock (Request.create_add path trackers) s =
      create_add_answer path s (create_file path trackers s)
  process_request clock (Request.info id) s = ok (info_answer id (get s.torrents id), s)
  process_request clock Request.stats s = ok (
    Response.stats (record {
      download_rate = 0;
      upload_rate = 0;
      total_downloaded = 0;
      total_uploaded = 0;
      num_torrents = length s.torrents;
    }),
    s,
  )
  process_request clock Request.get_config s = ok (
    Response.config (
        codes "download_dir = "
        ++ (b'"'
            ∷ (codes "downloads" ++ (b'"' ∷ (10 ∷ (codes "listen_port = 6881" ++ (10 ∷ []))))))),
    s,
  )
