-- ===== src/Server/State.antt =====
-- crates/daemon/src/server.rs: the state file torrents.json, `new`, `restore_state` and
-- `flush_progress`.
use torrent_rust_cli.Common.{
  ◌++◌, ℕ, ◌+◌, ◌^◌, List, [], ◌∷◌, map, Option, none, some, Bytes, bytes_eq, ltb, if◌then◌else◌,
  Outcome, ok, panic, ◌>>=◌,
}
use torrent_rust_cli.Common.Texts.{codes}
use torrent_rust_cli.Rpc.Exchange.{RpcError}
use torrent_rust_cli.Server.Table.{Table, get, insert, values}
use torrent_rust_cli.Server.Types.{SavedTorrent, Config, Restore, RpcServer, TorrentHandle, Env}

abbrev pub state_file_path : Bytes
state_file_path = codes "torrents.json"

unfoldable pub read_file : List (Bytes × Bytes) → Bytes → Option Bytes
read_file [] path = none
read_file ((p, contents) ∷ files) path =
    let rest = read_file files path in if bytes_eq p path then some contents else rest

-- A new file comes before the one it replaces.
unfoldable pub write_file : Bytes → Bytes → List (Bytes × Bytes) → List (Bytes × Bytes)
write_file path contents files = (path, contents) ∷ files

abbrev migrate : ℕ × Bytes → SavedTorrent
migrate (id, path) = record { id = id; path = path; download_dir = none }

-- The entries of the torrents that are loaded.
unfoldable pub loaded_entries : Table TorrentHandle → Table SavedTorrent → List SavedTorrent
loaded_entries [] saved = []
loaded_entries ((id, handle) ∷ t) saved = elim (get saved id) [
  | some entry ↦ entry ∷ loaded_entries t saved
  | none ↦ loaded_entries t saved
]

module _ {F : Type 0} (env : Env F) where
  unfoldable pub parse_old : Bytes → List SavedTorrent
  parse_old contents = elim (env.from_str_old contents) [
    | some old_format ↦ map migrate old_format
    | none ↦ []
  ]

  unfoldable pub parse_state : Bytes → List SavedTorrent
  unfolding parse_old
  parse_state contents = elim (env.from_str_new contents) [
    | some new_format ↦ new_format
    | none ↦ parse_old contents
  ]

  unfoldable pub load_state : List (Bytes × Bytes) → List SavedTorrent
  unfolding parse_state
  load_state files = elim (read_file files state_file_path) [
    | some contents ↦ parse_state contents
    | none ↦ []
  ]

  -- A file that cannot be written stays as it is, and the error is logged.
  unfoldable pub store : Option Bytes → Option Bytes → List (Bytes × Bytes) → List (Bytes × Bytes)
  store none e files = files
  store (some json) none files = write_file state_file_path json files
  store (some json) (some e) files = files

  unfoldable pub save_state : List SavedTorrent → List (Bytes × Bytes) → List (Bytes × Bytes)
  unfolding store
  save_state entries files =
      store (env.to_string_pretty entries) (env.write_error state_file_path) files

  -- The maps are written out after each change of the saved paths.
  unfoldable pub save_paths : Table SavedTorrent → RpcServer → RpcServer
  unfolding save_state
  save_paths saved s = record s { saved_paths = saved; files = save_state (values saved) s.files }

  unfoldable pub write_entries : List SavedTorrent → RpcServer → RpcServer
  write_entries [] s = s
  write_entries (e ∷ es) s = record s { files = save_state (e ∷ es) s.files }

  unfoldable pub flush_progress : RpcServer → RpcServer
  unfolding write_entries save_state
  flush_progress s = write_entries (loaded_entries s.torrents s.saved_paths) s

unfoldable pub new : Config → List (Bytes × Bytes) → RpcServer
new config files = record {
  config = config;
  torrents = [];
  saved_paths = [];
  next_id = 1;
  files = files;
  spawned = [];
}

unfoldable pub max_id : ℕ → List SavedTorrent → ℕ
max_id m [] = m
max_id m (e ∷ es) = max_id (if ltb m e.id then e.id else m) es

abbrev pub restore_of : SavedTorrent → Restore
restore_of e = record { id = e.id; path = e.path }

unfoldable pub insert_all : List SavedTorrent → Table SavedTorrent → Table SavedTorrent
insert_all [] saved = saved
insert_all (e ∷ es) saved = insert_all es (insert e.id e saved)

-- The loop of `restore_state`: a restore is spawned for each entry, and may run from then on.
unfoldable pub spawn_restores : List SavedTorrent → RpcServer → RpcServer
spawn_restores entries s = record s { spawned = s.spawned ++ map restore_of entries }

-- `max_id + 1` is computed in u32.
unfoldable pub advance_id : ℕ → RpcServer → Outcome RpcError RpcServer
advance_id largest s =
    if ltb (largest + 1) (2 ^ 32)
    then ok (record s { next_id = if ltb s.next_id (largest + 1) then largest + 1 else s.next_id })
    else panic

-- What comes before the saved paths are locked. The restores do not look at the next id.
unfoldable pub begin_restores : List SavedTorrent → RpcServer → Outcome RpcError RpcServer
unfolding max_id spawn_restores advance_id
begin_restores [] s = ok s
begin_restores (e ∷ es) s = advance_id (max_id 0 (e ∷ es)) (spawn_restores (e ∷ es) s)

unfoldable pub fill_saved : List SavedTorrent → RpcServer → RpcServer
unfolding insert_all
fill_saved entries s = record s { saved_paths = insert_all entries s.saved_paths }

unfoldable pub restore_entries : List SavedTorrent → RpcServer → Outcome RpcError RpcServer
unfolding begin_restores fill_saved
restore_entries es s = begin_restores es s >>= λ s'. ok (fill_saved es s')

-- The run in which no restore comes before the saved paths are filled; `Starts` of Server.Reachable has
-- the others.
unfoldable pub restore_state : {F : Type 0} → Env F → RpcServer → Outcome RpcError RpcServer
unfolding restore_entries load_state
restore_state env s = restore_entries (load_state env s.files) s
