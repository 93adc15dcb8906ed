-- ===== src/Server/Persisted.antt =====
-- The state file of crates/daemon/src/server.rs: what it holds of the saved paths, over
-- requests, restores and flushes.
use torrent_rust_cli.Common.{
  ◌+◌, ◌≡◌, refl, sym, ap, ◌∙◌, List, none, some, Bytes, false, arith, Bool-cases, inl, inr, length,
  drop, drop-append, length-append, All, [], bytes_eq, bytes_eq→eq, bytes_eq_self,
}
use torrent_rust_cli.Common.Texts.{codes}
use torrent_rust_cli.Common.Streams.{first_byte}
use torrent_rust_cli.Server.Table.{Table, get, values}
use torrent_rust_cli.Server.Types.{SavedTorrent, RpcServer, Env}
use torrent_rust_cli.Server.State.{
  read_file, write_file, state_file_path, parse_state, load_state, store, save_state, save_paths,
}
use torrent_rust_cli.Server.Restore.{put_handle}
use torrent_rust_cli.Server.Add.{take_id, persist, spawn_restore}
use torrent_rust_cli.Server.Requests.{out_path}
use torrent_rust_cli.Server.Consistent.{IsConsistent}
use torrent_rust_cli.Server.Kept.{IsKept}
use torrent_rust_cli.Server.Runs.{unflushed, Flushes, Runs, Runs_kept, IsConsistent-IsKept}

-- What is relied on of serde_json and of the file system: entries are printed, the print is read back,
-- and the state file can be written.
pub record IsStorable {F : Type 0} (env : Env F) : Type 0 where
  pub prints : (es : List SavedTorrent) → (json : Bytes) × (env.to_string_pretty es ≡ some json)
  pub reads_back :
      (es : List SavedTorrent) (json : Bytes)
      → env.to_string_pretty es ≡ some json
      → env.from_str_new json ≡ some es
  pub writable : env.write_error state_file_path ≡ none

-- What is made beside a path is never the state file.
out_path_other : (path : Bytes) → bytes_eq (out_path path) state_file_path ≡ false
unfolding out_path
out_path_other path = elim (Bool-cases (bytes_eq (out_path path) state_file_path)) [
  | inl e ↦
      let same = bytes_eq→eq (out_path path) state_file_path e in
      let size : length path + 8 ≡ 13 =
        sym (length-append path (codes ".torrent")) ∙ ap (λ t. length t) same in
      let five : length path ≡ 5 = omega (arith, size) in
      let suffix : codes ".torrent" ≡ drop 5 state_file_path =
        sym (drop-append path (codes ".torrent"))
        ∙ ap (λ t. drop (length path) t) same
        ∙ ap (λ k. drop k state_file_path) five in
      let dot : 46 ≡ 110 = ap first_byte suffix in absurd (omega (arith, dot))
  | inr e ↦ e
]

read_file_written :
    (path contents : Bytes) (files : List (Bytes × Bytes))
    → read_file (write_file path contents files) path ≡ some contents
unfolding read_file write_file
read_file_written path contents files = rw (bytes_eq_self path) refl

read_file_other :
    (path q contents : Bytes) (files : List (Bytes × Bytes))
    → bytes_eq q path ≡ false
    → read_file (write_file q contents files) path ≡ read_file files path
unfolding read_file write_file
read_file_other path q contents files h = rw h refl

module _ {F : Type 0} (env : Env F) (storable : IsStorable env) where
  -- What is saved is loaded.
  pub load_state-save_state :
      (es : List SavedTorrent) (files : List (Bytes × Bytes))
      → load_state env (save_state env es files) ≡ es
  unfolding load_state save_state
  load_state-save_state es files =
      let (json, e) = storable.prints es in
      rw
        (
          e,
          storable.writable,
          store,
          load_state,
          read_file_written state_file_path json files,
          parse_state,
          storable.reads_back es json e,
        )
        refl

  -- The other files stay as they are.
  pub read_file-save_state :
      (path : Bytes) (es : List SavedTorrent) (files : List (Bytes × Bytes))
      → bytes_eq state_file_path path ≡ false
      → read_file (save_state env es files) path ≡ read_file files path
  unfolding save_state
  read_file-save_state path es files h =
      let (json, e) = storable.prints es in
      rw (e, storable.writable, store) (read_file_other path state_file_path json files h)

  abbrev pub IsPersisted : RpcServer → Type 0
  IsPersisted s = load_state env s.files ≡ values s.saved_paths

  save_paths-IsPersisted :
      (saved : Table SavedTorrent) (s : RpcServer) → IsPersisted (save_paths env saved s)
  unfolding save_paths
  save_paths-IsPersisted saved s = load_state-save_state (values saved) s.files

  create_loaded :
      (s : RpcServer) (path bytes : Bytes)
      → load_state env (write_file (out_path path) bytes s.files) ≡ load_state env s.files
  unfolding load_state
  create_loaded s path bytes =
      ap (λ o. elim o [ some contents ↦ parse_state env contents | none ↦ [] ])
        (read_file_other state_file_path (out_path path) bytes s.files (out_path_other path))

  create-IsPersisted :
      (s : RpcServer) (path bytes : Bytes)
      → IsPersisted s
      → IsPersisted (record s { files = write_file (out_path path) bytes s.files })
  create-IsPersisted s path bytes h = create_loaded s path bytes ∙ h

  abbrev pub IsSafe : RpcServer → Type 0
  IsSafe s = IsConsistent s × IsPersisted s

  pub IsSafe-IsKept : IsKept env IsSafe
  unfolding put_handle persist take_id spawn_restore
  IsSafe-IsKept =
      let c = IsConsistent-IsKept env in
      record {
        consistent = λ s h. h.0;
        put_handle_kept =
            λ s id handle h e l sound. (c.put_handle_kept s id handle h.0 e l sound, h.1);
        persist_kept =
            λ s id path dir h l. (c.persist_kept s id path dir h.0 l, save_paths-IsPersisted _ s);
        take_id_kept = λ s h l. (c.take_id_kept s h.0 l, h.1);
        spawn_restore_kept = λ s id path h l. (c.spawn_restore_kept s id path h.0 l, h.1);
        begin_kept = λ s before after r h e. (c.begin_kept s before after r h.0 e, h.1);
        remove_kept = λ s id h. (c.remove_kept s id h.0, save_paths-IsPersisted _ _);
        create_kept =
            λ s path bytes h. (c.create_kept s path bytes h.0, create-IsPersisted s path bytes h.1);
      }

  -- While the state file can be written and no flush comes in between, it holds exactly the saved paths
  -- after every request and every restore, if it did before.
  pub Runs-IsPersisted :
      (start s : RpcServer) → IsSafe start → Runs env unflushed start s → IsSafe s
  unfolding Flushes
  Runs-IsPersisted start s h run =
      Runs_kept env IsSafe IsSafe-IsKept unflushed start s (λ f. absurd f) h run

  -- Whatever stands in the state file is one of the saved paths.
  abbrev pub HoldsOnlySaved : RpcServer → Type 0
  HoldsOnlySaved s = All (λ e. get s.saved_paths e.id ≡ some e) (load_state env s.files)

  abbrev pub IsClean : RpcServer → Type 0
  IsClean s = IsConsistent s × HoldsOnlySaved s
