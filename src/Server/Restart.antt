-- ===== src/Server/Restart.antt =====
-- What of the saved paths a restart of the daemon of crates/daemon/src/server.rs brings back, and what
-- `flush_progress` leaves of them.
use torrent_rust_cli.Common.{
  ℕ, ◌+◌, ◌^◌, ◌<◌, ◌≡◌, ◌≢◌, refl, sym, ap, ◌∙◌, subst, List, [], ◌∷◌, ◌++◌, append_assoc,
  append-nil, map, none, bind-ok, Bytes, All, true, false, ok, arith, if◌then◌else◌, ltb, ◌==◌,
  Option-cases, inl, inr,
}
use torrent_rust_cli.Server.Table.{Table, get, insert, values, IsMap, get-All}
use torrent_rust_cli.Server.Types.{SavedTorrent, TorrentHandle, Config, RpcServer, Env}
use torrent_rust_cli.Server.State.{
  load_state, loaded_entries, write_entries, flush_progress, new, max_id, restore_of, insert_all,
  begin_restores, advance_id, spawn_restores, fill_saved, restore_entries, restore_state,
}
use torrent_rust_cli.Server.Consistent.{IsConsistent, IsSaved}
use torrent_rust_cli.Server.Reachable.{restarted, spawned_all, begin_restores_done}
use torrent_rust_cli.Server.Persisted.{IsStorable, IsSafe, load_state-save_state}

insert_new :
    (k : ℕ) (e : SavedTorrent) (t : Table SavedTorrent)
    → get t k ≡ none
    → insert k e t ≡ t ++ ((k, e) ∷ [])
unfolding get insert
insert_new k e [] h = refl
insert_new k e ((j, w) ∷ t) h = ground (arith, insert_new k e t)

get_append : (t u : Table SavedTorrent) (k : ℕ) → get t k ≡ none → get (t ++ u) k ≡ get u k
unfolding get
get_append [] u k h = refl
get_append ((j, w) ∷ t) u k h = ground (arith, get_append t u k)

-- Where a key is not used, no entry stands under it.
get_none-All : {A : Type 0} (k : ℕ) (t : Table A) → get t k ≡ none → All (λ p. (k == p.0) ≡ false) t
unfolding get
get_none-All k [] h = tt
get_none-All k ((j, w) ∷ t) h = (ground arith, get_none-All k t (ground arith))

appended :
    (j : ℕ) (w : SavedTorrent) (acc t : Table SavedTorrent)
    → All (λ p. get acc p.0 ≡ none) t
    → All (λ p. (j == p.0) ≡ false) t
    → All (λ p. get (acc ++ ((j, w) ∷ [])) p.0 ≡ none) t
unfolding get
appended j w acc [] h k = tt
appended j w acc ((i, v) ∷ t) h k =
    (get_append acc ((j, w) ∷ []) i h.0 ∙ rw (k.0, get) refl, appended j w acc t h.1 k.1)

no_entries : (t : Table SavedTorrent) → All (λ p. get {A = SavedTorrent} [] p.0 ≡ none) t
unfolding get
no_entries [] = tt
no_entries (p ∷ t) = (refl, no_entries t)

insert_all-values :
    (n : ℕ) (t acc : Table SavedTorrent)
    → All (IsSaved n) t
    → IsMap t
    → All (λ p. get acc p.0 ≡ none) t
    → insert_all (values t) acc ≡ acc ++ t
unfolding insert_all values
insert_all-values n [] acc own h new = sym (append-nil acc)
insert_all-values n ((j, w) ∷ t) acc own h new =
    let next = acc ++ ((j, w) ∷ []) in
    let put : insert w.id w acc ≡ next =
      ap (λ k. insert k w acc) own.0.0 ∙ insert_new j w acc new.0 in
    let others : All (λ p. get next p.0 ≡ none) t =
      appended j w acc t new.1 (get_none-All j t h.0) in
    ap (insert_all (values t)) put
    ∙ insert_all-values n t next own.1 h.1 others
    ∙ append_assoc acc ((j, w) ∷ []) t

max_id_below : (n m : ℕ) (es : List SavedTorrent) → m < n → All (λ e. e.id < n) es → max_id m es < n
unfolding max_id
max_id_below n m [] l h = l
max_id_below n m (e ∷ es) l h =
    let step : (if ltb m e.id then e.id else m) < n = ground (arith, h.0) in
    max_id_below n (if ltb m e.id then e.id else m) es step h.1

values-All : (n : ℕ) (t : Table SavedTorrent) → All (IsSaved n) t → All (λ e. e.id < n) (values t)
unfolding values
values-All n [] h = tt
values-All n ((j, w) ∷ t) h = (omega (arith, h.0.0, h.0.1), values-All n t h.1)

restore_entries_runs :
    (config : Config) (files : List (Bytes × Bytes)) (es : List SavedTorrent)
    → max_id 0 es + 1 < 2 ^ 32
    → restore_entries es (new config files) ≡ ok (restarted config files es)
unfolding restore_entries begin_restores advance_id spawn_restores fill_saved new insert_all max_id
restore_entries_runs config files [] l = refl
restore_entries_runs config files (e ∷ es) l =
    let fits : ltb (max_id 0 (e ∷ es) + 1) (2 ^ 32) ≡ true = ground (arith, l) in rw fits refl

-- A start goes through a state in which no saved path is there yet.
pub restore_state_begins :
    {F : Type 0} (env : Env F) (config : Config) (files : List (Bytes × Bytes)) (s : RpcServer)
    → restore_state env (new config files) ≡ ok s
    → (s₀ : RpcServer) × (begin_restores (load_state env files) (new config files) ≡ ok s₀)
      × (s₀ ≡ spawned_all config files (load_state env files))
unfolding restore_state restore_entries new
restore_state_begins env config files s e =
    let es = load_state env files in
    let (s₀, begins, rest) = bind-ok (begin_restores es (new config files)) _ s e in
    (s₀, begins, begin_restores_done config files es s₀ begins)

-- A daemon that is started on the files of another, in a state where they hold its saved paths, has the
-- same saved paths and the same files, and restores each of the saved torrents, where no restore runs
-- before the saved paths are filled.
pub restore_state_restart :
    {F : Type 0} (env : Env F) (storable : IsStorable env) (config : Config) (s : RpcServer)
    → IsSafe env storable s
    → 0 < s.next_id
    → s.next_id < 2 ^ 32
    → (s' : RpcServer) × (restore_state env (new config s.files) ≡ ok s')
      × (s'.saved_paths ≡ s.saved_paths)
      × (s'.spawned ≡ map restore_of (values s.saved_paths))
      × (s'.files ≡ s.files)
      × (s'.config ≡ config)
unfolding restore_state new
restore_state_restart env storable config s (consistent, persisted) pos l =
    let es = load_state env s.files in
    let below = values-All s.next_id s.saved_paths consistent.saved_own in
    let largest : max_id 0 es < s.next_id =
      subst (λ t. max_id 0 t < s.next_id) (sym persisted)
        (max_id_below s.next_id 0 (values s.saved_paths) pos below) in
    (
      restarted config s.files es,
      restore_entries_runs config s.files es (omega (arith, largest, l)),
      ap (λ t. insert_all t []) persisted
          ∙ insert_all-values s.next_id s.saved_paths [] consistent.saved_own consistent.saved_map
              (no_entries s.saved_paths),
      ap (λ t. map restore_of t) persisted,
      refl,
      refl,
    )

-- The entries of torrents that are loaded, and no others.
loaded_entries-ne :
    (n id : ℕ) (t : Table TorrentHandle) (saved : Table SavedTorrent)
    → All (IsSaved n) saved
    → get t id ≡ none
    → All (λ e. e.id ≢ id) (loaded_entries t saved)
unfolding loaded_entries get
loaded_entries-ne n id [] saved own h = tt
loaded_entries-ne n id ((j, handle) ∷ t) saved own h =
    let other : j ≢ id = ground arith in
    let rest = loaded_entries-ne n id t saved own (ground arith) in
    elim (Option-cases (get saved j)) [
      | inl e ↦ rw (e, loaded_entries) rest
      | inr (entry, e) ↦
          let here = (get-All (IsSaved n) j entry saved own e).0 in
          rw (e, loaded_entries) (λ same. other (sym here ∙ same), rest)
    ]

-- `flush_progress` drops from the state file the entry of a torrent that is saved and not loaded, as
-- one whose restore has not run or has failed, as soon as any other saved torrent is loaded.
pub flush_progress_drops :
    {F : Type 0} (env : Env F) (storable : IsStorable env) (s : RpcServer) (id : ℕ)
    → IsConsistent s
    → get s.torrents id ≡ none
    → loaded_entries s.torrents s.saved_paths ≢ []
    → All (λ e. e.id ≢ id) (load_state env (flush_progress env s).files)
unfolding flush_progress write_entries
flush_progress_drops env storable s id h absent some_loaded =
    dropped (loaded_entries s.torrents s.saved_paths) some_loaded
      (loaded_entries-ne s.next_id id s.torrents s.saved_paths h.saved_own absent)
  where
    dropped :
        (es : List SavedTorrent)
        → es ≢ []
        → All (λ e. e.id ≢ id) es
        → All (λ e. e.id ≢ id) (load_state env (write_entries env es s).files)
    dropped [] q k = absurd (q refl)
    dropped (e ∷ es) q k =
        subst (λ t. All (λ e. e.id ≢ id) t)
          (sym (load_state-save_state env storable (e ∷ es) s.files)) k
