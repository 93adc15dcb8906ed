-- ===== src/Server/Reachable.antt =====
-- The states of the server of crates/daemon/src/server.rs that follow from a start on a state file.
use torrent_rust_cli.Common.{
  ℕ, ◌+◌, ◌^◌, ◌%◌, ◌<◌, ◌≤◌, ◌≡◌, refl, sym, subst, List, [], ◌∷◌, map, Bytes, All, All-weaken, ok,
  arith, if◌then◌else◌, ltb, Bool-cases, inl, inr,
}
use torrent_rust_cli.Server.Table.{Table, IsMap, insert-IsMap, insert-All}
use torrent_rust_cli.Server.Types.{SavedTorrent, Config, RpcServer, Env}
use torrent_rust_cli.Server.State.{
  load_state, new, max_id, restore_of, insert_all, begin_restores, advance_id, spawn_restores,
  fill_saved, save_paths,
}
use torrent_rust_cli.Server.Add.{take_id, persist, spawn_restore}
use torrent_rust_cli.Server.Restore.{put_handle}
use torrent_rust_cli.Server.Consistent.{IsConsistent, IsSaved, IsPlanned}
use torrent_rust_cli.Server.Kept.{IsKept}
use torrent_rust_cli.Server.Runs.{
  starting, serving, Flushes, Runs, Runs_kept, IsConsistent-IsKept, flush_progress-IsConsistent,
}

-- How a daemon starts: some of the restores may run before the saved paths are filled.
pub record Starts {F : Type 0} (env : Env F) (config : Config) (files : List (Bytes × Bytes))
    (start : RpcServer) : Type 0 where
  pub spawning : RpcServer
  pub waiting : RpcServer
  pub begins : begin_restores (load_state env files) (new config files) ≡ ok spawning
  pub early : Runs env starting spawning waiting
  pub fills : fill_saved (load_state env files) waiting ≡ start

-- Entries whose ids are below the next one, as a start has read them.
abbrev AreBelow : List SavedTorrent → RpcServer → Type 0
AreBelow es s = IsConsistent s × All (λ e. e.id < s.next_id) es

AreBelow-IsKept : {F : Type 0} (env : Env F) (es : List SavedTorrent) → IsKept env (AreBelow es)
unfolding put_handle persist take_id spawn_restore save_paths
AreBelow-IsKept env es =
    let c = IsConsistent-IsKept env in
    record {
      consistent = λ s h. h.0;
      put_handle_kept =
          λ s id handle h e l sound. (c.put_handle_kept s id handle h.0 e l sound, h.1);
      persist_kept = λ s id path dir h l. (c.persist_kept s id path dir h.0 l, h.1);
      take_id_kept = λ s h l. (
        c.take_id_kept s h.0 l,
        All-weaken (λ e. e.id < s.next_id) (λ e. e.id < (s.next_id + 1) % 2 ^ 32) es
            (λ e k. omega (arith, k, l)) h.1,
      );
      spawn_restore_kept = λ s id path h l. (c.spawn_restore_kept s id path h.0 l, h.1);
      begin_kept = λ s before after r h e. (c.begin_kept s before after r h.0 e, h.1);
      remove_kept = λ s id h. (c.remove_kept s id h.0, h.1);
      create_kept = λ s path bytes h. (c.create_kept s path bytes h.0, h.1);
    }

-- The ids of the entries are at most the largest.
max_id_above : (m : ℕ) (es : List SavedTorrent) → m ≤ max_id m es
unfolding max_id
max_id_above m [] = omega arith
max_id_above m (e ∷ es) =
    let step = if ltb m e.id then e.id else m in
    let bound : m ≤ step = ground arith in omega (arith, bound, max_id_above step es)

max_id_all : (m : ℕ) (es : List SavedTorrent) → All (λ e. e.id ≤ max_id m es) es
unfolding max_id
max_id_all m [] = tt
max_id_all m (e ∷ es) =
    let step = if ltb m e.id then e.id else m in
    let bound : e.id ≤ step = ground arith in
    (omega (arith, bound, max_id_above step es), max_id_all step es)

insert_all-IsMap :
    (es : List SavedTorrent) (t : Table SavedTorrent) → IsMap t → IsMap (insert_all es t)
unfolding insert_all
insert_all-IsMap [] t h = h
insert_all-IsMap (e ∷ es) t h = insert_all-IsMap es _ (insert-IsMap e.id e t h)

insert_all-IsSaved :
    (n : ℕ) (es : List SavedTorrent) (t : Table SavedTorrent)
    → All (λ e. e.id < n) es
    → All (IsSaved n) t
    → All (IsSaved n) (insert_all es t)
unfolding insert_all
insert_all-IsSaved n [] t h k = k
insert_all-IsSaved n (e ∷ es) t h k =
    insert_all-IsSaved n es _ h.1 (insert-All (IsSaved n) e.id e t (refl, h.0) k)

restores-IsPlanned :
    (n : ℕ) (es : List SavedTorrent)
    → All (λ e. e.id < n) es
    → All (IsPlanned n) (map restore_of es)
restores-IsPlanned n [] h = tt
restores-IsPlanned n (e ∷ es) h = (h.0, restores-IsPlanned n es h.1)

-- The server after its start.
abbrev pub restarted : Config → List (Bytes × Bytes) → List SavedTorrent → RpcServer
restarted config files es = record {
  config = config;
  torrents = [];
  saved_paths = insert_all es [];
  next_id = if ltb 1 (max_id 0 es + 1) then max_id 0 es + 1 else 1;
  files = files;
  spawned = map restore_of es;
}

-- The same before the saved paths are filled.
abbrev pub spawned_all : Config → List (Bytes × Bytes) → List SavedTorrent → RpcServer
spawned_all config files es = record (restarted config files es) { saved_paths = [] }

spawned_all-AreBelow :
    (config : Config) (files : List (Bytes × Bytes)) (es : List SavedTorrent)
    → AreBelow es (spawned_all config files es)
spawned_all-AreBelow config files es =
    let n = if ltb 1 (max_id 0 es + 1) then max_id 0 es + 1 else 1 in
    let bound : max_id 0 es < n = ground arith in
    let below : All (λ e. e.id < n) es =
      All-weaken (λ e. e.id ≤ max_id 0 es) (λ e. e.id < n) es (λ e l. omega (arith, l, bound))
        (max_id_all 0 es) in
    (
      record {
        torrents_map = tt;
        saved_map = tt;
        torrents_own = tt;
        saved_own = tt;
        planned = restores-IsPlanned n es below;
      },
      below,
    )

fill_saved-IsConsistent :
    (es : List SavedTorrent) (s : RpcServer) → AreBelow es s → IsConsistent (fill_saved es s)
unfolding fill_saved
fill_saved-IsConsistent es s (h, below) = record {
  torrents_map = h.torrents_map;
  saved_map = insert_all-IsMap es s.saved_paths h.saved_map;
  torrents_own = h.torrents_own;
  saved_own = insert_all-IsSaved s.next_id es s.saved_paths below h.saved_own;
  planned = h.planned;
}

pub begin_restores_done :
    (config : Config) (files : List (Bytes × Bytes)) (es : List SavedTorrent) (s : RpcServer)
    → begin_restores es (new config files) ≡ ok s
    → s ≡ spawned_all config files es
unfolding begin_restores advance_id spawn_restores new max_id insert_all
begin_restores_done config files [] s h = cc
begin_restores_done config files (e ∷ es) s h =
    elim (Bool-cases (ltb (max_id 0 (e ∷ es) + 1) (2 ^ 32))) [
      | inl t ↦ let k = rw t at h in cc
      | inr t ↦ let k = rw t at h in cc
    ]

-- However the daemon is started, whichever restores run before the saved paths are filled, and whatever
-- requests are made while two ids are left, in any order with the other restores and with flushes: the
-- tables hold no key twice, each torrent and saved entry carries the id it stands under, and every id
-- in use is below the next one.
pub Runs-IsConsistent :
    {F : Type 0} (env : Env F) (config : Config) (files : List (Bytes × Bytes))
    (start s : RpcServer)
    → Starts env config files start
    → Runs env serving start s
    → IsConsistent s
unfolding Flushes
Runs-IsConsistent env config files start s starts run =
    let es = load_state env files in
    let begun_below =
      subst (AreBelow es) (sym (begin_restores_done config files es starts.spawning starts.begins))
        (spawned_all-AreBelow config files es) in
    let below =
      Runs_kept env (AreBelow es) (AreBelow-IsKept env es) starting starts.spawning starts.waiting
        (λ f. absurd f) begun_below starts.early in
    Runs_kept env IsConsistent (IsConsistent-IsKept env) serving start s
      (λ f t h. flush_progress-IsConsistent env t h)
      (subst IsConsistent starts.fills (fill_saved-IsConsistent es starts.waiting below)) run
