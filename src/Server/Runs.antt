-- ===== src/Server/Runs.antt =====
-- The server of crates/daemon/src/server.rs over time: requests, the restores that are spawned, and the
-- flushes, in any order.
use torrent_rust_cli.Common.{
  Yields-ok, ℕ, ◌+◌, ◌^◌, ◌<◌, ◌≡◌, subst, List, [], ◌∷◌, ◌++◌, Option, Bytes, All, All-take_out,
  false, ok,
}
use torrent_rust_cli.Rpc.Types.{Request, Response}
use torrent_rust_cli.Server.Types.{SavedTorrent, Restore, RpcServer, Env}
use torrent_rust_cli.Server.State.{flush_progress, write_entries, loaded_entries}
use torrent_rust_cli.Server.Restore.{restore_torrent}
use torrent_rust_cli.Server.Requests.{process_request}
use torrent_rust_cli.Server.Consistent.{
  IsConsistent, IsPlanned, put_handle-IsConsistent, persist-IsConsistent, take_id-IsConsistent,
  spawn_restore-IsConsistent, remove_id-IsConsistent,
}
use torrent_rust_cli.Server.Kept.{IsKept}
use torrent_rust_cli.Server.KeptByRequests.{process_request_kept}
use torrent_rust_cli.Server.KeptByRestores.{restore_torrent_kept}

-- While `restore_state` waits for the saved paths, restores are all that runs; afterwards requests and
-- flushes run too, or, for what holds only without them, no flushes.
pub data Phase : Type 0 where
  starting unflushed serving : Phase

unfoldable pub TakesRequests : Phase → Type 0
TakesRequests starting = ⊥
TakesRequests _ = Unit {0}

unfoldable pub Flushes : Phase → Type 0
Flushes serving = Unit {0}
Flushes _ = ⊥

-- The states that follow from one: by a request, while two ids are left, by one of the spawned
-- restores, whichever runs first, or by a flush.
pub data Runs {F : Type 0} (env : Env F) (phase : Phase) (start : RpcServer)
    : RpcServer → Type 0 where
  begun : Runs env phase start start
  requested :
      {s s' : RpcServer} {response : Response F} (clock : ℕ → ℕ) (r : Request)
      → TakesRequests phase
      → Runs env phase start s
      → s.next_id + 2 < 2 ^ 32
      → process_request env clock r s ≡ ok (response, s')
      → Runs env phase start s'
  restoring :
      {s s' : RpcServer} {o : Option Bytes} (before after : List Restore) (r : Restore)
      → Runs env phase start s
      → s.spawned ≡ before ++ (r ∷ after)
      → restore_torrent env r.id r.path false (record s { spawned = before ++ after }) ≡ ok (o, s')
      → Runs env phase start s'
  flushed :
      {s : RpcServer}
      → Flushes phase
      → Runs env phase start s
      → Runs env phase start (flush_progress env s)

module _ {F : Type 0} (env : Env F) (P : RpcServer → Type 0) (kept : IsKept env P) where
  planned_below :
      (s : RpcServer) (before after : List Restore) (r : Restore)
      → P s
      → s.spawned ≡ before ++ (r ∷ after)
      → r.id < s.next_id
  planned_below s before after r h e =
      let planned = subst (λ rs. All (IsPlanned s.next_id) rs) e (kept.consistent s h).planned in
      (All-take_out (IsPlanned s.next_id) before after r planned).0

  pub Runs_kept :
      (phase : Phase) (start s : RpcServer)
      → (Flushes phase → (s : RpcServer) → P s → P (flush_progress env s))
      → P start
      → Runs env phase start s
      → P s
  Runs_kept phase start s f h begun = h
  Runs_kept phase start s' f h (requested {s = s} {response = response} clock r t run room step) =
      Yields-ok _ _ (response, s')
        (process_request_kept env P kept clock r s (Runs_kept phase start s f h run) room) step
  Runs_kept phase start s' f h (flushed {s = s} t run) = f t s (Runs_kept phase start s f h run)
  Runs_kept phase start s' f h (restoring {s = s} {o = o} before after r run e step) =
      let now = Runs_kept phase start s f h run in
      Yields-ok _ _ (o, s')
        (restore_torrent_kept env P kept r.id r.path false (record s { spawned = before ++ after })
          (kept.begin_kept s before after r now e) (planned_below s before after r now e))
        step

begin-IsConsistent :
    (s : RpcServer) (before after : List Restore) (r : Restore)
    → IsConsistent s
    → s.spawned ≡ before ++ (r ∷ after)
    → IsConsistent (record s { spawned = before ++ after })
begin-IsConsistent s before after r h e =
    let planned = subst (λ rs. All (IsPlanned s.next_id) rs) e h.planned in
    record {
      torrents_map = h.torrents_map;
      saved_map = h.saved_map;
      torrents_own = h.torrents_own;
      saved_own = h.saved_own;
      planned = (All-take_out (IsPlanned s.next_id) before after r planned).1;
    }

create-IsConsistent :
    (s : RpcServer) (files : List (Bytes × Bytes))
    → IsConsistent s
    → IsConsistent (record s { files = files })
create-IsConsistent s files h = record {
  torrents_map = h.torrents_map;
  saved_map = h.saved_map;
  torrents_own = h.torrents_own;
  saved_own = h.saved_own;
  planned = h.planned;
}

pub IsConsistent-IsKept : {F : Type 0} (env : Env F) → IsKept env IsConsistent
IsConsistent-IsKept env = record {
  consistent = λ s h. h;
  put_handle_kept = λ s id handle h e l sound. put_handle-IsConsistent s h id handle e l sound;
  persist_kept = λ s id path dir h l. persist-IsConsistent s h env id path dir l;
  take_id_kept = λ s h l. (take_id-IsConsistent s h l).0;
  spawn_restore_kept = λ s id path h l. spawn_restore-IsConsistent s h id path l;
  begin_kept = λ s before after r h e. begin-IsConsistent s before after r h e;
  remove_kept = λ s id h. remove_id-IsConsistent s h env id;
  create_kept = λ s path bytes h. create-IsConsistent s _ h;
}

write_entries-IsConsistent :
    {F : Type 0} (env : Env F) (es : List SavedTorrent) (s : RpcServer)
    → IsConsistent s
    → IsConsistent (write_entries env es s)
unfolding write_entries
write_entries-IsConsistent env [] s h = h
write_entries-IsConsistent env (e ∷ es) s h = create-IsConsistent s _ h

pub flush_progress-IsConsistent :
    {F : Type 0} (env : Env F) (s : RpcServer)
    → IsConsistent s
    → IsConsistent (flush_progress env s)
unfolding flush_progress
flush_progress-IsConsistent env s h =
    write_entries-IsConsistent env (loaded_entries s.torrents s.saved_paths) s h
