-- ===== src/Server/KeptByRequests.antt =====
-- What the server keeps while `process_request` of crates/daemon/src/server.rs runs.
use torrent_rust_cli.Common.{
  Yields, Yields-bind, ℕ, ◌+◌, ◌^◌, ◌<◌, ◌≡◌, refl, List, Option, none, some, Bytes, true, Outcome,
  ok, err, panic, out_of_fuel, arith, Option-cases, inl, inr,
}
use torrent_rust_cli.Rpc.Types.{Request}
use torrent_rust_cli.Creator.Torrent.{Source}
use torrent_rust_cli.Server.Table.{get, get-All}
use torrent_rust_cli.Server.Types.{SavedTorrent, TorrentHandle, RpcServer, Env}
use torrent_rust_cli.Server.Restore.{put_handle, restore_torrent}
use torrent_rust_cli.Server.Requests.{
  remove_torrent, pause, resume_saved, resume_idle, resume, verify_saved, verify, out_path,
  write_torrent, create_from, create_file, create_answer, create_add_answer, process_request,
}
use torrent_rust_cli.Server.Consistent.{IsSound, IsOwn}
use torrent_rust_cli.Server.Kept.{Keeps, IsKept}
use torrent_rust_cli.Server.KeptByRestores.{restore_torrent_kept}
use torrent_rust_cli.Server.KeptByAdds.{add_torrent_internal_kept}

module _ {F : Type 0} (env : Env F) (P : RpcServer → Type 0) (kept : IsKept env P) where
  open kept use {consistent, put_handle_kept, spawn_restore_kept, remove_kept, create_kept}

  -- A torrent that is found, under its id.
  found_own :
      (s : RpcServer) (id : ℕ) (handle : TorrentHandle)
      → P s
      → get s.torrents id ≡ some handle
      → (handle.state.id ≡ id) × (id < s.next_id) × IsSound handle
  found_own s id handle h e =
      get-All (IsOwn s.next_id) id handle s.torrents (consistent s h).torrents_own e

  remove_torrent_kept : (id : ℕ) (s : RpcServer) → P s → P (remove_torrent env id s).1
  unfolding remove_torrent
  remove_torrent_kept id s h = elim (Option-cases (get s.torrents id)) [
    | inl e ↦ rw (e, remove_torrent) h
    | inr (handle, e) ↦ rw (e, remove_torrent) (remove_kept s id h)
  ]

  pause_kept : (id : ℕ) (s : RpcServer) → P s → P (pause env id s).1
  unfolding pause
  pause_kept id s h = elim (Option-cases (get s.torrents id)) [
    | inl e ↦ rw (e, pause) h
    | inr (handle, e) ↦
        let (own, l, sound) = found_own s id handle h e in
        rw (e, pause) (put_handle_kept s id _ h own l sound)
  ]

  resume_saved_kept :
      (id : ℕ) (s : RpcServer) (o : Option SavedTorrent)
      → P s
      → id < s.next_id
      → P (resume_saved env id s o).1
  unfolding resume_saved
  resume_saved_kept id s (some e) h l = spawn_restore_kept s id e.path h l
  resume_saved_kept id s none h l = h

  resume_idle_kept :
      (id : ℕ) (handle : TorrentHandle) (s : RpcServer)
      → P s
      → handle.state.id ≡ id
      → id < s.next_id
      → IsSound handle
      → P (resume_idle env id handle s).1
  unfolding resume_idle
  resume_idle_kept id handle s h own l sound = elim (Option-cases handle.worker_handle) [
    | inl e ↦
        let put = put_handle_kept s id _ h own l sound in
        rw (e, resume_idle)
          (resume_saved_kept id _ (get s.saved_paths id) put (unfold put_handle in l))
    | inr (worker, e) ↦ rw (e, resume_idle) h
  ]

  resume_kept : (id : ℕ) (s : RpcServer) → P s → P (resume env id s).1
  unfolding resume
  resume_kept id s h = elim (Option-cases (get s.torrents id)) [
    | inl e ↦ rw (e, resume) h
    | inr (handle, e) ↦
        let (own, l, sound) = found_own s id handle h e in
        rw (e, resume) (resume_idle_kept id handle s h own l sound)
  ]

  verify_saved_kept :
      (id : ℕ) (s : RpcServer) (o : Option SavedTorrent)
      → P s
      → id < s.next_id
      → Keeps P (verify_saved env id s o)
  unfolding verify_saved
  verify_saved_kept id s (some e) h l =
      Yields-bind (λ p. P p.1) (λ p. P p.1) (restore_torrent env id e.path true s) _
        (restore_torrent_kept env P kept id e.path true s h l) (λ a k. k)
  verify_saved_kept id s none h l = h

  verify_kept : (id : ℕ) (s : RpcServer) → P s → Keeps P (verify env id s)
  unfolding verify
  verify_kept id s h = elim (Option-cases (get s.torrents id)) [
    | inl e ↦ rw (e, verify) h
    | inr (handle, e) ↦
        let (own, l, sound) = found_own s id handle h e in
        rw (e, verify)
          (verify_saved_kept id _ (get s.saved_paths id) (put_handle_kept s id _ h own l sound)
            (unfold put_handle in l))
  ]

  abbrev Grown : RpcServer → Outcome Bytes RpcServer → Type 0
  Grown s r = Yields (λ s'. P s' × (s'.next_id ≡ s.next_id)) r

  write_torrent_kept :
      (path bytes : Bytes) (s : RpcServer) (o : Option Bytes)
      → P s
      → Grown s (write_torrent env path bytes s o)
  unfolding write_torrent
  write_torrent_kept path bytes s none h = (create_kept s path bytes h, refl)
  write_torrent_kept path bytes s (some e) h = tt

  create_from_kept :
      (path : Bytes) (trackers : List Bytes) (s : RpcServer) (r : Outcome Bytes (Bytes × Source))
      → P s
      → Grown s (create_from env path trackers s r)
  unfolding create_from
  create_from_kept path trackers s (ok (name, source)) h = write_torrent_kept path _ s _ h
  create_from_kept path trackers s (err e) h = tt
  create_from_kept path trackers s panic h = tt
  create_from_kept path trackers s out_of_fuel h = tt

  create_file_kept :
      (path : Bytes) (trackers : Option (List Bytes)) (s : RpcServer)
      → P s
      → Grown s (create_file env path trackers s)
  unfolding create_file
  create_file_kept path trackers s h = create_from_kept path _ s (env.source path) h

  create_answer_kept :
      (path : Bytes) (s : RpcServer) (r : Outcome Bytes RpcServer)
      → P s
      → Grown s r
      → Keeps P (create_answer env path s r)
  unfolding create_answer
  create_answer_kept path s (ok s') h g = g.0
  create_answer_kept path s (err e) h g = h
  create_answer_kept path s panic h g = tt
  create_answer_kept path s out_of_fuel h g = tt

  create_add_answer_kept :
      (path : Bytes) (s : RpcServer) (r : Outcome Bytes RpcServer)
      → P s
      → s.next_id + 2 < 2 ^ 32
      → Grown s r
      → Keeps P (create_add_answer env path s r)
  unfolding create_add_answer
  create_add_answer_kept path s (ok s') h l (k, same) =
      add_torrent_internal_kept env P kept (out_path path) (env.parent path) s' k
        (omega (arith, l, same))
  create_add_answer_kept path s (err e) h l g = h
  create_add_answer_kept path s panic h l g = tt
  create_add_answer_kept path s out_of_fuel h l g = tt

  -- While two ids are left, a request keeps the property.
  pub process_request_kept :
      (clock : ℕ → ℕ) (r : Request) (s : RpcServer)
      → P s
      → s.next_id + 2 < 2 ^ 32
      → Keeps P (process_request env clock r s)
  unfolding process_request
  process_request_kept clock Request.version s h l = h
  process_request_kept clock (Request.add text) s h l =
      add_torrent_internal_kept env P kept text none s h l
  process_request_kept clock Request.list_all s h l = h
  process_request_kept clock (Request.status id) s h l = h
  process_request_kept clock (Request.remove id delete_data) s h l = remove_torrent_kept id s h
  process_request_kept clock (Request.pause id) s h l = pause_kept id s h
  process_request_kept clock (Request.resume id) s h l = resume_kept id s h
  process_request_kept clock (Request.verify id) s h l = verify_kept id s h
  process_request_kept clock (Request.create path trackers) s h l =
      create_answer_kept path s _ h (create_file_kept path trackers s h)
  process_request_kept clock (Request.create_add path trackers) s h l =
      create_add_answer_kept path s _ h l (create_file_kept path trackers s h)
  process_request_kept clock (Request.info id) s h l = h
  process_request_kept clock Request.stats s h l = h
  process_request_kept clock Request.get_config s h l = h
