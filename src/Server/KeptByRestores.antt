-- ===== src/Server/KeptByRestores.antt =====
-- What the server keeps while `restore_torrent` of crates/daemon/src/server.rs runs.
use torrent_rust_cli.Common.{
  ℕ, ◌<◌, ◌≡◌, refl, sym, ap, ◌∙◌, some, Bytes, Bool, true, false, Outcome, ok, err, panic,
  out_of_fuel, Option-cases, Bool-cases, inl, inr,
}
use torrent_rust_cli.Magnet.Link.{MagnetLink, magnet_prefix, parse}
use torrent_rust_cli.Magnet.Hex.{to_hex}
use torrent_rust_cli.Magnet.UrlDecode.{MagnetError}
use torrent_rust_cli.Meta.Types.{TorrentMeta, MetaError}
use torrent_rust_cli.Meta.Parse.{from_bytes}
use torrent_rust_cli.Engine.Files.{FileError}
use torrent_rust_cli.Engine.Session.{Torrent}
use torrent_rust_cli.Server.Types.{TorrentState, Downloader, RpcServer, Env}
use torrent_rust_cli.Server.Text.{starts_with}
use torrent_rust_cli.Server.State.{read_file}
use torrent_rust_cli.Server.Restore.{
  cache_path, exists, checking_state, restore_magnet, waited, restore_meta, restore_parsed,
  restore_file, restore_link, restore_torrent,
}
use torrent_rust_cli.Server.Kept.{Keeps, IsKept}

module _ {F : Type 0} (env : Env F) (P : RpcServer → Type 0) (kept : IsKept env P) where
  open kept use {put_handle_kept}

  sound :
      (d : Downloader) (st : TorrentState)
      → to_hex d.meta.info_hash ≡ st.info_hash
      → (c : Downloader) → some d ≡ some c
      → to_hex c.meta.info_hash ≡ st.info_hash
  sound d st own c q = let same : d ≡ c = cc in ap (λ x. to_hex x.meta.info_hash) (sym same) ∙ own

  waited_kept :
      (d : Downloader) (st : TorrentState) (s : RpcServer) (r : Outcome FileError (Torrent × ℕ × ℕ))
      → P s
      → st.id ≡ d.id
      → d.id < s.next_id
      → to_hex d.meta.info_hash ≡ st.info_hash
      → Keeps P (waited env d st s r)
  unfolding waited
  waited_kept d st s (ok (t, verified, total)) h e l own =
      put_handle_kept s d.id _ h e l (sound d st own)
  waited_kept d st s (err x) h e l own = put_handle_kept s d.id _ h e l (sound d st own)
  waited_kept d st s panic h e l own = tt
  waited_kept d st s out_of_fuel h e l own = tt

  restore_meta_kept :
      (id : ℕ) (meta : TorrentMeta) (wait : Bool) (s : RpcServer)
      → P s
      → id < s.next_id
      → Keeps P (restore_meta env id meta wait s)
  unfolding restore_meta
  restore_meta_kept id meta true s h l = waited_kept _ _ s _ h refl l refl
  restore_meta_kept id meta false s h l =
      put_handle_kept s id _ h refl l (sound _ (checking_state id meta) refl)

  restore_parsed_kept :
      (id : ℕ) (wait : Bool) (s : RpcServer) (r : Outcome MetaError TorrentMeta)
      → P s
      → id < s.next_id
      → Keeps P (restore_parsed env id wait s r)
  unfolding restore_parsed
  restore_parsed_kept id wait s (ok meta) h l = restore_meta_kept id meta wait s h l
  restore_parsed_kept id wait s (err e) h l = h
  restore_parsed_kept id wait s panic h l = tt
  restore_parsed_kept id wait s out_of_fuel h l = tt

  restore_file_kept :
      (id : ℕ) (path : Bytes) (wait : Bool) (s : RpcServer)
      → P s
      → id < s.next_id
      → Keeps P (restore_file env id path wait s)
  unfolding restore_file
  restore_file_kept id path wait s h l = elim (Option-cases (read_file s.files path)) [
    | inl e ↦ rw (e, restore_file) h
    | inr (bytes, e) ↦
        rw (e, restore_file) (restore_parsed_kept id wait s (from_bytes env.sha1 bytes) h l)
  ]

  restore_link_kept :
      (id : ℕ) (wait : Bool) (s : RpcServer) (r : Outcome MagnetError MagnetLink)
      → P s
      → id < s.next_id
      → Keeps P (restore_link env id wait s r)
  unfolding restore_link restore_magnet
  restore_link_kept id wait s (ok magnet) h l =
      let path = cache_path s.config magnet.info_hash in
      elim (Bool-cases (exists s.files path)) [
        | inl e ↦ rw e (restore_file_kept id path wait s h l)
        | inr e ↦ rw e (put_handle_kept s id _ h refl l (λ d q. cc))
      ]
  restore_link_kept id wait s (err e) h l = h
  restore_link_kept id wait s panic h l = tt
  restore_link_kept id wait s out_of_fuel h l = tt

  pub restore_torrent_kept :
      (id : ℕ) (path : Bytes) (wait : Bool) (s : RpcServer)
      → P s
      → id < s.next_id
      → Keeps P (restore_torrent env id path wait s)
  unfolding restore_torrent
  restore_torrent_kept id path wait s h l = elim (Bool-cases (starts_with magnet_prefix path)) [
    | inl e ↦ rw e (restore_link_kept id wait s (parse path) h l)
    | inr e ↦ rw e (restore_file_kept id path wait s h l)
  ]
