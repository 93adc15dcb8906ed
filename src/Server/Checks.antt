-- ===== src/Server/Checks.antt =====
-- Concrete runs of crates/daemon/src/server.rs, and the theorems at concrete inputs.
use torrent_rust_cli.Common.{
  ℕ, ◌^◌, ◌<◌, ◌≡◌, ◌≢◌, refl, sym, ap, List, [], ◌∷◌, map, none, some, Bytes, All, length,
  replicate, ok, arith, bytes_eq,
}
use torrent_rust_cli.Common.Texts.{codes}
use torrent_rust_cli.Common.Streams.{list_streams, fill, read_list}
use torrent_rust_cli.Rpc.Types.{Request, Response, TorrentStatus}
use torrent_rust_cli.Rpc.Exchange.{send_request, send_response}
use torrent_rust_cli.Meta.Types.{TorrentMeta, single}
use torrent_rust_cli.Bencode.Value as Value
use torrent_rust_cli.Bencode.Encode.{encode}
use torrent_rust_cli.Meta.Print.{into_bytes, info_to_bencode}
use torrent_rust_cli.Magnet.Hex.{to_hex, decode_hex, hex_pairs, parse_hex_digit}
use torrent_rust_cli.Magnet.BareHash.{bare_hash_link, trackers_query}
use torrent_rust_cli.Magnet.Link.{
  MagnetLink, strip_prefix, parse, split_on, take_pairs, take_pair, take_hash, link_of,
}
use torrent_rust_cli.Server.Table.{get, insert, values}
use torrent_rust_cli.Server.Types.{SavedTorrent, TorrentHandle, Downloader, fetch, RpcServer}
use torrent_rust_cli.Server.Text.{
  trim, strip_all, strip_any, is_magnet, is_bare_hash, all_hex, starts_with,
}
use torrent_rust_cli.Server.State.{
  read_file, state_file_path, load_state, save_state, save_paths, insert_all, begin_restores,
  advance_id, spawn_restores, fill_saved, parse_state, loaded_entries, flush_progress, new, max_id,
  restore_of, restore_state,
}
use torrent_rust_cli.Server.Restore.{cache_path, exists, put_handle, fetching_state, checking_state}
use torrent_rust_cli.Server.Add.{
  find_hash, take_id, persist, add_fetching, add_link, add_parsed_link, add_text, expand_hash,
  add_torrent_internal,
}
use torrent_rust_cli.Server.Requests.{statuses, list_all, process_request, version_text}
use torrent_rust_cli.Server.Connection.{
  finished, processed, send_all, handle_connection, handle_connection-Processes,
}
use torrent_rust_cli.Server.Consistent.{IsConsistent}
use torrent_rust_cli.Server.Runs.{unflushed, serving, TakesRequests, Runs, begun, requested}
use torrent_rust_cli.Server.Reachable.{Starts, Runs-IsConsistent}
use torrent_rust_cli.Server.Persisted.{IsStorable, IsSafe, Runs-IsPersisted}
use torrent_rust_cli.Server.Restart.{restore_state_restart, flush_progress_drops}
use torrent_rust_cli.Server.Listing.{
  Permutes, swap, IsAscending, list_all-IsAscending, list_all-Permutes,
}
use torrent_rust_cli.Server.Incoming.{
  handed, engine_of, handle_incoming_peer, handle_incoming_peer_own,
}
use torrent_rust_cli.Peer.Handshake as HandshakeOf
use torrent_rust_cli.Peer.Handshake.{Handshake, serialize}
use torrent_rust_cli.Server.Adding.{HasUniqueHashes, add_torrent_internal-HasUniqueHashes}
use torrent_rust_cli.Server.Lifetime.{after_add}
use torrent_rust_cli.Server.Example
use torrent_rust_cli.Server.Example.{
  print_state, parse_state-print_state, digest, example_env, example_config, requests, responses,
  write_request, read_request, write_response, read_response,
}

example-IsStorable : IsStorable example_env
unfolding print_state
example-IsStorable = record {
  prints = λ es. (length es ∷ _, refl);
  reads_back = parse_state-print_state;
  writable = refl;
}

-- A link whose metadata are still to be fetched, and a worker for it.
abbrev link : ℕ → MagnetLink
link n = record { info_hash = n ∷ []; trackers = []; name = none }

abbrev fetching : ℕ → TorrentHandle
fetching id = record { state = fetching_state id (link id); engine = none; worker_handle = none }

abbrev entry : ℕ → SavedTorrent
entry id = record { id = id; path = codes "a"; download_dir = some (codes "e") }

-- Two torrents, the second of them saved.
abbrev two : RpcServer
two = record {
  config = example_config;
  torrents = (2, fetching 2) ∷ (1, fetching 1) ∷ [];
  saved_paths = (2, entry 2) ∷ (3, entry 3) ∷ [];
  next_id = 4;
  files = [];
  spawned = [];
}

two-IsConsistent : IsConsistent two
unfolding get
two-IsConsistent = record {
  torrents_map = (refl, (refl, tt));
  saved_map = (refl, (refl, tt));
  torrents_own = ((refl, omega arith, λ d e. cc), ((refl, omega arith, λ d e. cc), tt));
  saved_own = ((refl, omega arith), ((refl, omega arith), tt));
  planned = tt;
}

-- The entry whose torrent is not loaded is dropped.
flush_progress_drops_example :
    All (λ e. e.id ≢ 3) (load_state example_env (flush_progress example_env two).files)
unfolding get loaded_entries
flush_progress_drops_example =
    flush_progress_drops example_env example-IsStorable two 3 two-IsConsistent refl (λ e. cc)

abbrev clock : ℕ → ℕ
clock id = 0

list_all-IsAscending_example :
    (list : List (TorrentStatus ℕ)) × (list_all example_env clock two ≡ Response.torrent_list list)
    × IsAscending list
    × Permutes (statuses example_env clock two.torrents) list
list_all-IsAscending_example = list_all-IsAscending example_env clock two two-IsConsistent

list_all-Permutes_example :
    list_all example_env clock (record two { torrents = (1, fetching 1) ∷ (2, fetching 2) ∷ [] })
    ≡ list_all example_env clock two
list_all-Permutes_example =
    list_all-Permutes example_env clock two ((1, fetching 1) ∷ (2, fetching 2) ∷ [])
      two-IsConsistent swap

-- A daemon that is started on a state file with one entry.
abbrev kept_files : List (Bytes × Bytes)
kept_files = (state_file_path, 1 ∷ 3 ∷ 98 ∷ 0 ∷ 1 ∷ 102 ∷ 0 ∷ []) ∷ []

abbrev started : RpcServer
started = record {
  config = example_config;
  torrents = [];
  saved_paths = (3, entry 3) ∷ [];
  next_id = 4;
  files = kept_files;
  spawned = record { id = 3; path = codes "a" } ∷ [];
}

-- The restore waits until the saved paths are filled.
spawned_first :
    begin_restores (load_state example_env kept_files) (new example_config kept_files)
    ≡ ok (record started { saved_paths = [] })
unfolding new load_state read_file parse_state max_id begin_restores advance_id spawn_restores
    bytes_eq Example.parse_state
spawned_first = refl

filled :
    fill_saved (load_state example_env kept_files) (record started { saved_paths = [] }) ≡ started
unfolding load_state read_file parse_state insert_all fill_saved insert bytes_eq Example.parse_state
filled = refl

started-Starts : Starts example_env example_config kept_files started
started-Starts = record {
  spawning = record started { saved_paths = [] };
  waiting = record started { saved_paths = [] };
  begins = spawned_first;
  early = begun;
  fills = filled;
}

started-IsSafe : IsSafe example_env example-IsStorable started
unfolding load_state read_file parse_state get values bytes_eq Example.parse_state
started-IsSafe = (
  record {
    torrents_map = tt;
    saved_map = (refl, tt);
    torrents_own = tt;
    saved_own = ((refl, omega arith), tt);
    planned = (omega arith, tt);
  },
  refl,
)

-- A bare info hash is added.
abbrev zeros : Bytes
zeros = replicate 40 b'0'

abbrev zeros_link : MagnetLink
zeros_link = record { info_hash = replicate 20 0; trackers = []; name = none }

abbrev after_zeros : RpcServer
after_zeros = record started {
  torrents =
      (
        4,
        record {
          state = fetching_state 4 zeros_link;
          engine = none;
          worker_handle = some (
              fetch (record {
                id = 4;
                magnet = zeros_link;
                download_dir = codes "d";
                metadata_dir = codes "m";
              }));
        },
      )
      ∷ [];
  saved_paths =
      (3, entry 3)
      ∷ (4, record { id = 4; path = bare_hash_link (λ bs. bs) zeros []; download_dir = none })
      ∷ [];
  next_id = 5;
  files =
      save_state example_env
        (values (
          (3, entry 3)
          ∷ (4, record { id = 4; path = bare_hash_link (λ bs. bs) zeros []; download_dir = none })
          ∷ []))
        kept_files;
}

adding :
    process_request example_env clock (Request.add zeros) started
    ≡ ok (Response.torrent_added 4, after_zeros)
unfolding process_request add_torrent_internal trim strip_all strip_any strip_prefix is_bare_hash
    all_hex expand_hash add_text is_magnet starts_with bare_hash_link add_parsed_link add_link
    find_hash exists cache_path read_file add_fetching take_id persist save_paths put_handle insert
    bytes_eq parse split_on take_pairs take_pair take_hash decode_hex hex_pairs parse_hex_digit
    link_of trackers_query
adding = refl

zeros_added : Runs example_env serving started after_zeros
unfolding TakesRequests
zeros_added = requested clock (Request.add zeros) tt begun (omega arith) adding

zeros_unflushed : Runs example_env unflushed started after_zeros
unfolding TakesRequests
zeros_unflushed = requested clock (Request.add zeros) tt begun (omega arith) adding

Runs-IsConsistent_example : IsConsistent after_zeros
Runs-IsConsistent_example =
    Runs-IsConsistent example_env example_config kept_files started after_zeros started-Starts
      zeros_added

Runs-IsPersisted_example : IsSafe example_env example-IsStorable after_zeros
Runs-IsPersisted_example =
    Runs-IsPersisted example_env example-IsStorable started after_zeros started-IsSafe
      zeros_unflushed

add_torrent_internal-HasUniqueHashes_example : HasUniqueHashes after_zeros.torrents
unfolding process_request
add_torrent_internal-HasUniqueHashes_example =
    add_torrent_internal-HasUniqueHashes example_env zeros none started after_zeros
      (Response.torrent_added 4) tt adding

restore_state_restart_example :
    (s' : RpcServer) × (restore_state example_env (new example_config started.files) ≡ ok s')
    × (s'.saved_paths ≡ started.saved_paths)
    × (s'.spawned ≡ map restore_of (values started.saved_paths))
    × (s'.files ≡ started.files)
    × (s'.config ≡ example_config)
restore_state_restart_example =
    restore_state_restart example_env example-IsStorable example_config started started-IsSafe
      (omega arith) (omega arith)

abbrev told : Response ℕ
told = Response.version (version_text example_env)

told_sendable : length (version_text example_env) < 2 ^ 32
unfolding version_text
told_sendable = omega arith

version_told : process_request example_env clock Request.version two ≡ ok (told, two)
unfolding process_request
version_told = refl

-- The client asks for the version twice.
handle_connection-Processes_example :
    (sent written : Bytes) × (send_all
        (send_request requests)
        (Request.version ∷ Request.version ∷ [])
      ≡ ok sent)
    × (send_all (send_response responses) (told ∷ told ∷ []) ≡ ok written)
    × (handle_connection example_env requests responses list_streams 3 (λ n. clock) 0 sent two
        ≡ ok (record { written = written; server = two; error = none }))
unfolding write_request write_response
handle_connection-Processes_example =
    handle_connection-Processes example_env requests responses list_streams (λ n. clock) 0
      (Request.version ∷ Request.version ∷ []) two two (told ∷ told ∷ [])
      (processed version_told (processed version_told finished))
      ((1 ∷ [], refl, omega arith), ((1 ∷ [], refl, omega arith), tt))
      (
        (version_text example_env, refl, told_sendable),
        ((version_text example_env, refl, told_sendable), tt),
      )

-- Torrent files of different digests.
abbrev small : Bytes → TorrentMeta
small name = record {
  announce = b'u' ∷ [];
  announce_list = none;
  info = record { name = name; piece_length = 4; pieces = replicate 20 1 ∷ []; mode = single 3 };
  info_hash = replicate 20 0;
}

abbrev read_back : Bytes → TorrentMeta
read_back name = record (small name) {
  info_hash = digest (encode (info_to_bencode (small name).info));
}

-- A daemon without torrents, beside two torrent files, one of them in the directory of the cache.
abbrev fresh : RpcServer
fresh = new example_config (
    (codes "a", into_bytes (small (b'n' ∷ [])))
    ∷ (codes "m/b", into_bytes (small (b'n' ∷ b'o' ∷ [])))
    ∷ [])

-- The file in the directory of the cache is added by its path.
abbrev in_cache : Bytes
in_cache = codes "m/b"

abbrev first_added : RpcServer
first_added = after_add example_env (codes "a") none (read_back (b'n' ∷ [])) fresh

-- A torrent with its engine, and a peer that asks for it.
abbrev seeding : Downloader
seeding = record { id = 1; meta = small (b'n' ∷ []); download_dir = codes "d" }

abbrev served : RpcServer
served = record two {
  torrents =
      (
        1,
        record {
          state = checking_state 1 (small (b'n' ∷ []));
          engine = some seeding;
          worker_handle = none;
        },
      )
      ∷ [];
}

seeding_own :
    (d : Downloader)
    → some seeding ≡ some d
    → to_hex d.meta.info_hash ≡ to_hex (small (b'n' ∷ [])).info_hash
seeding_own d e = let same : seeding ≡ d = cc in ap (λ c. to_hex c.meta.info_hash) (sym same)

served-IsConsistent : IsConsistent served
unfolding get
served-IsConsistent = record {
  torrents_map = (refl, tt);
  saved_map = (refl, (refl, tt));
  torrents_own = ((refl, omega arith, seeding_own), tt);
  saved_own = ((refl, omega arith), ((refl, omega arith), tt));
  planned = tt;
}

abbrev greeting : Handshake
greeting = record {
  info_hash = replicate 20 0;
  peer_id = replicate 20 7;
  extensions = replicate 8 0;
}

greeted :
    handle_incoming_peer list_streams served (serialize greeting) ≡ ok (greeting, some seeding, [])
unfolding handle_incoming_peer handed engine_of find_hash to_hex bytes_eq HandshakeOf.read serialize
    fill read_list
greeted = refl

handle_incoming_peer_own_example : to_hex seeding.meta.info_hash ≡ to_hex greeting.info_hash
handle_incoming_peer_own_example =
    handle_incoming_peer_own list_streams served (serialize greeting) [] greeting seeding
      served-IsConsistent greeted
