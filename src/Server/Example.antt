-- ===== src/Server/Example.antt =====
-- A daemon for the concrete runs of crates/daemon/src/server.rs: a print of the state file that is read
-- back, and codecs of a request and a response.
use torrent_rust_cli.Common.{
  ℕ, zero, suc, ◌≡◌, refl, ap, ◌∙◌, List, [], ◌∷◌, Option, none, some, Bytes, true, length,
  replicate, err, sym,
}
use torrent_rust_cli.Common.Texts.{codes}
use torrent_rust_cli.Rpc.Types.{Request, Response}
use torrent_rust_cli.Rpc.Exchange.{Codec}
use torrent_rust_cli.Server.Types.{SavedTorrent, Config, Env}

-- A text with a zero behind it, each byte one higher.
write_text : Bytes → Bytes → Bytes
write_text [] r = 0 ∷ r
write_text (c ∷ t) r = suc c ∷ write_text t r

abbrev front : ℕ → Option (Bytes × Bytes) → Option (Bytes × Bytes)
front c none = none
front c (some (t, r)) = some (c ∷ t, r)

read_text : Bytes → Option (Bytes × Bytes)
read_text [] = none
read_text (zero ∷ r) = some ([], r)
read_text (suc c ∷ r) = front c (read_text r)

read_text-write_text : (t r : Bytes) → read_text (write_text t r) ≡ some (t, r)
unfolding read_text write_text
read_text-write_text [] r = refl
read_text-write_text (c ∷ t) r = ap (front c) (read_text-write_text t r)

write_dir : Option Bytes → Bytes → Bytes
unfolding write_text
write_dir none r = 0 ∷ r
write_dir (some d) r = 1 ∷ write_text d r

abbrev with_dir : Option (Bytes × Bytes) → Option (Option Bytes × Bytes)
with_dir none = none
with_dir (some (d, r)) = some (some d, r)

read_dir : Bytes → Option (Option Bytes × Bytes)
read_dir [] = none
read_dir (zero ∷ r) = some (none, r)
read_dir (suc c ∷ r) = with_dir (read_text r)

read_dir-write_dir : (o : Option Bytes) (r : Bytes) → read_dir (write_dir o r) ≡ some (o, r)
unfolding read_dir write_dir
read_dir-write_dir none r = refl
read_dir-write_dir (some d) r = ap with_dir (read_text-write_text d r)

write_all : List SavedTorrent → Bytes
write_all [] = []
write_all (e ∷ es) = e.id ∷ write_text e.path (write_dir e.download_dir (write_all es))

abbrev onto : SavedTorrent → Option (List SavedTorrent) → Option (List SavedTorrent)
onto e none = none
onto e (some es) = some (e ∷ es)

read_all : ℕ → Bytes → Option (List SavedTorrent)
read_all zero bs = some []
read_all (suc n) [] = none
read_all (suc n) (id ∷ r) = elim (read_text r) [
  | none ↦ none
  | some (path, r₁) ↦ elim (read_dir r₁) [
    | none ↦ none
    | some (dir, r₂) ↦ onto (record { id = id; path = path; download_dir = dir }) (read_all n r₂)
  ]
]

read_all-write_all : (es : List SavedTorrent) → read_all (length es) (write_all es) ≡ some es
unfolding read_all write_all
read_all-write_all [] = refl
read_all-write_all (e ∷ es) =
    rw
      (
        read_text-write_text e.path (write_dir e.download_dir (write_all es)),
        read_all,
        read_dir-write_dir e.download_dir (write_all es),
        read_all-write_all es,
      )
      refl

unfoldable pub print_state : List SavedTorrent → Option Bytes
unfolding write_all write_text write_dir
print_state es = some (length es ∷ write_all es)

unfoldable pub parse_state : Bytes → Option (List SavedTorrent)
unfolding read_all read_text read_dir
parse_state [] = none
parse_state (n ∷ bs) = read_all n bs

pub parse_state-print_state :
    (es : List SavedTorrent) (json : Bytes)
    → print_state es ≡ some json
    → parse_state json ≡ some es
unfolding parse_state print_state
parse_state-print_state es json e =
    let same : length es ∷ write_all es ≡ json = cc in
    ap parse_state (sym same) ∙ read_all-write_all es

-- The length, as one byte, twenty times.
abbrev pub digest : Bytes → Bytes
digest bs = replicate 20 (length bs)

-- Numbers stand for the floats.
abbrev pub example_env : Env ℕ
example_env = record {
  sha1 = digest;
  byte_serialize = λ bs. bs;
  to_string_pretty = print_state;
  from_str_new = parse_state;
  from_str_old = λ bs. none;
  magnet_error = λ e. [];
  meta_error = λ e. [];
  read_error = [];
  join_error = [];
  write_error = λ path. none;
  of_u64 = λ n. n;
  div = λ a b. a;
  mul = λ a b. a;
  min_f32 = λ a b. a;
  one_digit = λ n. [];
  cargo_pkg_version = [];
  git_hash = [];
  git_date = [];
  store = λ dir meta path. none;
  access = λ dir meta path. true;
  source = λ path. err [];
  parent = λ path. none;
}

abbrev pub example_config : Config
example_config = record {
  download_dir = codes "d";
  metadata_dir = codes "m";
  data_write_frequency_secs = 5;
  default_trackers = [];
}

unfoldable pub write_request : Request → Option Bytes
write_request Request.version = some (1 ∷ [])
write_request r = none

unfoldable pub read_request : Bytes → Option Request
read_request bs = some Request.version

pub read_request-write_request :
    (r : Request) (bs : Bytes) → write_request r ≡ some bs → read_request bs ≡ some r
unfolding write_request read_request
read_request-write_request Request.stats bs e = cc
read_request-write_request (Request.create p t) bs e = cc
read_request-write_request (Request.create_add p t) bs e = cc
read_request-write_request (Request.add p) bs e = cc
read_request-write_request (Request.remove i d) bs e = cc
read_request-write_request (Request.pause i) bs e = cc
read_request-write_request (Request.resume i) bs e = cc
read_request-write_request Request.list_all bs e = cc
read_request-write_request (Request.status i) bs e = cc
read_request-write_request (Request.info i) bs e = cc
read_request-write_request (Request.verify i) bs e = cc
read_request-write_request Request.get_config bs e = cc
read_request-write_request Request.version bs e = refl

-- Only the request for the version is printed, and the response to it.
abbrev pub requests : Codec Request
requests = record {
  serialize = write_request;
  deserialize = read_request;
  deserialize-serialize = read_request-write_request;
}

unfoldable pub write_response : Response ℕ → Option Bytes
write_response (Response.version t) = some t
write_response r = none

unfoldable pub read_response : Bytes → Option (Response ℕ)
read_response bs = some (Response.version bs)

pub read_response-write_response :
    (r : Response ℕ) (bs : Bytes) → write_response r ≡ some bs → read_response bs ≡ some r
unfolding write_response read_response
read_response-write_response (Response.version t) bs e = cc
read_response-write_response Response.done bs e = cc
read_response-write_response (Response.error t) bs e = cc
read_response-write_response (Response.torrent_added i) bs e = cc
read_response-write_response Response.torrent_removed bs e = cc
read_response-write_response (Response.torrent_list l) bs e = cc
read_response-write_response (Response.torrent_status t) bs e = cc
read_response-write_response (Response.stats t) bs e = cc
read_response-write_response (Response.info t) bs e = cc
read_response-write_response (Response.config t) bs e = cc

abbrev pub responses : Codec (Response ℕ)
responses = record {
  serialize = write_response;
  deserialize = read_response;
  deserialize-serialize = read_response-write_response;
}
