-- ===== src/Tracker/Http.antt =====
-- `TrackerClient::announce_http` of crates/tracker/src/lib.rs. The resolver and the connection are
-- parameters.
use torrent_rust_cli.Common.{
  ℕ, ◌^◌, ◌<◌, ◌≡◌, refl, [], ◌∷◌, ◌++◌, List, Option, none, some, Bool, true, false, ◌&&◌, Bytes,
  length, ◌==◌, if◌then◌else◌, Outcome, ok, err, ◌>>=◌, map_err, ◌∙◌, All,
}
use torrent_rust_cli.Common.Decimal.{print_nat, print_int, parse_u16}
use torrent_rust_cli.Common.Texts.{codes}
use torrent_rust_cli.Common.Utf8.{from_utf8_lossy}
use torrent_rust_cli.Bencode.Value.{
  Bencode, Dict, BencodeError, byte_string, dict, get, IsWellFormed,
}
use torrent_rust_cli.Bencode.Decode.{decode}
use torrent_rust_cli.Bencode.Encode.{encode}
use torrent_rust_cli.Bencode.RoundTrip.{decode-encode}
use torrent_rust_cli.Magnet.Hex.{to_hex}
use torrent_rust_cli.Tracker.Peers.{
  SocketAddr, read_peers, print_peers, HasPort, read_peers-print_peers,
}
use torrent_rust_cli.Tracker.Udp.{Announce, trim_scheme}

pub data HttpError : Type 0 where
  invalid_port unresolved no_answer no_body not_a_dictionary : HttpError
  bencode_error : BencodeError → HttpError
  failed : Bytes → HttpError

-- The text before the first of a character, and the text from it on, if it is there (`find`).
unfoldable pub cut_at : ℕ → Bytes → Bytes × Option Bytes
cut_at sep [] = ([], none)
cut_at sep (c ∷ s) =
    let (front, back) = cut_at sep s in if c == sep then ([], some (c ∷ s)) else (c ∷ front, back)

-- The host and port, and the path.
unfoldable pub split_url : Bytes → Bytes × Bytes
split_url url =
    let (host_port, path) = cut_at b'/' (trim_scheme (length url) (codes "http://") url) in
    elim path [ none ↦ (host_port, codes "/announce") | some p ↦ (host_port, p) ]

-- The port behind the colon, 80 where there is none.
unfoldable pub port_of : Option Bytes → Outcome HttpError ℕ
port_of none = ok 80
port_of (some []) = ok 80
port_of (some (colon ∷ text)) = elim (parse_u16 text) [ none ↦ err invalid_port | some n ↦ ok n ]

-- `%` and two digits for each byte.
unfoldable pub percent_encoded : Bytes → Bytes
percent_encoded [] = []
percent_encoded (b ∷ bs) = b'%' ∷ (to_hex (b ∷ []) ++ percent_encoded bs)

unfoldable pub http_request : Bytes → Bytes → Announce → Bytes
http_request host_port path a =
    codes "GET "
    ++ (path
        ++ (codes "?info_hash="
            ++ (percent_encoded a.info_hash
                ++ (codes "&peer_id="
                    ++ (percent_encoded a.peer_id
                        ++ (codes "&port="
                            ++ (print_nat a.port
                                ++ (codes "&downloaded=0&uploaded=0&left="
                                    ++ (print_int a.left
                                        ++ (codes "&compact=1 HTTP/1.1\r\nHost: "
                                            ++ (host_port
                                                ++ codes "\r\nConnection: close\r\n\r\n")))))))))))

-- b"\r\n\r\n"
abbrev pub starts_body : Bytes → Bool
starts_body (a ∷ b ∷ c ∷ d ∷ s) = a == 13 && (b == 10) && (c == 13) && (d == 10)
starts_body _ = false

abbrev pub skip_four : Bytes → Bytes
skip_four (a ∷ b ∷ c ∷ d ∷ s) = s
skip_four _ = []

-- `windows(4).position(…)`, and what lies behind that window.
unfoldable pub find_body : Bytes → Option Bytes
find_body [] = none
find_body (c ∷ s) =
    let rest = find_body s in if starts_body (c ∷ s) then some (skip_four (c ∷ s)) else rest

-- The keys are looked up one after the other; a value that is no string counts as missing.
unfoldable pub peers_of : Dict → Outcome HttpError (List SocketAddr)
peers_of d = elim (get (codes "failure reason") d) [
  | some (byte_string reason) ↦ err (failed (from_utf8_lossy reason))
  | _ ↦ elim (get (codes "peers") d) [
    | some (byte_string peers_bytes) ↦ ok (read_peers peers_bytes)
    | _ ↦ ok []
  ]
]

unfoldable pub peers_of_value : Bencode → Outcome HttpError (List SocketAddr)
peers_of_value (dict d) = peers_of d
peers_of_value _ = err not_a_dictionary

unfoldable pub parse_response : Bytes → Outcome HttpError (List SocketAddr)
parse_response response = elim (find_body response) [
  | none ↦ err no_body
  | some body ↦ map_err bencode_error (decode body) >>= peers_of_value
]

-- The addresses of a host and port, and all bytes that come back within the time limit, if the
-- connection is made and closed in time.
pub record HttpLink : Type 0 where
  pub resolve : Bytes → ℕ → List Bytes
  pub answer : Bytes → Bytes → Option Bytes

unfoldable pub announce_http : HttpLink → Bytes → Announce → Outcome HttpError (List SocketAddr)
announce_http link url a =
    let (host_port, path) = split_url url in
    let (host, behind) = cut_at b':' host_port in
    port_of behind >>= λ port. elim (link.resolve host port) [
      | [] ↦ err unresolved
      | addr ∷ others ↦ elim (link.answer addr (http_request host_port path a)) [
        | none ↦ err no_answer
        | some response ↦ parse_response response
      ]
    ]

if_step :
    (t : Bool) (x x' : Bytes) {body : Bytes} {y w : Option Bytes}
    → (if t then some x else y) ≡ none
    → (y ≡ none → w ≡ some body)
    → (if t then some x' else w) ≡ some body
if_step true x x' h k = cc
if_step false x x' h k = k h

-- The first blank line ends the head, also where bytes follow it.
find_body_behind :
    (head body : Bytes)
    → find_body (head ++ codes "\r\n\r") ≡ none
    → find_body (head ++ (codes "\r\n\r\n" ++ body)) ≡ some body
unfolding find_body
find_body_behind [] body h = refl
find_body_behind (a ∷ []) body h = if_step _ _ _ h (find_body_behind [] body)
find_body_behind (a ∷ b ∷ []) body h = if_step _ _ _ h (find_body_behind (b ∷ []) body)
find_body_behind (a ∷ b ∷ c ∷ []) body h = if_step _ _ _ h (find_body_behind (b ∷ c ∷ []) body)
find_body_behind (a ∷ b ∷ c ∷ d ∷ s) body h =
    if_step _ _ _ h (find_body_behind (b ∷ c ∷ d ∷ s) body)

parse_response_dict :
    (head : Bytes) (d : Dict)
    → find_body (head ++ codes "\r\n\r") ≡ none
    → IsWellFormed (dict d)
    → length (encode (dict d)) < 2 ^ 64
    → parse_response (head ++ (codes "\r\n\r\n" ++ encode (dict d))) ≡ peers_of d
unfolding parse_response peers_of_value
parse_response_dict head d h w l =
    rw (find_body_behind head (encode (dict d)) h, parse_response, decode-encode (dict d) w l)

-- What the dictionary of a tracker says: that it failed, and why, whatever else it holds; or else
-- the peers of a compact list, or none.
pub data Says (d : Dict) : Outcome HttpError (List SocketAddr) → Type 0 where
  names_failure :
      (reason : Bytes)
      → get (codes "failure reason") d ≡ some (byte_string reason)
      → Says d (err (failed (from_utf8_lossy reason)))
  lists_peers :
      (ps : List SocketAddr)
      → get (codes "failure reason") d ≡ none
      → All HasPort ps
      → get (codes "peers") d ≡ some (byte_string (print_peers ps))
      → Says d (ok ps)
  lists_nothing :
      get (codes "failure reason") d ≡ none → get (codes "peers") d ≡ none → Says d (ok [])

peers_of-Says :
    (d : Dict) (answer : Outcome HttpError (List SocketAddr)) → Says d answer → peers_of d ≡ answer
unfolding peers_of
peers_of-Says d answer (names_failure reason e) = rw (e, peers_of) refl
peers_of-Says d answer (lists_peers ps e ports k) =
    rw (e, peers_of, k, read_peers-print_peers ps ports) refl
peers_of-Says d answer (lists_nothing e k) = rw (e, peers_of, k) refl

-- A response whose first blank line ends its head, and whose body is the print of a well-formed
-- dictionary of fewer than 2 ^ 64 bytes, is answered by what that dictionary says: where it holds a
-- failure reason, with that failure, whatever peers it holds too; where it holds none, with the peers
-- whose compact list it holds, in their order, or with no peers if it holds no list.
pub parse_response-encode :
    (head : Bytes) (d : Dict) (answer : Outcome HttpError (List SocketAddr))
    → find_body (head ++ codes "\r\n\r") ≡ none
    → IsWellFormed (dict d)
    → length (encode (dict d)) < 2 ^ 64
    → Says d answer
    → parse_response (head ++ (codes "\r\n\r\n" ++ encode (dict d))) ≡ answer
parse_response-encode head d answer h w l says =
    parse_response_dict head d h w l ∙ peers_of-Says d answer says
