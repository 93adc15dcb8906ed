-- ===== src/Tracker/Udp.antt =====
-- `TrackerClient::announce_udp` of crates/tracker/src/lib.rs. The resolver, the socket and the clock
-- behind `rand_u32` are parameters.
use torrent_rust_cli.Common.{
  ℕ, zero, suc, ◌+◌, ◌*◌, ◌/◌, ◌%◌, ◌^◌, ◌≤◌, ◌<◌, ◌≡◌, ◌≢◌, refl, ap, ◌∙◌, [], ◌∷◌, ◌++◌, List,
  Option, none, some, ◌&&◌, Bytes, length, take, drop, replicate, All, arith, lengths, ltb, ◌==◌,
  if◌then◌else◌, Outcome, ok, err, ◌>>=◌, length-append, take_whole, take-append, drop-append,
  eq→==, le→ltb, ◌⊎◌,
}
use torrent_rust_cli.Common.Ints.{ℤ, i64_to_u64}
use torrent_rust_cli.Common.Texts.{codes}
use torrent_rust_cli.Common.Words.{be16, be32, from_be32-be32}
use torrent_rust_cli.Common.Streams.{word32}
use torrent_rust_cli.Magnet.Link.{strip_prefix}
use torrent_rust_cli.Tracker.Peers.{
  SocketAddr, HasPort, read_peers, print_peers, read_peers-print_peers, length-print_peers,
}

pub data UdpError : Type 0 where
  unresolved no_answer invalid_connect too_short invalid_announce : UdpError

-- `to_be_bytes` of 64 bits.
abbrev pub be64 : ℕ → Bytes
be64 n = be32 (n / 2 ^ 32 % 2 ^ 32) ++ be32 (n % 2 ^ 32)

-- `split('/').next()`
unfoldable pub before_slash : Bytes → Bytes
before_slash [] = []
before_slash (c ∷ s) = let rest = before_slash s in if c == b'/' then [] else c ∷ rest

-- `trim_start_matches("udp://")`: the prefix is taken off as often as it stands there. A round takes
-- six bytes, so the length is enough fuel.
unfoldable pub trim_scheme : ℕ → Bytes → Bytes → Bytes
trim_scheme zero scheme url = url
trim_scheme (suc f) scheme url = elim (strip_prefix scheme url) [
  | none ↦ url
  | some rest ↦ trim_scheme f scheme rest
]

unfoldable pub udp_host_port : Bytes → Bytes
udp_host_port url = before_slash (trim_scheme (length url) (codes "udp://") url)

unfoldable pub connect_request : ℕ → Bytes
connect_request transaction_id = be64 0x41727101980 ++ (be32 0 ++ be32 transaction_id)

-- The answer is read into a buffer of 16 zeros, and how many bytes arrived is not looked at.
unfoldable pub connection_id : ℕ → Bytes → Outcome UdpError Bytes
connection_id transaction_id datagram =
    let resp = take 16 (datagram ++ replicate 16 0) in
    if word32 resp == 0 && word32 (drop 4 resp) == transaction_id
    then ok (drop 8 resp)
    else err invalid_connect

-- What one announce is about.
pub record Announce : Type 0 where
  pub info_hash : Bytes
  pub peer_id : Bytes
  pub port : ℕ
  pub left : ℤ

unfoldable pub announce_request : Announce → Bytes → ℕ → ℕ → Bytes
announce_request a connection transaction_id key =
    connection
    ++ (be32 1
        ++ (be32 transaction_id
            ++ (a.info_hash
                ++ (a.peer_id
                    ++ (be64 0
                        ++ (be64 (i64_to_u64 a.left)
                            ++ (be64 0
                                ++ (be32 0
                                    ++ (be32 0
                                        ++ (be32 key ++ (be32 0xffffffff ++ be16 a.port)))))))))))

-- The answer is read into a buffer of 4096 bytes.
unfoldable pub announced_peers : ℕ → Bytes → Outcome UdpError (List SocketAddr)
announced_peers transaction_id datagram =
    let resp = take 4096 datagram in
    if ltb (length resp) 20
    then err too_short
    else if word32 resp == 1 && word32 (drop 4 resp) == transaction_id
    then ok (read_peers (drop 20 resp))
    else err invalid_announce

-- The datagram that comes back on the socket within the time limit, if one does, after those sent.
pub record UdpLink : Type 0 where
  pub resolve : Bytes → List Bytes
  pub after_connect : Bytes → Bytes → Option Bytes
  pub after_announce : Bytes → Bytes → Option Bytes

unfoldable pub received : Option Bytes → Outcome UdpError Bytes
received none = err no_answer
received (some datagram) = ok datagram

unfoldable pub first_address : List Bytes → Outcome UdpError Bytes
first_address [] = err unresolved
first_address (addr ∷ addrs) = ok addr

-- The numbers are those of the three calls of `rand_u32`.
unfoldable pub announce_udp :
    UdpLink → Bytes → Announce → ℕ → ℕ → ℕ → Outcome UdpError (List SocketAddr)
unfolding received first_address
announce_udp link url a transaction_id announce_transaction_id key =
    first_address (link.resolve (udp_host_port url)) >>= λ addr.
    received (link.after_connect addr (connect_request transaction_id)) >>= λ resp.
    connection_id transaction_id resp >>= λ connection.
    received (link.after_announce addr (announce_request a connection announce_transaction_id key))
    >>= λ answer. announced_peers announce_transaction_id answer

-- The answers of a tracker by BEP 15: they repeat the transaction id of the request.
abbrev pub connect_answer : ℕ → Bytes → Bytes
connect_answer transaction_id connection = be32 0 ++ (be32 transaction_id ++ connection)

abbrev pub announce_answer : ℕ → Bytes → List SocketAddr → Bytes
announce_answer transaction_id counts peers =
    be32 1 ++ (be32 transaction_id ++ (counts ++ print_peers peers))

take_front : (n : ℕ) (xs ys : Bytes) → length xs ≡ n → take n (xs ++ ys) ≡ xs
take_front n xs ys e = rw (← e) (take-append xs ys)

drop_front : (n : ℕ) (xs ys : Bytes) → length xs ≡ n → drop n (xs ++ ys) ≡ ys
drop_front n xs ys e = rw (← e) (drop-append xs ys)

connection_id_of_answer :
    (t : ℕ) (connection : Bytes)
    → t < 2 ^ 32
    → length connection ≡ 8
    → connection_id t (connect_answer t connection) ≡ ok connection
unfolding connection_id
connection_id_of_answer t connection h l =
    rw (take_front 8 connection (replicate 16 0) l, from_be32-be32 t h, eq→== t t refl)

announced_peers_accepts :
    (t : ℕ) (datagram : Bytes)
    → length datagram ≤ 4096
    → 20 ≤ length datagram
    → word32 datagram ≡ 1
    → word32 (drop 4 datagram) ≡ t
    → announced_peers t datagram ≡ ok (read_peers (drop 20 datagram))
unfolding announced_peers
announced_peers_accepts t datagram n l a e = rw (
  take_whole 4096 datagram n,
  le→ltb (length datagram) 20 l,
  a,
  eq→== (word32 (drop 4 datagram)) t e,
)

announced_peers_of_answer :
    (t : ℕ) (counts : Bytes) (peers : List SocketAddr)
    → t < 2 ^ 32
    → length counts ≡ 12
    → All HasPort peers
    → length peers ≤ 679
    → announced_peers t (announce_answer t counts peers) ≡ ok peers
announced_peers_of_answer t counts peers h l p n =
    let answer = announce_answer t counts peers in
    let size : length answer ≡ 20 + 6 * length peers =
      omega (arith, length-append counts (print_peers peers), length-print_peers peers) in
    let peers_data : drop 20 answer ≡ print_peers peers =
      drop_front 12 counts (print_peers peers) l in
    announced_peers_accepts t answer (omega arith) (omega arith) refl (from_be32-be32 t h)
    ∙ ap (λ d. ok (read_peers d)) peers_data
    ∙ ap ok (read_peers-print_peers peers p)

-- A tracker that keeps to BEP 15 for these peers, whatever address it is asked at: it repeats the
-- transaction ids.
pub record Serves (link : UdpLink) (url connection counts : Bytes) (a : Announce) (t t' key : ℕ)
    (peers : List SocketAddr) : Type 0 where
  pub addr : Bytes
  pub others : List Bytes
  pub resolves : link.resolve (udp_host_port url) ≡ addr ∷ others
  pub connects : link.after_connect addr (connect_request t) ≡ some (connect_answer t connection)
  pub announces :
      link.after_announce addr (announce_request a connection t' key)
      ≡ some (announce_answer t' counts peers)
  pub connection_size : length connection ≡ 8
  pub counts_size : length counts ≡ 12

-- From a tracker that can be resolved and repeats the transaction ids, with a connection id of 8
-- bytes and counts of 12, and that puts at most 679 peers into its answer, the client gets these
-- peers in their order, where the ids fit a u32 and the ports a u16.
pub announce_udp_served :
    (link : UdpLink) (url connection counts : Bytes) (a : Announce) (t t' key : ℕ)
    (peers : List SocketAddr)
    → Serves link url connection counts a t t' key peers
    → t < 2 ^ 32
    → t' < 2 ^ 32
    → All HasPort peers
    → length peers ≤ 679
    → announce_udp link url a t t' key ≡ ok peers
unfolding announce_udp
announce_udp_served link url connection counts a t t' key peers v h h' p n = rw (
  v.resolves,
  v.connects,
  connection_id_of_answer t connection h v.connection_size,
  v.announces,
  announced_peers_of_answer t' counts peers h' v.counts_size p n,
)

abbrev pub Refusal : Outcome UdpError (List SocketAddr) → Type 0
Refusal r = (r ≡ err too_short) ⊎ (r ≡ err invalid_announce)

refused_by :
    (l a b t : ℕ) (peers : List SocketAddr)
    → (l < 20) ⊎ (a ≢ 1) ⊎ (b ≢ t)
    → Refusal (
        if ltb l 20
        then err too_short
        else if (a == 1) && (b == t)
        then ok peers
        else err invalid_announce)
refused_by l a b t peers h = ground arith

-- An answer to the announce of at most 4096 bytes that is shorter than 20 bytes, has another
-- action than 1, or does not repeat the transaction id, is refused.
pub announced_peers_refuses :
    (t : ℕ) (datagram : Bytes)
    → (length datagram < 20) ⊎ (word32 datagram ≢ 1) ⊎ (word32 (drop 4 datagram) ≢ t)
    → length datagram ≤ 4096
    → Refusal (announced_peers t datagram)
unfolding announced_peers
announced_peers_refuses t datagram h n =
    rw (take_whole 4096 datagram n)
      (refused_by (length datagram) (word32 datagram) (word32 (drop 4 datagram)) t _ h)

-- The announce has the 98 bytes of the protocol, where the connection id has 8 bytes, and the info
-- hash and the peer id have 20.
pub length-announce_request :
    (a : Announce) (connection : Bytes) (t key : ℕ)
    → length connection ≡ 8
    → length a.info_hash ≡ 20
    → length a.peer_id ≡ 20
    → length (announce_request a connection t key) ≡ 98
unfolding announce_request
length-announce_request a connection t key c i p = omega (lengths, c, i, p)
