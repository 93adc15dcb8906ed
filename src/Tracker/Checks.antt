-- ===== src/Tracker/Checks.antt =====
-- Concrete runs of crates/tracker/src/lib.rs, and the theorems at concrete inputs.
use torrent_rust_cli.Common.{◌≡◌, refl, [], ◌∷◌, ◌++◌, List, some, replicate, ok, arith}
use torrent_rust_cli.Common.Ints.{pos}
use torrent_rust_cli.Common.Decimal.{print_nat}
use torrent_rust_cli.Common.Texts.{codes}
use torrent_rust_cli.Bencode.Value.{Dict, dict, get, compare_bytes, byte_string, entry, empty}
use torrent_rust_cli.Bencode.Encode.{encode, encode_string}
use torrent_rust_cli.Tracker.Peers.{SocketAddr, v4, print_peers}
use torrent_rust_cli.Tracker.Udp.{
  trim_scheme, Announce, UdpLink, announce_udp, connect_answer, announce_answer,
  announce_udp_served,
}
use torrent_rust_cli.Magnet.Link.{strip_prefix}
use torrent_rust_cli.Tracker.Http.{
  find_body, parse_response, Says, lists_peers, parse_response-encode, split_url, cut_at,
}

abbrev our_announce : Announce
our_announce = record {
  info_hash = replicate 20 1;
  peer_id = replicate 20 2;
  port = 6881;
  left = pos 5;
}

abbrev two_peers : List SocketAddr
two_peers = v4 10 0 0 1 6881 ∷ v4 10 0 0 2 6882 ∷ []

abbrev honest_link : UdpLink
honest_link = record {
  resolve = λ host. (host ∷ []);
  after_connect = λ addr req. some (connect_answer 7 (replicate 8 3));
  after_announce = λ addr req. some (announce_answer 8 (replicate 12 0) two_peers);
}

announce_udp_served_example :
    announce_udp honest_link (codes "udp://t:1/a") our_announce 7 8 9 ≡ ok two_peers
announce_udp_served_example =
    announce_udp_served honest_link (codes "udp://t:1/a") (replicate 8 3) (replicate 12 0)
      our_announce 7 8 9 two_peers
      (record {
        addr = _;
        others = [];
        resolves = refl;
        connects = refl;
        announces = refl;
        connection_size = refl;
        counts_size = refl;
      })
      (omega arith) (omega arith) (omega arith, (omega arith, tt)) (omega arith)

abbrev answer_dict : Dict
answer_dict = entry (codes "peers") (byte_string (print_peers two_peers)) empty

answer_dict-Says : Says answer_dict (ok two_peers)
unfolding get compare_bytes
answer_dict-Says = lists_peers two_peers refl (omega arith, (omega arith, tt)) refl

parse_response-encode_example :
    parse_response (codes "HTTP/1.1 200 OK" ++ (codes "\r\n\r\n" ++ encode (dict answer_dict)))
    ≡ ok two_peers
unfolding encode encode_string print_nat find_body
parse_response-encode_example =
    parse_response-encode (codes "HTTP/1.1 200 OK") answer_dict (ok two_peers) refl
      ((tt, tt), (tt, tt)) (omega arith) answer_dict-Says

test_split_url : split_url (codes "http://t:80/a?b") ≡ (codes "t:80", codes "/a?b")
unfolding split_url cut_at trim_scheme strip_prefix
test_split_url = refl
